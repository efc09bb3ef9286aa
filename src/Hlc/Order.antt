-- ===== src/Hlc/Order.antt =====
-- What src/core/hlc.h promises of versions: the order of those that one clock issues.
use somnium_db.Prelude.{ℕ, ◌+◌, ◌*◌, ◌%◌, ◌^◌, ◌≤◌, ◌<◌, ◌≡◌, ◌↔◌, ◌⊎◌, arith}
use somnium_db.Prelude.Int.{ℤ, to_u64, w64}
use somnium_db.Hlc.{normalize, physical_ms, Clock, next, legacy_limit}

-- Normalising a version twice is normalising it once exactly when the version is 0 or at least
-- 2 ^ 31, so a legacy version in milliseconds below 2 ^ 31 is moved again by a second pass.
pub normalize_idem_iff :
    (ts : ℕ) → (normalize (normalize ts) ≡ normalize ts) ↔ ((ts ≡ 0) ⊎ (2 ^ 31 ≤ ts))
unfolding normalize
normalize_idem_iff ts = (λ h. ground arith, λ h. ground arith)

pub normalize-lt : (ts : ℕ) → ts < w64 → normalize ts < w64
unfolding normalize
normalize-lt ts h = ground arith

-- The physical part of a normalised legacy version is the number of milliseconds that it held.
pub physical_ms-normalize : (ts : ℕ) → ts < legacy_limit → physical_ms (normalize ts) ≡ ts
unfolding normalize physical_ms
physical_ms-normalize ts h = ground arith

-- Where neither counter is at its last value, a local write's version is above the clock and above
-- the version it overwrites, is not below the wall clock, and is the clock's new value.
pub next_dominates :
    (c : Clock) (now : ℤ) (overwritten : ℕ)
    → c.last + 1 < w64
    → overwritten + 1 < w64
    → (c.last < (next c now overwritten).0)
      × (overwritten < (next c now overwritten).0)
      × (to_u64 now * 2 ^ 16 % w64 ≤ (next c now overwritten).0)
      × ((next c now overwritten).1.last ≡ (next c now overwritten).0)
unfolding next
next_dominates c now overwritten h k = ground arith
