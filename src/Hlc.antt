-- ===== src/Hlc.antt =====
-- src/core/hlc.h: the hybrid logical clock, 48 bits of milliseconds over a 16-bit counter.
-- A `uint64_t` is a number whose wrap-around is written out.
pub mod Order
use somnium_db.Prelude.{ℕ, ◌+◌, ◌*◌, ◌/◌, ◌%◌, ◌^◌, max, ltb, if◌then◌else◌}
use somnium_db.Prelude.Int.{ℤ, to_u64, w64}

abbrev pub legacy_limit : ℕ
legacy_limit = 2 ^ 47

unfoldable pub normalize : ℕ → ℕ
normalize ts = if ltb ts legacy_limit then ts * 2 ^ 16 % w64 else ts

unfoldable pub physical_ms : ℕ → ℕ
physical_ms ts = ts / 2 ^ 16

pub record Clock : Type 0 where
  pub last : ℕ

abbrev pub new_clock : Clock
new_clock = record { last = 0 }

-- The version of a local write, and the clock after it.
unfoldable pub next : Clock → ℤ → ℕ → ℕ × Clock
next c now_ms overwritten =
    let last : ℕ =
      max (max (to_u64 now_ms * 2 ^ 16 % w64) ((c.last + 1) % w64)) ((overwritten + 1) % w64) in
    (last, record { last = last })

unfoldable pub observe : Clock → ℕ → Clock
observe c ts = record { last = max c.last ts }
