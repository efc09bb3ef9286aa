-- ===== src/Commands/Deadlines.antt =====
-- The guards of SET and EXPIRE in src/core/commands.cpp against the overflow of a `long long`.
use somnium_db.Prelude.{ℕ, ◌+◌, ◌*◌, ◌<◌, ◌≡◌, arith, some, ◌⊎◌, inl, inr, ◌^◌}
use somnium_db.Prelude.Int.{ℤ, pos, negsuc, ◌+ℤ◌, ◌-ℤ◌, ◌*ℤ◌, div_ℤ}
use somnium_db.Commands.Options.{set_deadline}

-- With the clock at `now` milliseconds, which a `long long` holds, a deadline that SET accepts in seconds
-- or milliseconds lies after `now`, and a `long long` holds it.
pub set_deadline-bounds :
    (now scale : ℕ) (n at : ℤ)
    → now < 2 ^ 63
    → (scale ≡ 1) ⊎ (scale ≡ 1000)
    → set_deadline (pos now) scale (some n) ≡ some at
    → (t : ℕ) × (at ≡ pos t) × (now < t) × (t < 2 ^ 63)
unfolding set_deadline ◌-ℤ◌ ◌+ℤ◌ ◌*ℤ◌ div_ℤ
set_deadline-bounds now scale (negsuc n) at small units h = ground (arith, h)
set_deadline-bounds now scale (pos n) at small (inl one) h = (
  now + n,
  ground (arith, h, one, small),
  ground (arith, h, one, small),
  ground (arith, h, one, small),
)
set_deadline-bounds now scale (pos n) at small (inr ms) h = (
  now + n * 1000,
  ground (arith, h, ms, small),
  ground (arith, h, ms, small),
  ground (arith, h, ms, small),
)
