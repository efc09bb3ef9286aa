-- ===== src/Word.antt =====
-- The fixed-width integers that `memcpy` writes: little-endian, as on the x86-64 hosts that the
-- server runs on. A `long long` is stored as its two's complement.
use native.Mathlib.Nat.{pow-suc}
use somnium_db.Prelude.{
  ℕ, zero, suc, ◌+◌, ◌-◌, ◌*◌, ◌/◌, ◌%◌, ◌^◌, ◌<◌, ◌≡◌, refl, ap, [], ◌∷◌, length, Bytes, arith,
  ltb, if◌then◌else◌,
}
use somnium_db.Prelude.Int.{ℤ, pos, negsuc, to_u64, w64, ◌≤ℤ◌, llong_min, llong_max}

unfoldable pub le_bytes : ℕ → ℕ → Bytes
le_bytes zero n = []
le_bytes (suc k) n = (n % 256) ∷ le_bytes k (n / 256)

unfoldable pub of_le : Bytes → ℕ
of_le [] = 0
of_le (b ∷ s) = b + 256 * of_le s

unfoldable pub of_u64 : ℕ → ℤ
of_u64 w = if ltb w (2 ^ 63) then pos w else negsuc (w64 - w - 1)

pub length-le_bytes : (k n : ℕ) → length (le_bytes k n) ≡ k
unfolding le_bytes
length-le_bytes zero n = refl
length-le_bytes (suc k) n = ap suc (length-le_bytes k (n / 256))

pub of_le-le_bytes : (k n : ℕ) → n < 256 ^ k → of_le (le_bytes k n) ≡ n
unfolding le_bytes of_le
of_le-le_bytes zero n h = omega arith
of_le-le_bytes (suc k) n h =
    let q : n / 256 < 256 ^ k = omega (arith, pow-suc 256 k) in
    omega (arith, of_le-le_bytes k (n / 256) q)

pub of_u64-to_u64 : (z : ℤ) → llong_min ≤ℤ z → z ≤ℤ llong_max → of_u64 (to_u64 z) ≡ z
unfolding of_u64
of_u64-to_u64 (pos n) lo hi = ground arith
of_u64-to_u64 (negsuc n) lo hi = ground arith

pub to_u64-lt : (z : ℤ) → to_u64 z < w64
to_u64-lt (pos n) = omega arith
to_u64-lt (negsuc n) = omega arith
