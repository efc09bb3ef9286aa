-- ===== src/FsUtil.antt =====
-- src/storage/fs_util.h: strict decimal parsing, and `std::to_string`, which prints what it reads.
pub mod Decimal
use somnium_db.Prelude.{
  ℕ, zero, suc, ◌+◌, ◌-◌, ◌*◌, ◌/◌, ◌%◌, ◌^◌, ◌||◌, true, false, Option, none, some, [], ◌∷◌, Bytes,
  ltb, ◌==◌, if◌then◌else◌,
}
use somnium_db.Prelude.Int.{ℤ, pos, negsuc}

abbrev pub uint64_max : ℕ
uint64_max = 2 ^ 64 - 1

abbrev pub uint32_max : ℕ
uint32_max = 2 ^ 32 - 1

-- The loop of `parse_u64`, with `v` so far.
unfoldable pub scan_u64 : Bytes → ℕ → Option ℕ
scan_u64 [] v = some v
scan_u64 (c ∷ s) v =
    if ltb c b'0' || ltb b'9' c
    then none
    else let d = c - b'0' in
      if ltb ((uint64_max - d) / 10) v then none else scan_u64 s ((v * 10 + d) % 2 ^ 64)

-- `none` is the result false, where `*out` is left alone.
unfoldable pub parse_u64 : Bytes → Option ℕ
unfolding scan_u64
parse_u64 [] = none
parse_u64 (c ∷ s) = scan_u64 (c ∷ s) 0

-- `-static_cast<long long>(u)`
unfoldable pub negate : ℕ → ℤ
negate zero = pos 0
negate (suc n) = negsuc n

nonneg_i64 : Option ℕ → Option ℤ
nonneg_i64 none = none
nonneg_i64 (some u) = if ltb (2 ^ 63 - 1) u then none else some (pos u)

neg_i64 : Option ℕ → Option ℤ
unfolding negate
neg_i64 none = none
neg_i64 (some u) = if ltb (2 ^ 63) u then none else some (negate u)

unfoldable pub parse_i64 : Bytes → Option ℤ
unfolding parse_u64 nonneg_i64 neg_i64
parse_i64 [] = nonneg_i64 (parse_u64 [])
parse_i64 (c ∷ s) = if c == b'-' then neg_i64 (parse_u64 s) else nonneg_i64 (parse_u64 (c ∷ s))

-- The digits of `n` before `out`; `n + 1` rounds are enough, since each divides by ten.
unfoldable pub digits : ℕ → ℕ → Bytes → Bytes
digits zero n out = out
digits (suc fuel) n out = elim (n / 10 == 0) [
  | true ↦ (b'0' + n % 10) ∷ out
  | false ↦ digits fuel (n / 10) ((b'0' + n % 10) ∷ out)
]

-- `std::to_string` of an unsigned number and of a `long long`.
unfoldable pub to_string : ℕ → Bytes
unfolding digits
to_string n = digits (suc n) n []

unfoldable pub to_string_ℤ : ℤ → Bytes
unfolding to_string
to_string_ℤ (pos n) = to_string n
to_string_ℤ (negsuc n) = b'-' ∷ to_string (suc n)
