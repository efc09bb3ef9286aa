-- ===== src/FsUtil/Decimal.antt =====
-- Printing and parsing numbers: fs_util.h reads back what `std::to_string` writes, and nothing that
-- it accepts has wrapped around.
use mathlib.Core.List.{cons-ne-nil}
use native.Mathlib.Nat.{pow-suc}
use somnium_db.Prelude.{
  ℕ, zero, suc, ◌+◌, ◌-◌, ◌*◌, ◌/◌, ◌%◌, ◌^◌, ◌≤◌, ◌<◌, ◌≡◌, ◌≢◌, ap, refl, some, [], ◌∷◌, length,
  Bytes, arith,
}
use somnium_db.Prelude.Int.{ℤ, pos, negsuc, ◌≤ℤ◌, llong_max, llong_min}
use somnium_db.FsUtil.{
  uint64_max, scan_u64, parse_u64, nonneg_i64, parse_i64, digits, to_string, to_string_ℤ,
}

abbrev pub AllDigits : Bytes → Type 0
AllDigits [] = Unit
AllDigits (c ∷ s) = (b'0' ≤ c) × (c ≤ b'9') × AllDigits s

-- The number that digits spell after `v`, with no bound.
abbrev pub value_of : ℕ → Bytes → ℕ
value_of v [] = v
value_of v (c ∷ s) = value_of (v * 10 + (c - b'0')) s

le-value_of : (s : Bytes) (v : ℕ) → v ≤ value_of v s
le-value_of [] v = omega arith
le-value_of (c ∷ s) v = omega (arith, le-value_of s (v * 10 + (c - b'0')))

scan_u64_sound :
    (s : Bytes) (v r : ℕ)
    → v ≤ uint64_max
    → scan_u64 s v ≡ some r
    → AllDigits s × (r ≡ value_of v s) × (r ≤ uint64_max)
unfolding scan_u64
scan_u64_sound [] v r b h = ground arith
scan_u64_sound (c ∷ s) v r b h = ground (arith, scan_u64_sound s (v * 10 + (c - b'0')) r)

scan_u64_complete :
    (s : Bytes) (v : ℕ)
    → AllDigits s
    → value_of v s ≤ uint64_max
    → scan_u64 s v ≡ some (value_of v s)
unfolding scan_u64
scan_u64_complete [] v d b = refl
scan_u64_complete (c ∷ s) v (lo, hi, d) b =
    let w = v * 10 + (c - b'0') in ground (arith, scan_u64_complete s w d b, le-value_of s w)

-- An accepted text is one or more digits that spell the result, which fits: nothing has wrapped.
pub parse_u64_sound :
    (s : Bytes) (r : ℕ)
    → parse_u64 s ≡ some r
    → (s ≢ []) × AllDigits s × (r ≡ value_of 0 s) × (r ≤ uint64_max)
unfolding parse_u64
parse_u64_sound [] r h = cc
parse_u64_sound (c ∷ s) r h =
    let p = scan_u64_sound (c ∷ s) 0 r (omega arith) h in (cons-ne-nil c s, p.0, p.1, p.2)

pub parse_u64_complete :
    (s : Bytes)
    → s ≢ []
    → AllDigits s
    → value_of 0 s ≤ uint64_max
    → parse_u64 s ≡ some (value_of 0 s)
unfolding parse_u64
parse_u64_complete [] ne d b = absurd (ne refl)
parse_u64_complete (c ∷ s) ne d b = scan_u64_complete (c ∷ s) 0 d b

last_digit : (n : ℕ) → n / 10 * 10 + (b'0' + n % 10 - b'0') ≡ n
last_digit n = omega arith

last_digit_alone : (n : ℕ) → 0 * 10 + (b'0' + n % 10 - b'0') ≡ n % 10
last_digit_alone n = omega arith

digits-AllDigits : (f n : ℕ) (out : Bytes) → AllDigits out → AllDigits (digits f n out)
unfolding digits
digits-AllDigits zero n out d = d
digits-AllDigits (suc f) n out d =
    ground (arith, digits-AllDigits f (n / 10) ((b'0' + n % 10) ∷ out))

digits-value_of : (f n : ℕ) (out : Bytes) → n < f → value_of 0 (digits f n out) ≡ value_of n out
unfolding digits
digits-value_of zero n out h = absurd (omega arith)
digits-value_of (suc f) n out h = ground (
  arith,
  digits-value_of f (n / 10) ((b'0' + n % 10) ∷ out),
  ap (λ (v : ℕ). value_of v out) (last_digit n),
  ap (λ (v : ℕ). value_of v out) (last_digit_alone n),
)

digits-ne-nil : (f n c : ℕ) (out : Bytes) → digits f n (c ∷ out) ≢ []
unfolding digits
digits-ne-nil zero n c out = cons-ne-nil _ _
digits-ne-nil (suc f) n c out =
    ground (arith, digits-ne-nil f (n / 10) (b'0' + n % 10) (c ∷ out), cons-ne-nil c out)

pub to_string-AllDigits : (n : ℕ) → AllDigits (to_string n)
unfolding to_string
to_string-AllDigits n = digits-AllDigits (suc n) n [] tt

pub to_string-ne-nil : (n : ℕ) → to_string n ≢ []
unfolding to_string digits
to_string-ne-nil n = ground (arith, digits-ne-nil n (n / 10) (b'0' + n % 10) [])

pub to_string-value_of : (n : ℕ) → value_of 0 (to_string n) ≡ n
unfolding to_string
to_string-value_of n = digits-value_of (suc n) n [] (omega arith)

-- Every `uint64_t` is read back from its decimal print.
pub parse_u64-to_string : (n : ℕ) → n ≤ uint64_max → parse_u64 (to_string n) ≡ some n
parse_u64-to_string n h =
    rw
      (parse_u64_complete (to_string n) (to_string-ne-nil n) (to_string-AllDigits n)
        (rw to_string-value_of h))
      (rw to_string-value_of)

-- A text that does not begin with a minus sign is read as unsigned.
parse_i64-unsigned : (s : Bytes) → AllDigits s → s ≢ [] → parse_i64 s ≡ nonneg_i64 (parse_u64 s)
unfolding parse_i64
parse_i64-unsigned [] d ne = absurd (ne refl)
parse_i64-unsigned (c ∷ s) (lo, hi, d) ne = ground arith

-- Every `long long` is read back from its decimal print.
pub parse_i64-to_string_ℤ :
    (z : ℤ) → llong_min ≤ℤ z → z ≤ℤ llong_max → parse_i64 (to_string_ℤ z) ≡ some z
unfolding to_string_ℤ nonneg_i64
parse_i64-to_string_ℤ (pos n) lo hi =
    rw (parse_i64-unsigned (to_string n) (to_string-AllDigits n) (to_string-ne-nil n))
      (ground (arith, parse_u64-to_string n (omega arith)))
parse_i64-to_string_ℤ (negsuc n) lo hi =
    unfold parse_i64 in ground (arith, parse_u64-to_string (suc n) (omega arith))

-- What `parse_i64` accepts lies in the range of `long long`.
pub parse_i64_range :
    (s : Bytes) (z : ℤ) → parse_i64 s ≡ some z → (llong_min ≤ℤ z) × (z ≤ℤ llong_max)
unfolding parse_i64
parse_i64_range [] z h = cc
parse_i64_range (c ∷ s) (pos n) h = ground arith
parse_i64_range (c ∷ s) (negsuc n) h = ground arith

-- A number below 10 ^ k has at most k digits.
length-digits-le :
    (k f n : ℕ) (out : Bytes) → n < 10 ^ suc k → length (digits f n out) ≤ suc k + length out
unfolding digits
length-digits-le k zero n out h = omega arith
length-digits-le zero (suc f) n out h =
    let e : n / 10 ≡ 0 = omega (arith, pow-suc 10 0) in ground arith
length-digits-le (suc k) (suc f) n out h =
    let q : n / 10 < 10 ^ suc k = omega (arith, pow-suc 10 (suc k)) in
    ground (arith, length-digits-le k f (n / 10) ((b'0' + n % 10) ∷ out) q)

-- A 64-bit number prints as at most 20 digits.
pub length-to_string-le : (n : ℕ) → n ≤ uint64_max → length (to_string n) ≤ 20
unfolding to_string
length-to_string-le n h = omega (arith, length-digits-le 19 (suc n) n [] (omega arith))
