-- ===== src/Sketch/Counts.antt =====
-- src/utils/count_min_sketch.h: the estimate is never below the number of accesses.
use somnium_db.Prelude.{
  ℕ, zero, suc, ◌+◌, ◌≤◌, ◌<◌, List, [], ◌∷◌, Bytes, arith, ◌==◌, if◌then◌else◌, bytes_eq,
  bytes_eq_iff, Bool-cases, inl, inr, subst, sym, ==_iff,
}
use Prim.Native.Nat.{min}
use somnium_db.Sketch.{
  CountMinSketch, empty, column, bump_row, bump_rows, record_access, least_row, estimate_frequency,
  depth,
}

-- No counter falls, and none passes 0xffff.
bump_row-le :
    (key : Bytes) (i r c : ℕ) (s : CountMinSketch) → s.table r c ≤ (bump_row key i s).table r c
unfolding bump_row
bump_row-le key i r c s = ground arith

bump_rows-le :
    (key : Bytes) (n i r c : ℕ) (s : CountMinSketch) → s.table r c ≤ (bump_rows key n i s).table r c
unfolding bump_rows
bump_rows-le key zero i r c s = omega arith
bump_rows-le key (suc n) i r c s =
    omega (arith, bump_row-le key i r c s, bump_rows-le key n (i + 1) r c (bump_row key i s))

bump_row_self :
    (key : Bytes) (i : ℕ) (s : CountMinSketch)
    → min (s.table i (column key i) + 1) 0xffff ≤ (bump_row key i s).table i (column key i)
unfolding bump_row
bump_row_self key i s = ground arith

bump_rows_self :
    (key : Bytes) (n i r : ℕ) (s : CountMinSketch)
    → i ≤ r
    → r < i + n
    → min (s.table r (column key r) + 1) 0xffff ≤ (bump_rows key n i s).table r (column key r)
unfolding bump_rows
bump_rows_self key zero i r s lo hi = absurd (omega arith)
bump_rows_self key (suc n) i r s lo hi = elim (Bool-cases (i == r)) [
  | inl here ↦
      subst
        (λ r.
          min (s.table r (column key r) + 1) 0xffff
          ≤ (bump_rows key n (i + 1) (bump_row key i s)).table r (column key r))
        ((==_iff i r).0 here)
        (omega (
          arith,
          bump_row_self key i s,
          bump_rows-le key n (i + 1) i (column key i) (bump_row key i s),
        ))
  | inr later ↦
      let ne : i + 1 ≤ r = ground arith in
      omega (
        arith,
        bump_row-le key i r (column key r) s,
        bump_rows_self key n (i + 1) r (bump_row key i s) ne (omega arith),
      )
]

-- The sketch after a run of accesses, the latest first, and the true count.
abbrev pub accesses : List Bytes → CountMinSketch
accesses [] = empty
accesses (k ∷ ks) = record_access k (accesses ks)

abbrev pub occurrences : Bytes → List Bytes → ℕ
occurrences key [] = 0
occurrences key (k ∷ ks) = if bytes_eq k key then occurrences key ks + 1 else occurrences key ks

counter-ge :
    (key : Bytes) (r : ℕ) (ks : List Bytes)
    → r < depth
    → min (occurrences key ks) 0xffff ≤ (accesses ks).table r (column key r)
unfolding record_access
counter-ge key r [] h = omega arith
counter-ge key r (k ∷ ks) h = elim (Bool-cases (bytes_eq k key)) [
  | inl same ↦ rw same (
      subst
        (λ k.
          min (occurrences key ks + 1) 0xffff
          ≤ (bump_rows k depth 0 (accesses ks)).table r (column key r))
        (sym ((bytes_eq_iff k key).0 same))
        (omega (
          arith,
          counter-ge key r ks h,
          bump_rows_self key depth 0 r (accesses ks) (omega arith) (omega arith),
        )))
  | inr other ↦
      rw other (
        omega (arith, counter-ge key r ks h, bump_rows-le k depth 0 r (column key r) (accesses ks)))
]

least_row-ge :
    (key : Bytes) (b n i : ℕ) (s : CountMinSketch) (lowest : ℕ)
    → b ≤ lowest
    → ((r : ℕ) → r < i + n → b ≤ s.table r (column key r))
    → b ≤ least_row key n i s lowest
unfolding least_row
least_row-ge key b zero i s lowest h all = h
least_row-ge key b (suc n) i s lowest h all =
    least_row-ge key b n (i + 1) s _ (ground (arith, all i (omega arith)))
      λ r hr. all r (omega arith)

-- After any run of accesses, whatever collides with the key, the estimated frequency of a key is at
-- least the number of its accesses, up to the counters' limit 0xffff.
pub estimate_frequency-ge :
    (key : Bytes) (ks : List Bytes)
    → min (occurrences key ks) 0xffff ≤ estimate_frequency key (accesses ks)
unfolding estimate_frequency
estimate_frequency-ge key ks =
    least_row-ge key (min (occurrences key ks) 0xffff) depth 0 (accesses ks) 0xffff (omega arith)
      λ r h. counter-ge key r ks (omega arith)
