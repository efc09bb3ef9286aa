-- ===== src/Sketch.antt =====
-- src/utils/count_min_sketch.h: the approximate access counts behind eviction. The table of 16-bit
-- counters is a function of row and column.
pub mod Counts
use Prim.Native.Nat.{bit_xor}
use somnium_db.Prelude.{
  ℕ, zero, suc, ◌+◌, ◌-◌, ◌*◌, ◌/◌, ◌%◌, ◌^◌, ◌&&◌, [], ◌∷◌, Bytes, ltb, ◌==◌, if◌then◌else◌,
}

abbrev pub width : ℕ
width = 4096

abbrev pub depth : ℕ
depth = 4

abbrev w32 : ℕ
w32 = 2 ^ 32

-- `static_cast<uint32_t>(c)` of a signed `char`.
unfoldable pub char_to_u32 : ℕ → ℕ
char_to_u32 c = if ltb c 128 then c else w32 - 256 + c

hash_byte : ℕ → ℕ → ℕ
unfolding char_to_u32
hash_byte h c =
    let h₁ : ℕ = bit_xor h (char_to_u32 c) in
    let h₂ : ℕ = h₁ * 0x5bd1e995 % w32 in bit_xor h₂ (h₂ / 2 ^ 15)

unfoldable pub fast_hash : Bytes → ℕ → ℕ
unfolding hash_byte
fast_hash [] h = h
fast_hash (c ∷ key) h = fast_hash key (hash_byte h c)

-- The column of a key in row `i`; `& (WIDTH - 1)` is `% WIDTH`, a power of two.
unfoldable pub column : Bytes → ℕ → ℕ
unfolding fast_hash
column key i = fast_hash key ((i + 1) * 0x9e3779b9 % w32) % width

pub record CountMinSketch : Type 0 where
  pub table : ℕ → ℕ → ℕ

abbrev pub empty : CountMinSketch
empty = record { table = λ i j. 0 }

-- One round of the loop of `record_access`.
unfoldable pub bump_row : Bytes → ℕ → CountMinSketch → CountMinSketch
bump_row key i s =
    let h : ℕ = column key i in
    if ltb (s.table i h) 0xffff
    then record { table = λ r c. if r == i && c == h then s.table r c + 1 else s.table r c }
    else s

-- The rows `i`, `i + 1`, …, `n` of them.
unfoldable pub bump_rows : Bytes → ℕ → ℕ → CountMinSketch → CountMinSketch
unfolding bump_row
bump_rows key zero i s = s
bump_rows key (suc n) i s = bump_rows key n (i + 1) (bump_row key i s)

unfoldable pub record_access : Bytes → CountMinSketch → CountMinSketch
unfolding bump_rows
record_access key s = bump_rows key depth 0 s

unfoldable pub least_row : Bytes → ℕ → ℕ → CountMinSketch → ℕ → ℕ
least_row key zero i s lowest = lowest
least_row key (suc n) i s lowest =
    least_row key n (i + 1) s
      (let count : ℕ = s.table i (column key i) in if ltb count lowest then count else lowest)

unfoldable pub estimate_frequency : Bytes → CountMinSketch → ℕ
unfolding least_row
estimate_frequency key s = least_row key depth 0 s 0xffff
