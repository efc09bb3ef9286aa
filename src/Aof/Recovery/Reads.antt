-- ===== src/Aof/Recovery/Reads.antt =====
-- src/storage/aof_manager.cpp, `recover`: the inner loop reads a record, however the file is cut into
-- chunks.
use somnium_db.Prelude.{
  ℕ, zero, suc, ◌+◌, ◌≤◌, ◌<◌, ◌≡◌, ◌≢◌, ◌∙◌, sym, subst, ◌⊎◌, inl, inr, refl, ap, Bool, true,
  false, List, [], ◌∷◌, ◌++◌, append_assoc, append-nil, length, length-append, take, drop, Bytes,
  take-drop, ◌==◌, arith, if◌then◌else◌, Bool-cases,
}
use somnium_db.Resp.{Status, need_more, parse}
use somnium_db.Resp.Stable.{parse-append}
use somnium_db.Aof.Recovery.{Reader, chunk_size, read_chunk, compact, fill, read_record}
use somnium_db.Aof.Recovery.Shift.{mapped, shift_end, parse-shift}
use somnium_db.Resp.Stable.{Status-cases}

-- What the reader has not consumed.
abbrev pub unread : Reader → Bytes
unread r = drop r.pos r.buf ++ r.left

take_none {ℓ} : {A : Type ℓ} (n : ℕ) (xs : List A) → length (take (suc n) xs) ≡ 0 → xs ≡ []
take_none n [] e = refl
take_none n (x ∷ xs) e = absurd (omega (arith, e))

length-take-drop {ℓ} :
    {A : Type ℓ} (n : ℕ) (xs : List A) → length (take n xs) + length (drop n xs) ≡ length xs
length-take-drop n xs = sym (length-append (take n xs) (drop n xs)) ∙ ap length (take-drop n xs)

-- A read splits what is left, and brings nothing only at the end of the file.
read_chunk-append : (s : Bytes) → (read_chunk s).0 ++ (read_chunk s).1 ≡ s
unfolding read_chunk
read_chunk-append s = take-drop chunk_size s

read_chunk_none : (s : Bytes) → length (read_chunk s).0 ≡ 0 → s ≡ []
unfolding read_chunk
read_chunk_none s e = take_none 65535 s e

length-read_chunk : (s : Bytes) → length (read_chunk s).0 + length (read_chunk s).1 ≡ length s
unfolding read_chunk
length-read_chunk s = length-take-drop chunk_size s

-- What a read keeps: the offset, the bytes to come, and `pos` inside the buffer.
pub record Kept (r s : Reader) : Type 0 where
  pub offset : s.compacted + s.pos ≡ r.compacted + r.pos
  pub bytes : unread s ≡ unread r
  pub inside : s.pos ≤ length s.buf

test_zero : {n : ℕ} → n ≡ 0 → (n == 0) ≡ true
test_zero z = ground arith

-- At the end of the file `fill` compacts alone, before it there are fewer bytes left.
data Filled (r : Reader) : Bool × Reader → Type 0 where
  ended :
      (s : Reader)
      → Kept r s
      → s.left ≡ []
      → s.pos ≡ 0
      → s.buf ≡ drop r.pos r.buf
      → unread r ≡ drop r.pos r.buf
      → Filled r (false, s)
  filled : (s : Reader) → Kept r s → length s.left < length r.left → Filled r (true, s)

fill-Filled : (r : Reader) → Filled r (fill r)
unfolding fill compact
fill-Filled r = elim (Bool-cases (length (read_chunk r.left).0 == 0)) [
  | inl e ↦
      let none_left : r.left ≡ [] = read_chunk_none r.left (ground arith) in
      rw e (
        ended _ (record { offset = omega arith; bytes = refl; inside = omega arith }) none_left refl
          refl (rw none_left (append-nil _)))
  | inr e ↦ rw e (
      filled _
        (record {
          offset = omega arith;
          bytes =
              append_assoc (drop r.pos r.buf) _ _
              ∙ ap (λ t. drop r.pos r.buf ++ t) (read_chunk-append r.left);
          inside = omega arith;
        })
        (let more : ¬ (length (read_chunk r.left).0 ≡ 0) = λ z. absurd (cc (e, test_zero z)) in
          omega (arith, more, length-read_chunk r.left)))
]

-- What the inner loop brings is the parse of everything to come; it waits only at the end of file.
pub record Read (r : Reader) (m : Status (ℕ × List Bytes) × Reader) : Type 0 where
  pub kept : Kept r m.1
  pub parsed : m.0 ≡ mapped (shift_end m.1.pos) (parse (unread r) 0)
  pub here : m.0 ≡ parse m.1.buf m.1.pos
  pub waits : (m.0 ≢ need_more) ⊎ (m.1.left ≡ [])

parse_unread :
    (r : Reader)
    → r.pos ≤ length r.buf
    → parse r.buf r.pos ≢ need_more
    → parse r.buf r.pos ≡ mapped (shift_end r.pos) (parse (unread r) 0)
parse_unread r h ne = elim (Status-cases (parse (drop r.pos r.buf) 0)) [
  | inr (inl w) ↦ absurd (ne (parse-shift r.buf r.pos ∙ ap (mapped (shift_end r.pos)) w))
  | inr (inr w) ↦
      parse-shift r.buf r.pos
      ∙ ap (mapped (shift_end r.pos))
          (sym (parse-append (drop r.pos r.buf) r.left 0 (omega arith) (λ q. cc)))
  | inl (a, w) ↦
      parse-shift r.buf r.pos
      ∙ ap (mapped (shift_end r.pos))
          (sym (parse-append (drop r.pos r.buf) r.left 0 (omega arith) (λ q. cc)))
]

Read-here :
    (r : Reader)
    → r.pos ≤ length r.buf
    → parse r.buf r.pos ≢ need_more
    → Read r (parse r.buf r.pos, r)
Read-here r h ne = record {
  kept = record { offset = refl; bytes = refl; inside = h };
  parsed = parse_unread r h ne;
  here = refl;
  waits = inl ne;
}

Read-trans : (r s : Reader) (m : Status (ℕ × List Bytes) × Reader) → Kept r s → Read s m → Read r m
Read-trans r s m k d = record {
  kept = record {
    offset = d.kept.offset ∙ k.offset;
    bytes = d.kept.bytes ∙ k.bytes;
    inside = d.kept.inside;
  };
  parsed = d.parsed ∙ ap (λ u. mapped (shift_end m.1.pos) (parse u 0)) k.bytes;
  here = d.here;
  waits = d.waits;
}

waits_behind :
    (buf : Bytes) (pos : ℕ) → parse buf pos ≡ need_more → parse (drop pos buf) 0 ≡ need_more
waits_behind buf pos w = elim (Status-cases (parse (drop pos buf) 0)) [
  | inl (a, q) ↦ absurd (cc (w, q, parse-shift buf pos))
  | inr (inl q) ↦ q
  | inr (inr q) ↦ absurd (cc (w, q, parse-shift buf pos))
]

Read-fill :
    (fuel : ℕ) (r : Reader)
    → r.pos ≤ length r.buf
    → parse r.buf r.pos ≡ need_more
    → length r.left < suc fuel
    → (m : Bool × Reader) → Filled r m
    → ((s : Reader) → s.pos ≤ length s.buf → length s.left < fuel → Read s (read_record fuel s))
    → Read r (if m.0 then read_record fuel m.1 else (need_more, m.1))
Read-fill fuel r h w n _ (ended s k none_left start same all) ih = record {
  kept = k;
  parsed = rw (all, waits_behind r.buf r.pos w) refl;
  here = rw (start, same, waits_behind r.buf r.pos w) refl;
  waits = inr none_left;
}
Read-fill fuel r h w n _ (filled s k less) ih = Read-trans r s _ k (ih s k.inside (omega arith))

pub read_record-Read :
    (fuel : ℕ) (r : Reader)
    → r.pos ≤ length r.buf
    → length r.left < fuel
    → Read r (read_record fuel r)
unfolding read_record
read_record-Read zero r h n = absurd (omega arith)
read_record-Read (suc fuel) r h n = elim (Status-cases (parse r.buf r.pos)) [
  | inl (a, w) ↦ rw (read_record, w) (subst (λ m. Read r (m, r)) w (Read-here r h (λ q. cc)))
  | inr (inl w) ↦
      rw (read_record, w) (Read-fill fuel r h w n (fill r) (fill-Filled r) (read_record-Read fuel))
  | inr (inr w) ↦ rw (read_record, w) (subst (λ m. Read r (m, r)) w (Read-here r h (λ q. cc)))
]
