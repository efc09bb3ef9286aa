-- ===== src/Aof/Rewrite/Draft.antt =====
-- src/storage/aof_manager.cpp: what stands in the new file once it replaces the old one.
use somnium_db.Prelude.{
  ℕ, zero, suc, ◌+◌, ◌-◌, ◌≤◌, ◌<◌, ◌≡◌, ◌∙◌, sym, refl, ap, inl, inr, ltb→lt, take_add,
  take-append, drop_add, length-take_within, length-drop, false, true, List, [], ◌∷◌, ◌++◌,
  append_assoc, append-nil, length, length-append, take, drop, drop-append_at, Bytes, arith,
  Bool-cases, ltb,
}
use somnium_db.Prelude.Int.{w64}
use somnium_db.Aof.{AofRecord, Aof, AppendIo, aof_header, append}
use somnium_db.Aof.Append.{
  encode_all, append-draft, append-size, run, acked, records, Within, Stored, run-Stored,
  encode_all-append,
}
use somnium_db.Aof.Rewrite.{
  copy_piece, piece_size, copy_tail, append_tail, CommitIo, commit_rewrite, replaced,
}

piece_size_within :
    (from end : ℕ) → from < end → (piece_size from end ≤ end - from) × (0 < piece_size from end)
unfolding piece_size
piece_size_within from end h = ground arith

copy_piece_lem :
    (n room from : ℕ) (file draft : Bytes)
    → from + n ≤ length file
    → n ≤ room
    → copy_piece n room from file draft ≡ (true, draft ++ take n (drop from file))
unfolding copy_piece
copy_piece_lem n room from file draft h r =
    ground (arith, length-take_within n (drop from file) (omega (arith, length-drop from file)))

pieces_joined :
    (n from end : ℕ) (file : Bytes)
    → n ≤ end - from
    → take n (drop from file) ++ take (end - (from + n)) (drop (from + n) file)
      ≡ take (end - from) (drop from file)
pieces_joined n from end file h =
    let sum : n + (end - (from + n)) ≡ end - from = omega arith in
    ap (λ t. take n (drop from file) ++ take (end - (from + n)) t) (drop_add from n file)
    ∙ sym (take_add n (end - (from + n)) (drop from file))
    ∙ ap (λ k. take k (drop from file)) sum

copy_tail_lem :
    (fuel room from end : ℕ) (file draft : Bytes)
    → end ≤ length file
    → end - from < fuel
    → end - from ≤ room
    → copy_tail fuel room from end file draft ≡ (true, draft ++ take (end - from) (drop from file))
unfolding copy_tail
copy_tail_lem zero room from end file draft h f r = absurd (omega arith)
copy_tail_lem (suc fuel) room from end file draft h f r = elim (Bool-cases (ltb from end)) [
  | inl more ↦
      let n : ℕ = piece_size from end in
      let (fits, some_bytes) = piece_size_within from end (ltb→lt from end more) in
      let again =
        copy_tail_lem fuel (room - n) (from + n) end file (draft ++ take n (drop from file)) h
          (omega arith) (omega arith) in
      rw (copy_tail, more, copy_piece_lem n room from file draft (omega arith) (omega arith), again)
        (ap (λ t. (true, t))
          (append_assoc draft _ _ ∙ ap (λ t. draft ++ t) (pieces_joined n from end file fits)))
  | inr done ↦
      let z : end - from ≡ 0 = ground arith in
      rw (copy_tail, done, z) (ap (λ t. (true, t)) (sym (append-nil draft)))
]

run-draft :
    (ops : List (AppendIo × AofRecord)) (a : Aof)
    → ((run ops a).draft ≡ a.draft) × ((run ops a).rewrite_open ≡ a.rewrite_open)
run-draft [] a = (refl, refl)
run-draft ((io, rec) ∷ ops) a =
    let (d, o) = append-draft io rec a in
    let (ds, os) = run-draft ops (append io rec a).1 in (ds ∙ d, os ∙ o)

run-size : (ops : List (AppendIo × AofRecord)) (a : Aof) → a.size < w64 → (run ops a).size < w64
run-size [] a h = h
run-size ((io, rec) ∷ ops) a h = run-size ops (append io rec a).1 (append-size io rec a h)

append_tail-draft :
    (room from : ℕ) (a : Aof)
    → a.rewrite_open ≡ true
    → a.size ≤ length a.file
    → a.size ≤ room
    → (append_tail true room from a).1.draft ≡ a.draft ++ take (a.size - from) (drop from a.file)
unfolding append_tail
append_tail-draft room from a o h r =
    rw
      (
        append_tail,
        o,
        copy_tail_lem (suc a.size) room from a.size a.file a.draft h (omega arith) (omega arith),
      )
      refl

append_tail-true :
    (room from : ℕ) (a : Aof)
    → a.rewrite_open ≡ true
    → a.size ≤ length a.file
    → a.size ≤ room
    → (append_tail true room from a).0 ≡ true
unfolding append_tail
append_tail-true room from a o h r =
    rw
      (
        append_tail,
        o,
        copy_tail_lem (suc a.size) room from a.size a.file a.draft h (omega arith) (omega arith),
      )
      refl

-- The file holds at least what `size_` counts.
run_within :
    (ops : List (AppendIo × AofRecord)) (a : Aof)
    → a.torn ≡ false
    → a.size ≡ length a.file
    → length (run ops a).file < w64
    → (run ops a).size ≤ length (run ops a).file
run_within ops a torn sz small =
    let s : Stored ops a = run-Stored ops a torn in
    let len : length (run ops a).file
        ≡ length a.file + (length (encode_all s.stored) + length s.rest) =
      ap length s.contents
      ∙ length-append a.file _
      ∙ ap (λ n. length a.file + n) (length-append (encode_all s.stored) s.rest) in
    omega (arith, s.sized, sz, len, small, run-size ops a (omega arith))

-- The tail is copied, if the temporary file takes it.
pub append_tail-run :
    (ops : List (AppendIo × AofRecord)) (a : Aof) (room from : ℕ)
    → a.torn ≡ false
    → a.size ≡ length a.file
    → a.rewrite_open ≡ true
    → length (run ops a).file < w64
    → length (run ops a).file ≤ room
    → (append_tail true room from (run ops a)).0 ≡ true
append_tail-run ops a room from torn sz o small fits =
    append_tail-true room from (run ops a) ((run-draft ops a).1 ∙ o)
      (run_within ops a torn sz small) (omega (arith, run_within ops a torn sz small))

pub commit_rewrite-file :
    (io : CommitIo) (a : Aof)
    → (commit_rewrite io a).0 ≡ true
    → (commit_rewrite io a).1.file ≡ a.draft
unfolding commit_rewrite replaced
commit_rewrite-file io a h = ground arith

-- A rewrite in the background: the child has written the records `recs` of the state at the fork, and
-- since then a run of appends went to the old file, whatever failed on the way. If the tail of the
-- old file is copied and the commit returns true, the file is the header, `recs`, and every record
-- stored since the fork, among them each one whose append returned true. A torn part of a record is
-- left behind.
pub commit_rewrite-tail :
    (recs : List AofRecord) (ops : List (AppendIo × AofRecord)) (a : Aof) (room : ℕ) (io : CommitIo)
    → a.torn ≡ false
    → a.size ≡ length a.file
    → a.rewrite_open ≡ true
    → a.draft ≡ aof_header ++ encode_all recs
    → length (run ops a).file < w64
    → length (run ops a).file ≤ room
    → (commit_rewrite io (append_tail true room a.size (run ops a)).1).0 ≡ true
    → (stored : List AofRecord) × ((commit_rewrite io
          (append_tail true room a.size (run ops a)).1).1.file
        ≡ aof_header ++ encode_all (recs ++ stored))
      × Within (acked ops a) stored
      × Within stored (records ops)
commit_rewrite-tail recs ops a room io torn sz open_now draft small fits ok =
    let s : Stored ops a = run-Stored ops a torn in
    let b : Aof = run ops a in
    let len : length b.file ≡ length a.file + (length (encode_all s.stored) + length s.rest) =
      ap length s.contents
      ∙ length-append a.file _
      ∙ ap (λ n. length a.file + n) (length-append (encode_all s.stored) s.rest) in
    let total : b.size ≡ length a.file + length (encode_all s.stored) =
      omega (arith, s.sized, sz, len, small, run-size ops a (omega arith)) in
    let rounds : b.size - a.size ≡ length (encode_all s.stored) = omega (arith, total, sz) in
    let taken : take (b.size - a.size) (encode_all s.stored ++ s.rest) ≡ encode_all s.stored =
      ap (λ k. take k (encode_all s.stored ++ s.rest)) rounds
      ∙ take-append (encode_all s.stored) s.rest in
    let within : b.size ≤ length b.file = omega (arith, total, len) in
    let tail : take (b.size - a.size) (drop a.size b.file) ≡ encode_all s.stored =
      ap (λ f. take (b.size - a.size) (drop a.size f)) s.contents
      ∙ ap (take (b.size - a.size))
          (drop-append_at a.size a.file (encode_all s.stored ++ s.rest) sz)
      ∙ taken in
    (
      s.stored,
      commit_rewrite-file io (append_tail true room a.size b).1 ok
          ∙ append_tail-draft room a.size b ((run-draft ops a).1 ∙ open_now) within
              (omega (arith, within, fits))
          ∙ ap (λ t. b.draft ++ t) tail
          ∙ ap (λ t. t ++ encode_all s.stored) ((run-draft ops a).0 ∙ draft)
          ∙ append_assoc aof_header (encode_all recs) (encode_all s.stored)
          ∙ ap (λ t. aof_header ++ t) (sym (encode_all-append recs s.stored)),
      s.acked_stored,
      s.stored_given,
    )
