-- ===== src/Aof/Append.antt =====
-- src/storage/aof_manager.cpp, `append`: what the file holds after writes that may fail.
use somnium_db.Prelude.{
  ℕ, ◌+◌, ◌%◌, length-append, ◌<◌, length, drop_some, take-drop, ◌≡◌, ◌⊎◌, inl, inr, refl, Bool,
  true, false, List, [], ◌∷◌, ◌++◌, append_assoc, append-nil, take, Bytes, arith, sym, ap, ◌∙◌,
  if◌then◌else◌,
}
use somnium_db.Prelude.Int.{w64}
use somnium_db.Aof.{AofRecord, Aof, AppendIo, append, encode_record}

-- What one append may leave: the file as it was, the record whole at its end, or a torn file that
-- ends in a part of the record.
append_outcome :
    (io : AppendIo) (rec : AofRecord) (b : Aof)
    → b.torn ≡ false
    → (((append io rec b).1.file ≡ b.file)
        × ((append io rec b).1.torn ≡ false)
        × ((append io rec b).0 ≡ false)
        × ((append io rec b).1.size ≡ b.size))
      ⊎ (((append io rec b).1.file ≡ b.file ++ encode_record rec)
          × ((append io rec b).1.torn ≡ false)
          × ((append io rec b).1.size ≡ (b.size + length (encode_record rec)) % w64))
      ⊎ (((append io rec b).1.file ≡ b.file ++ take io.written (encode_record rec))
          × ((append io rec b).1.torn ≡ true)
          × ((append io rec b).0 ≡ false)
          × (io.written < length (encode_record rec))
          × ((append io rec b).1.size ≡ b.size))
unfolding append
append_outcome io rec b h = ground arith

append_torn :
    (io : AppendIo) (rec : AofRecord) (a : Aof) → a.torn ≡ true → append io rec a ≡ (false, a)
unfolding append
append_torn io rec a h = ground arith

-- What a rewrite has written so far is left alone.
pub append-draft :
    (io : AppendIo) (rec : AofRecord) (a : Aof)
    → ((append io rec a).1.draft ≡ a.draft) × ((append io rec a).1.rewrite_open ≡ a.rewrite_open)
unfolding append
append-draft io rec a = ground arith

pub append-size :
    (io : AppendIo) (rec : AofRecord) (a : Aof) → a.size < w64 → (append io rec a).1.size < w64
unfolding append
append-size io rec a h = ground arith

-- A run of appends, and the records whose append returned true.
abbrev pub run : List (AppendIo × AofRecord) → Aof → Aof
run [] a = a
run ((io, rec) ∷ ops) a = run ops (append io rec a).1

abbrev pub acked : List (AppendIo × AofRecord) → Aof → List AofRecord
acked [] a = []
acked ((io, rec) ∷ ops) a =
    let rest = acked ops (append io rec a).1 in if (append io rec a).0 then rec ∷ rest else rest

abbrev pub records : List (AppendIo × AofRecord) → List AofRecord
records [] = []
records ((io, rec) ∷ ops) = rec ∷ records ops

abbrev pub encode_all : List AofRecord → Bytes
encode_all [] = []
encode_all (rec ∷ recs) = encode_record rec ++ encode_all recs

pub encode_all-append :
    (xs ys : List AofRecord) → encode_all (xs ++ ys) ≡ encode_all xs ++ encode_all ys
encode_all-append [] ys = refl
encode_all-append (x ∷ xs) ys =
    ap (λ t. encode_record x ++ t) (encode_all-append xs ys)
    ∙ sym (append_assoc (encode_record x) (encode_all xs) (encode_all ys))

-- `xs` is `ys` with some elements left out.
pub data Within {ℓ} {A : Type ℓ} : List A → List A → Type ℓ where
  none_left : Within [] []
  kept : {x : A} {xs ys : List A} → Within xs ys → Within (x ∷ xs) (x ∷ ys)
  left_out : {y : A} {xs ys : List A} → Within xs ys → Within xs (y ∷ ys)

Within-nil {ℓ} : {A : Type ℓ} (xs : List A) → Within [] xs
Within-nil [] = none_left
Within-nil (x ∷ xs) = left_out (Within-nil xs)

-- The bytes that a broken write leaves: none, or a part of a record that lacks its last byte.
pub data Part (recs : List AofRecord) : Bytes → Type 0 where
  no_part : Part recs []
  part_of :
      {part : Bytes} (rec : AofRecord) (missing : Bytes) (c : ℕ)
      → Within (rec ∷ []) recs
      → encode_record rec ≡ part ++ c ∷ missing
      → Part recs part

Part-more :
    {recs : List AofRecord} {rest : Bytes} (rec : AofRecord)
    → Part recs rest
    → Part (rec ∷ recs) rest
Part-more rec no_part = no_part
Part-more rec (part_of broken missing c w e) = part_of broken missing c (left_out w) e

pub Part-take :
    (rec : AofRecord) (recs : List AofRecord) (n : ℕ)
    → n < length (encode_record rec)
    → Part (rec ∷ recs) (take n (encode_record rec))
Part-take rec recs n h =
    let (c, missing, e) = drop_some n (encode_record rec) h in
    part_of rec missing c (kept (Within-nil recs))
      (sym (take-drop n (encode_record rec)) ∙ ap (λ t. take n (encode_record rec) ++ t) e)

-- The file after a run: the bytes before it, the records `stored` whole, and `rest`, which is empty
-- unless the file is torn.
pub record Stored (ops : List (AppendIo × AofRecord)) (a : Aof) : Type 0 where
  pub stored : List AofRecord
  pub rest : Bytes
  pub contents : (run ops a).file ≡ a.file ++ (encode_all stored ++ rest)
  pub untorn : (run ops a).torn ≡ true ⊎ rest ≡ []
  pub sized : (run ops a).size % w64 ≡ (a.size + length (encode_all stored)) % w64
  pub rest_part : Part (records ops) rest
  pub acked_stored : Within (acked ops a) stored
  pub stored_given : Within stored (records ops)

torn_stays :
    (ops : List (AppendIo × AofRecord)) (a : Aof)
    → a.torn ≡ true
    → (run ops a ≡ a) × (acked ops a ≡ [])
torn_stays [] a h = (refl, refl)
torn_stays ((io, rec) ∷ ops) a h = rw (append_torn io rec a h) (torn_stays ops a h)

Within-if {ℓ} :
    {A : Type ℓ} (b : Bool) (x : A) (xs ys : List A)
    → Within xs ys
    → Within (if b then x ∷ xs else xs) (x ∷ ys)
Within-if true x xs ys h = kept h
Within-if false x xs ys h = left_out h

module _ (io : AppendIo) (rec : AofRecord) (ops : List (AppendIo × AofRecord)) (a : Aof) where
  Stored-untouched :
      (append io rec a).1.file ≡ a.file
      → (append io rec a).0 ≡ false
      → (append io rec a).1.size ≡ a.size
      → Stored ops (append io rec a).1
      → Stored ((io, rec) ∷ ops) a
  Stored-untouched same no_ack size s = record {
    stored = s.stored;
    rest = s.rest;
    contents = s.contents ∙ ap (λ f. f ++ (encode_all s.stored ++ s.rest)) same;
    untorn = s.untorn;
    sized = s.sized ∙ ap (λ n. (n + length (encode_all s.stored)) % w64) size;
    rest_part = Part-more rec s.rest_part;
    acked_stored = rw no_ack s.acked_stored;
    stored_given = left_out s.stored_given;
  }

  Stored-whole :
      (append io rec a).1.file ≡ a.file ++ encode_record rec
      → (append io rec a).1.size ≡ (a.size + length (encode_record rec)) % w64
      → Stored ops (append io rec a).1
      → Stored ((io, rec) ∷ ops) a
  Stored-whole more size s = record {
    stored = rec ∷ s.stored;
    rest = s.rest;
    contents = s.contents ∙ ap (λ f. f ++ (encode_all s.stored ++ s.rest)) more ∙ simp append_assoc;
    untorn = s.untorn;
    sized = s.sized ∙ omega (arith, size, length-append (encode_record rec) (encode_all s.stored));
    rest_part = Part-more rec s.rest_part;
    acked_stored = Within-if (append io rec a).0 rec _ _ s.acked_stored;
    stored_given = kept s.stored_given;
  }

  Stored-broken :
      (append io rec a).1.file ≡ a.file ++ take io.written (encode_record rec)
      → (append io rec a).1.torn ≡ true
      → (append io rec a).0 ≡ false
      → io.written < length (encode_record rec)
      → (append io rec a).1.size ≡ a.size
      → Stored ((io, rec) ∷ ops) a
  Stored-broken part torn no_ack short size =
      let (stays, none_acked) = torn_stays ops (append io rec a).1 torn in
      record {
        stored = [];
        rest = take io.written (encode_record rec);
        contents = ap (λ (b : Aof). b.file) stays ∙ part;
        sized = omega (arith, ap (λ (b : Aof). b.size) stays, size);
        rest_part = Part-take rec (records ops) io.written short;
        untorn = inl (ap (λ (b : Aof). b.torn) stays ∙ torn);
        acked_stored = rw (no_ack, none_acked) none_left;
        stored_given = Within-nil _;
      }

-- From an untorn file, whatever fails on the way: the file after a run of appends is what it was,
-- then whole records, then bytes of which there are none unless it is torn. Every record whose
-- append returned true is among the stored ones, and these are among the given ones, in order.
pub run-Stored : (ops : List (AppendIo × AofRecord)) (a : Aof) → a.torn ≡ false → Stored ops a
run-Stored [] a h = record {
  stored = [];
  rest = [];
  contents = sym (append-nil a.file);
  untorn = inr refl;
  sized = omega arith;
  rest_part = no_part;
  acked_stored = none_left;
  stored_given = none_left;
}
run-Stored ((io, rec) ∷ ops) a h = elim (append_outcome io rec a h) [
  | inl u ↦ Stored-untouched io rec ops a u.0 u.2 u.3 (run-Stored ops (append io rec a).1 u.1)
  | inr (inl w) ↦ Stored-whole io rec ops a w.0 w.2 (run-Stored ops (append io rec a).1 w.1)
  | inr (inr t) ↦ Stored-broken io rec ops a t.0 t.1 t.2 t.3 t.4
]
