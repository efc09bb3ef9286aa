-- ===== src/Aof/Recovery/Crash.antt =====
-- src/storage/aof_manager.cpp, `recover`: what a restart replays of the records that were appended.
use somnium_db.Prelude.{
  ℕ, ◌-◌, ◌≤◌, ◌≡◌, ◌∙◌, sym, subst, inl, inr, refl, ap, false, List, [], ◌∷◌, ◌++◌, append_assoc,
  append-nil, length, take, take-append_more, take_all, Bytes, arith, Bool-cases, ltb,
}
use somnium_db.Aof.{AofRecord, Aof, AppendIo, aof_header, encode_record}
use somnium_db.Aof.Append.{
  encode_all, encode_all-append, Within, Part, no_part, Part-take, Stored, run, acked, records,
  run-Stored,
}
use somnium_db.Aof.Recovery.{Log, Ending, recover_file}
use somnium_db.Aof.Recovery.Whole.{AllFit, AllFit-Within, recover_file-records}

pub AllFit-append : (xs ys : List AofRecord) → AllFit xs → AllFit ys → AllFit (xs ++ ys)
AllFit-append [] ys h hs = hs
AllFit-append (x ∷ xs) ys (h, h') hs = (h, AllFit-append xs ys h' hs)

AllFit-split : (xs ys : List AofRecord) → AllFit (xs ++ ys) → AllFit xs × AllFit ys
AllFit-split [] ys h = (tt, h)
AllFit-split (x ∷ xs) ys (h, hs) = ((h, (AllFit-split xs ys hs).0), (AllFit-split xs ys hs).1)

-- What `n` bytes of some records hold: the first ones whole, and a part of the next.
record Cut (n : ℕ) (recs : List AofRecord) : Type 0 where
  whole : List AofRecord
  lost : List AofRecord
  part : Bytes
  contents : take n (encode_all recs) ≡ encode_all whole ++ part
  split : recs ≡ whole ++ lost
  part_lost : Part lost part

Cut-records : (n : ℕ) (recs : List AofRecord) → Cut n recs
Cut-records n [] = record {
  whole = [];
  lost = [];
  part = [];
  contents = take_all n [] (omega arith);
  split = refl;
  part_lost = no_part;
}
Cut-records n (rec ∷ recs) = elim (Bool-cases (ltb n (length (encode_record rec)))) [
  | inl short ↦ record {
    whole = [];
    lost = rec ∷ recs;
    part = take n (encode_record rec);
    contents =
        take-append_more n (encode_record rec) (encode_all recs)
        ∙ (let z : n - length (encode_record rec) ≡ 0 = ground arith in
            rw z (append-nil (take n (encode_record rec))));
    split = refl;
    part_lost = Part-take rec recs n (ground arith);
  }
  | inr long ↦
      let c : Cut (n - length (encode_record rec)) recs =
        Cut-records (n - length (encode_record rec)) recs in
      record {
        whole = rec ∷ c.whole;
        lost = c.lost;
        part = c.part;
        contents =
            take-append_more n (encode_record rec) (encode_all recs)
            ∙ ap (λ t. t ++ take (n - length (encode_record rec)) (encode_all recs))
                (take_all n (encode_record rec) (ground arith))
            ∙ ap (λ t. encode_record rec ++ t) c.contents
            ∙ sym (append_assoc (encode_record rec) (encode_all c.whole) c.part);
        split = ap (λ t. rec ∷ t) c.split;
        part_lost = c.part_lost;
      }
]

module _ (header before after : Bytes) where
  take_behind :
      (n : ℕ)
      → length (header ++ before) ≤ n
      → take n (header ++ (before ++ after))
        ≡ header ++ (before ++ take (n - length (header ++ before)) after)
  take_behind n h =
      ap (take n) (sym (append_assoc header before after))
      ∙ take-append_more n (header ++ before) after
      ∙ ap (λ t. t ++ take (n - length (header ++ before)) after) (take_all n (header ++ before) h)
      ∙ append_assoc header before (take (n - length (header ++ before)) after)

  append_behind :
      (file rest contents : Bytes)
      → file ≡ header ++ before
      → contents ≡ file ++ (after ++ rest)
      → contents ≡ header ++ ((before ++ after) ++ rest)
  append_behind file rest contents f c = c ∙ ap (λ t. t ++ (after ++ rest)) f ∙ simp append_assoc

-- A crash keeps some bytes of a file whose records are within the parser's limits, at least the header
-- and the records `synced`: the restart
-- replays these, then the first of the others as far as they were kept whole, and asks for no
-- rewrite.
pub recover_file-crash :
    (synced others : List AofRecord) (n : ℕ)
    → AllFit synced
    → AllFit others
    → length (aof_header ++ encode_all synced) ≤ n
    → (more lost : List AofRecord) × (others ≡ more ++ lost)
      × ((recover_file (take n (aof_header ++ encode_all (synced ++ others)))).0.replayed
          ≡ synced ++ more)
      × ((recover_file (take n (aof_header ++ encode_all (synced ++ others)))).0.needs_rewrite
          ≡ false)
recover_file-crash synced others n h hs at_least =
    let c : Cut (n - length (aof_header ++ encode_all synced)) others = Cut-records _ others in
    let shape : take n (aof_header ++ encode_all (synced ++ others))
        ≡ aof_header ++ (encode_all (synced ++ c.whole) ++ c.part) =
      ap (λ t. take n (aof_header ++ t)) (encode_all-append synced others)
      ∙ take_behind aof_header (encode_all synced) (encode_all others) n at_least
      ∙ ap (λ t. aof_header ++ (encode_all synced ++ t)) c.contents
      ∙ ap (λ t. aof_header ++ t)
          (sym (append_assoc (encode_all synced) (encode_all c.whole) c.part))
      ∙ ap (λ t. aof_header ++ (t ++ c.part)) (sym (encode_all-append synced c.whole)) in
    let both : AllFit c.whole × AllFit c.lost =
      AllFit-split c.whole c.lost (subst AllFit c.split hs) in
    let outcome =
      ap recover_file shape
      ∙ recover_file-records (synced ++ c.whole) c.lost c.part
          (AllFit-append synced c.whole h both.0) both.1 c.part_lost in
    (
      c.whole,
      c.lost,
      c.split,
      ap (λ (o : Log × Ending). o.0.replayed) outcome,
      ap (λ (o : Log × Ending). o.0.needs_rewrite) outcome,
    )

-- A log that was whole and is not torn is appended to, whatever fails on the way, all its records and
-- those appended being within the parser's limits (in tokens, and in bytes of each), and the program is started again:
-- the records before are replayed, then, in order, those that a run of appends has stored, among
-- them each one whose append returned true.
pub recover_file-run :
    (before : List AofRecord) (ops : List (AppendIo × AofRecord)) (a : Aof)
    → a.file ≡ aof_header ++ encode_all before
    → a.torn ≡ false
    → AllFit before
    → AllFit (records ops)
    → (stored : List AofRecord) × ((recover_file (run ops a).file).0.replayed ≡ before ++ stored)
      × Within (acked ops a) stored
      × Within stored (records ops)
recover_file-run before ops a f t h hs =
    let s : Stored ops a = run-Stored ops a t in
    let shape : (run ops a).file ≡ aof_header ++ (encode_all (before ++ s.stored) ++ s.rest) =
      append_behind aof_header (encode_all before) (encode_all s.stored) a.file s.rest
        (run ops a).file f s.contents
      ∙ ap (λ t. aof_header ++ (t ++ s.rest)) (sym (encode_all-append before s.stored)) in
    (
      s.stored,
      ap (λ file. (recover_file file).0.replayed) shape
          ∙ ap (λ (o : Log × Ending). o.0.replayed)
              (recover_file-records (before ++ s.stored) (records ops) s.rest
                (AllFit-append before s.stored h (AllFit-Within s.stored_given hs)) hs s.rest_part),
      s.acked_stored,
      s.stored_given,
    )
