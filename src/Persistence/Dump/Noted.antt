-- ===== src/Persistence/Dump/Noted.antt =====
-- src/core/persistence.cpp: what the loops of `dump_state` note of keys, cold storage and tombstones.
use somnium_db.Prelude.{
  ℕ, ◌+◌, ◌≡◌, ◌∙◌, refl, sym, ap, arith, Bool, true, false, List, [], ◌∷◌, ◌++◌, append_assoc,
  append-nil, take, drop, Bytes, bytes_Eq, inl, inr, Bool-cases, Option-cases,
}
use somnium_db.Prelude.Int.{ℤ}
use somnium_db.Prelude.Map.{Map}
use somnium_db.Record.{Record, expired}
use somnium_db.Disk.{Disk, IsDisk}
use somnium_db.Cold.{ColdRef, decode}
use somnium_db.Aof.{AofRecord}
use somnium_db.State.{Version}
use somnium_db.Persistence.Dump.{
  set_record, del_record, emit, emit_keys, each_ref, for_each, emit_tombs, emit_all_tombs,
}
use somnium_db.Persistence.Dump.Simulates.{note}
use somnium_db.Persistence.Dump.Standing.{
  live_records, cold_keys, cold_records, tomb_records, all_tomb_records,
}

-- A `write` that only notes adds these records to what it has.
abbrev Noted : List AofRecord → List AofRecord → Bool × List AofRecord → Type 0
Noted recs more x = x ≡ (true, recs ++ more)

Noted-then :
    (recs more rest : List AofRecord) (f : Bool × List AofRecord → Bool × List AofRecord)
    (x : Bool × List AofRecord)
    → Noted recs more x
    → Noted (recs ++ more) rest (f (true, recs ++ more))
    → Noted recs (more ++ rest) (f x)
Noted-then recs more rest f x h k = ap f h ∙ k ∙ ap (λ t. (true, t)) (append_assoc recs more rest)

pub emit_keys-Noted :
    (now : ℤ) (room : Bytes) (keys : Map Bytes Record) (recs : List AofRecord)
    → Noted recs (live_records now room keys) (emit_keys note now room keys (true, recs))
unfolding emit_keys emit live_records
emit_keys-Noted now room [] recs = ap (λ t. (true, t)) (sym (append-nil recs))
emit_keys-Noted now room ((key, r) ∷ keys) recs = elim (Bool-cases (expired r now)) [
  | inl old ↦ rw (old) (emit_keys-Noted now room keys recs)
  | inr live ↦ rw (live) (
      emit_keys-Noted now room keys (recs ++ set_record room key r ∷ [])
      ∙ ap (λ t. (true, t)) (append_assoc recs (set_record room key r ∷ []) _))
]

emit_tombs-Noted :
    (room : Bytes) (keys : Map Bytes Version) (recs : List AofRecord)
    → Noted recs (tomb_records room keys) (emit_tombs note room keys (true, recs))
unfolding emit_tombs tomb_records
emit_tombs-Noted room [] recs = ap (λ t. (true, t)) (sym (append-nil recs))
emit_tombs-Noted room ((key, v) ∷ keys) recs =
    emit_tombs-Noted room keys (recs ++ del_record room key v ∷ [])
    ∙ ap (λ t. (true, t)) (append_assoc recs (del_record room key v ∷ []) _)

pub emit_all_tombs-Noted :
    (tombs : Map Bytes (Map Bytes Version)) (recs : List AofRecord)
    → Noted recs (all_tomb_records tombs) (emit_all_tombs note tombs (true, recs))
unfolding emit_all_tombs all_tomb_records
emit_all_tombs-Noted [] recs = ap (λ t. (true, t)) (sym (append-nil recs))
emit_all_tombs-Noted ((room, keys) ∷ rest) recs =
    Noted-then recs (tomb_records room keys) (all_tomb_records rest) (emit_all_tombs note rest) _
      (emit_tombs-Noted room keys recs) (emit_all_tombs-Noted rest (recs ++ tomb_records room keys))

emit-Noted :
    (now : ℤ) (room key : Bytes) (r : Record) (recs : List AofRecord)
    → Noted recs (live_records now room ((key, r) ∷ [])) (emit note now room key r (true, recs))
unfolding emit_keys
emit-Noted now room key r recs = emit_keys-Noted now room ((key, r) ∷ []) recs

live_records-cons :
    (now : ℤ) (room key : Bytes) (r : Record) (keys : Map Bytes Record)
    → live_records now room ((key, r) ∷ keys)
      ≡ live_records now room ((key, r) ∷ []) ++ live_records now room keys
unfolding live_records
live_records-cons now room key r keys = ground arith

module _ (disk : Disk) (reads : IsDisk disk) (now : ℤ) (file : Bytes) where
  each_ref-Noted :
      (room : Bytes) (refs : Map Bytes ColdRef) (n : ℕ) (recs : List AofRecord)
      → (each_ref note disk now file room refs (n, (true, recs))).0 ≡ true
      → Noted recs
          (live_records now room (cold_keys file refs))
          (each_ref note disk now file room refs (n, (true, recs))).1.1
  unfolding each_ref cold_keys emit_keys
  each_ref-Noted room [] n recs ok = emit_keys-Noted now room [] recs
  each_ref-Noted room ((key, ref) ∷ refs) n recs ok =
      elim (Option-cases (disk.pread_all n file ref.len ref.off)) [
        | inl bad ↦
            let e : (each_ref note disk now file room ((key, ref) ∷ refs) (n, (true, recs))).0
                ≡ false =
              rw (each_ref, bad) refl in
            absurd (cc (e, ok))
        | inr (raw, good) ↦
            let r : Record = decode (take ref.len (drop ref.off file)) in
            let one : List AofRecord = live_records now room ((key, r) ∷ []) in
            let emitted : Noted recs one (emit note now room key (decode raw) (true, recs)) =
              emit-Noted now room key (decode raw) recs
              ∙ ap (λ b. (true, recs ++ live_records now room ((key, decode b) ∷ [])))
                  (reads.reads n file raw ref.len ref.off good) in
            let first : each_ref note disk now file room ((key, ref) ∷ refs) (n, (true, recs))
                ≡ each_ref note disk now file room refs
                    (n + 1, emit note now room key (decode raw) (true, recs)) =
              rw (each_ref, good) refl in
            let e = first ∙ ap (λ x. each_ref note disk now file room refs (n + 1, x)) emitted in
            ap (λ (m : Bool × (ℕ × (Bool × List AofRecord))). m.1.1) e
            ∙ each_ref-Noted room refs (n + 1) (recs ++ one)
                (sym (ap (λ (m : Bool × (ℕ × (Bool × List AofRecord))). m.0) e) ∙ ok)
            ∙ ap (λ t. (true, t)) (append_assoc recs one _)
            ∙ ap (λ t. (true, recs ++ t))
                (sym (live_records-cons now room key r (cold_keys file refs)))
      ]

  pub for_each-Noted :
      (index : Map Bytes (Map Bytes ColdRef)) (n : ℕ) (recs : List AofRecord)
      → (for_each note disk now file index (n, (true, recs))).0 ≡ true
      → Noted recs
          (cold_records now file index)
          (for_each note disk now file index (n, (true, recs))).1.1
  unfolding for_each cold_records
  for_each-Noted [] n recs ok = ap (λ t. (true, t)) (sym (append-nil recs))
  for_each-Noted ((room, refs) ∷ index) n recs ok =
      elim (Bool-cases (each_ref note disk now file room refs (n, (true, recs))).0) [
        | inr bad ↦
            let e : (for_each note disk now file ((room, refs) ∷ index) (n, (true, recs))).0
                ≡ false =
              rw (for_each, bad) refl in
            absurd (cc (e, ok))
        | inl good ↦
            let out = each_ref note disk now file room refs (n, (true, recs)) in
            let part : List AofRecord = live_records now room (cold_keys file refs) in
            let first : for_each note disk now file ((room, refs) ∷ index) (n, (true, recs))
                ≡ for_each note disk now file index out.1 =
              rw (for_each, good) refl in
            let e =
              first
              ∙ ap (λ x. for_each note disk now file index (out.1.0, x))
                  (each_ref-Noted room refs n recs good) in
            ap (λ (m : Bool × (ℕ × (Bool × List AofRecord))). m.1.1) e
            ∙ for_each-Noted index out.1.0 (recs ++ part)
                (sym (ap (λ (m : Bool × (ℕ × (Bool × List AofRecord))). m.0) e) ∙ ok)
            ∙ ap (λ t. (true, t)) (append_assoc recs part _)
      ]
