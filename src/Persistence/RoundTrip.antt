-- ===== src/Persistence/RoundTrip.antt =====
-- src/core/persistence.cpp: what a restart makes of the records that `dump_state` writes for a room.
use somnium_db.Prelude.{
  ◌≡◌, ◌∙◌, refl, sym, ap, subst, Bool, true, false, Option, none, some, List, [], ◌∷◌, ◌++◌,
  append_assoc, append-nil, Bytes, bytes_Eq, bytes_eq, bytes_eq_iff, upper, toupper, arith,
  if◌then◌else◌, inl, inr, Bool-cases,
}
use somnium_db.Prelude.Int.{ℤ}
use somnium_db.Prelude.Map.{Map, IsMap, find}
use somnium_db.Record.{Record, expired}
use somnium_db.Aof.{AofRecord}
use somnium_db.State.{Session, Version}
use somnium_db.Persistence.{replay_command}
use somnium_db.Persistence.Dump.{set_record, del_record, emit, emit_keys, emit_tombs}
use somnium_db.Persistence.Dump.Simulates.{note}
use somnium_db.Persistence.Replayed.{
  AreNormal, replayed_set, replayed_del, replay-set_record, replayed_set-IsMap, replay-del_record,
  replayed_del-IsMap,
}

-- What a restart finds of a record: nothing, if it has expired.
abbrev pub alive : ℤ → Option Record → Option Record
alive now none = none
alive now (some r) = if expired r now then none else some r

-- The records are replayed in the room that they name.
abbrev pub replay_each : List AofRecord → Session → Session
replay_each [] s = s
replay_each (rec ∷ recs) s =
    replay_each recs
      (elim rec.args [ [] ↦ s | command ∷ rest ↦ (replay_command rec (upper command) s).1 ])

-- The records of a room's keys and of its tombstones.
abbrev sets : ℤ → Bytes → Map Bytes Record → List AofRecord
sets now room [] = []
sets now room ((key, r) ∷ keys) =
    let rest = sets now room keys in if expired r now then rest else set_record room key r ∷ rest

abbrev dels : Bytes → Map Bytes Version → List AofRecord
dels room [] = []
dels room ((key, v) ∷ keys) = del_record room key v ∷ dels room keys

emit_keys-sets :
    (now : ℤ) (room : Bytes) (keys : Map Bytes Record) (recs : List AofRecord)
    → emit_keys note now room keys (true, recs) ≡ (true, recs ++ sets now room keys)
unfolding emit_keys emit
emit_keys-sets now room [] recs = ap (λ t. (true, t)) (sym (append-nil recs))
emit_keys-sets now room ((key, r) ∷ keys) recs = elim (Bool-cases (expired r now)) [
  | inl old ↦ rw (emit_keys, emit, old) (emit_keys-sets now room keys recs)
  | inr live ↦
      rw (emit_keys, emit, live)
        (emit_keys-sets now room keys (recs ++ set_record room key r ∷ [])
          ∙ ap (λ t. (true, t)) (append_assoc recs _ _))
]

emit_tombs-dels :
    (room : Bytes) (tombs : Map Bytes Version) (recs : List AofRecord)
    → emit_tombs note room tombs (true, recs) ≡ (true, recs ++ dels room tombs)
unfolding emit_tombs
emit_tombs-dels room [] recs = ap (λ t. (true, t)) (sym (append-nil recs))
emit_tombs-dels room ((key, v) ∷ tombs) recs =
    emit_tombs-dels room tombs (recs ++ del_record room key v ∷ [])
    ∙ ap (λ t. (true, t)) (append_assoc recs _ _)

replay_each-append :
    (xs ys : List AofRecord) (s : Session)
    → replay_each (xs ++ ys) s ≡ replay_each ys (replay_each xs s)
replay_each-append [] ys s = refl
replay_each-append (x ∷ xs) ys s = replay_each-append xs ys _

replay_each-set :
    (room key : Bytes) (r : Record) (recs : List AofRecord) (s : Session)
    → replay_each (set_record room key r ∷ recs) s ≡ replay_each recs (replayed_set room key r s)
unfolding set_record upper toupper
replay_each-set room key r recs s = refl

replay_each-del :
    (room key : Bytes) (v : Version) (recs : List AofRecord) (s : Session)
    → replay_each (del_record room key v ∷ recs) s ≡ replay_each recs (replayed_del room key v s)
unfolding del_record upper toupper
replay_each-del room key v recs s = refl

-- `q`, or what was there before.
abbrev over : Option Record → Option Record → Option Record
over none before = before
over (some r) before = some r

over_old :
    (now : ℤ) (key j : Bytes) (r : Record) (keys : Map Bytes Record) (before : Option Record)
    → find key keys ≡ none
    → expired r now ≡ true
    → over (alive now (find j keys)) before ≡ over (alive now (find j ((key, r) ∷ keys))) before
unfolding find
over_old now key j r keys before new old = ground (arith, bytes_eq_iff key j)

over_live :
    (now : ℤ) (key j : Bytes) (r : Record) (keys : Map Bytes Record) (before : Option Record)
    → find key keys ≡ none
    → expired r now ≡ false
    → over (alive now (find j keys)) (if bytes_eq key j then some r else before)
      ≡ over (alive now (find j ((key, r) ∷ keys))) before
unfolding find
over_live now key j r keys before new live = ground (arith, bytes_eq_iff key j)

replay-sets :
    (now : ℤ) (room : Bytes) (keys : Map Bytes Record) (j : Bytes) (s : Session)
    → IsMap keys
    → AreNormal keys
    → IsMap s.room.keys
    → (find j (replay_each (sets now room keys) s).room.keys
        ≡ over (alive now (find j keys)) (find j s.room.keys))
      × IsMap (replay_each (sets now room keys) s).room.keys
unfolding find
replay-sets now room [] j s h n m = (refl, m)
replay-sets now room ((key, r) ∷ keys) j s (new, h) (nr, n) m = elim (Bool-cases (expired r now)) [
  | inl old ↦
      let (f, k) = replay-sets now room keys j s h n m in
      rw old (f ∙ over_old now key j r keys (find j s.room.keys) new old, k)
  | inr live ↦
      let t : Session = replayed_set room key r s in
      let (f, k) = replay-sets now room keys j t h n (replayed_set-IsMap room key r s m) in
      let same = replay_each-set room key r (sets now room keys) s in
      rw live (
        ap (λ (u : Session). find j u.room.keys) same
            ∙ f
            ∙ ap (over (alive now (find j keys))) (replay-set_record room key r j s nr)
            ∙ over_live now key j r keys (find j s.room.keys) new live,
        subst (λ (u : Session). IsMap u.room.keys) (sym same) k,
      )
]

over_nothing :
    (key : Bytes) (q : Option Record) (keys : Map Bytes Record)
    → keys ≡ []
    → over q (find key keys) ≡ q
unfolding find
over_nothing key none keys e = ap (find key) e
over_nothing key (some r) keys e = refl

-- Whether a tombstone stands, and what then is left.
abbrev pub unless_dead : Option Version → Option Record → Option Record
unless_dead none r = r
unless_dead (some v) r = none

dead_more :
    (key j : Bytes) (v : Version) (tombs : Map Bytes Version) (q : Option Record)
    → unless_dead (find j tombs) (if bytes_eq key j then none else q)
      ≡ unless_dead (find j ((key, v) ∷ tombs)) q
unfolding find
dead_more key j v tombs q = ground arith

replay-dels :
    (room : Bytes) (tombs : Map Bytes Version) (j : Bytes) (s : Session)
    → IsMap s.room.keys
    → find j (replay_each (dels room tombs) s).room.keys
      ≡ unless_dead (find j tombs) (find j s.room.keys)
unfolding find
replay-dels room [] j s m = refl
replay-dels room ((key, v) ∷ tombs) j s m =
    let same = replay_each-del room key v (dels room tombs) s in
    ap (λ (u : Session). find j u.room.keys) same
    ∙ replay-dels room tombs j (replayed_del room key v s) (replayed_del-IsMap room key v s m)
    ∙ ap (unless_dead (find j tombs)) (replay-del_record room key v j s m)
    ∙ dead_more key j v tombs (find j s.room.keys)

-- A room whose keys, a well-formed map, bear versions that `normalize` leaves as they are and nodes of 32
-- bits: its keys and then its tombstones are dumped, and each record in turn replayed into an empty room:
-- under every key stands the record that was dumped, whole, or none if it has expired or has a
-- tombstone.
pub replay-dumped :
    (now : ℤ) (name : Bytes) (keys : Map Bytes Record) (tombs : Map Bytes Version) (s : Session)
    (key : Bytes)
    → IsMap keys
    → AreNormal keys
    → s.room.keys ≡ []
    → find key
        (replay_each
          (emit_tombs note name tombs (emit_keys note now name keys (true, []))).1
          s).room.keys
      ≡ unless_dead (find key tombs) (alive now (find key keys))
replay-dumped now name keys tombs s key h n empty =
    let recs : (emit_tombs note name tombs (emit_keys note now name keys (true, []))).1
        ≡ sets now name keys ++ dels name tombs =
      ap (λ (m : Bool × List AofRecord). m.1)
        (ap (emit_tombs note name tombs) (emit_keys-sets now name keys [])
          ∙ emit_tombs-dels name tombs (sets now name keys)) in
    let t : Session = replay_each (sets now name keys) s in
    let (found, is_map) = replay-sets now name keys key s h n (rw empty tt) in
    ap (λ l. find key (replay_each l s).room.keys) recs
    ∙ ap (λ (u : Session). find key u.room.keys)
        (replay_each-append (sets now name keys) (dels name tombs) s)
    ∙ replay-dels name tombs key t is_map
    ∙ ap (unless_dead (find key tombs))
        (found ∙ over_nothing key (alive now (find key keys)) s.room.keys empty)
