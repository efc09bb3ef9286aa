-- ===== src/Persistence/Dump/Whole.antt =====
-- src/core/persistence.cpp: a dump that works has written the records of the state.
use somnium_db.Prelude.{
  ℕ, ◌+◌, ◌≡◌, ◌∙◌, refl, sym, ap, subst, arith, Bool, true, false, ◌&&◌, Option, some, List, [],
  ◌∷◌, ◌++◌, append_assoc, append-nil, Bytes, bytes_Eq, if◌then◌else◌, inl, inr, Bool-cases,
  Option-cases,
}
use somnium_db.Prelude.Int.{ℤ, ◌+ℤ◌}
use somnium_db.Prelude.Map.{Map, find}
use somnium_db.Record.{Record}
use somnium_db.Disk.{IsDisk}
use somnium_db.Cold.{Cold}
use somnium_db.Aof.{AofRecord}
use somnium_db.State.{World, Db, Room, Version}
use somnium_db.Rooms.{is_sleeping}
use somnium_db.Persistence.Dump.{
  emit_keys, for_each, emit_tombs, emit_all_tombs, read_snapshot, dumped_keys, dump_rooms,
  dump_rest, dump_state,
}
use somnium_db.Persistence.Dump.Simulates.{note, dumped, dump_state-noted, dump_state-simulates}
use somnium_db.Persistence.Dump.Noted.{emit_keys-Noted, emit_all_tombs-Noted, for_each-Noted}
use somnium_db.Persistence.Dump.Standing.{
  live_records, file_keys, held_keys, room_records, cold_records, all_tomb_records, standing,
}

-- What the dump of the rooms leaves alone, on its way to cold storage and the tombstones.
Same : Db → Db → Type 0
Same db d = (d.snapshots ≡ db.snapshots) × (d.cold ≡ db.cold) × (d.tombstones ≡ db.tombstones)

read_snapshot-held :
    (w : World) (name file : Bytes) (db : Db) (found : Map Bytes Record)
    → (read_snapshot w name file db).0 ≡ some found
    → (found ≡ file_keys file) × Same db (read_snapshot w name file db).1
unfolding read_snapshot Same
read_snapshot-held w name file db found h = ground (arith, h)

dumped_keys-held :
    (w : World) (name : Bytes) (room : Room) (db : Db) (found : Map Bytes Record)
    → (dumped_keys w name room db).0 ≡ some found
    → (found ≡ held_keys db.snapshots name room) × Same db (dumped_keys w name room db).1
unfolding dumped_keys held_keys Same
dumped_keys-held w name room db found h = elim (Bool-cases (is_sleeping room.state)) [
  | inr awake ↦ ground (arith, h, awake)
  | inl asleep ↦ elim (Option-cases (find name db.snapshots)) [
    | inl absent ↦ ground (arith, h, asleep, absent)
    | inr (file, there) ↦
        let e : dumped_keys w name room db ≡ read_snapshot w name file db =
          rw (dumped_keys, asleep, there) refl in
        let (value, same) =
          read_snapshot-held w name file db found
            (sym (ap (λ (m : Option (Map Bytes Record) × Db). m.0) e) ∙ h) in
        (rw (asleep, there) value, rw e same)
  ]
]

abbrev RoomsNoted : ℤ → Map Bytes Room → Db → List AofRecord → Bool × (Db × List AofRecord) → Type 0
RoomsNoted now rooms db recs out =
    (out.1.1 ≡ recs ++ room_records now db.snapshots rooms) × Same db out.1.0

dump_rooms-Noted :
    (w : World) (now : ℤ) (rooms : Map Bytes Room) (db : Db) (recs : List AofRecord)
    → (dump_rooms note w now rooms (db, recs)).0 ≡ true
    → RoomsNoted now rooms db recs (dump_rooms note w now rooms (db, recs))
unfolding dump_rooms room_records Same
dump_rooms-Noted w now [] db recs ok = (sym (append-nil recs), (refl, refl, refl))
dump_rooms-Noted w now ((name, room) ∷ rooms) db recs ok =
    elim (Option-cases (dumped_keys w name room db).0) [
      | inl bad ↦
          let e : (dump_rooms note w now ((name, room) ∷ rooms) (db, recs)).0 ≡ false =
            rw (dump_rooms, bad) refl in
          absurd (cc (e, ok))
      | inr (found, good) ↦
          let d : Db = (dumped_keys w name room db).1 in
          let (held, (files, cold, tombs)) = dumped_keys-held w name room db found good in
          let part : List AofRecord = live_records now name found in
          let go : Bool × List AofRecord → Bool × (Db × List AofRecord) =
            λ x. if x.0 then dump_rooms note w now rooms (d, x.1) else (false, (d, x.1)) in
          let first : dump_rooms note w now ((name, room) ∷ rooms) (db, recs)
              ≡ go (emit_keys note now name found (true, recs)) =
            rw (dump_rooms, good) refl in
          let e = first ∙ ap go (emit_keys-Noted now name found recs) in
          let (rest, (files', cold', tombs')) =
            dump_rooms-Noted w now rooms d (recs ++ part)
              (sym (ap (λ (m : Bool × (Db × List AofRecord)). m.0) e) ∙ ok) in
          (
            ap (λ (m : Bool × (Db × List AofRecord)). m.1.1) e
                ∙ rest
                ∙ append_assoc recs part _
                ∙ ap (λ k. recs ++ (live_records now name k ++ room_records now d.snapshots rooms))
                    held
                ∙ ap
                    (λ f.
                      recs
                      ++ (live_records now name (held_keys db.snapshots name room)
                          ++ room_records now f rooms))
                    files,
            (
              ap (λ (m : Bool × (Db × List AofRecord)). m.1.0.snapshots) e ∙ files' ∙ files,
              ap (λ (m : Bool × (Db × List AofRecord)). m.1.0.cold) e ∙ cold' ∙ cold,
              ap (λ (m : Bool × (Db × List AofRecord)). m.1.0.tombstones) e ∙ tombs' ∙ tombs,
            ),
          )
    ]

emit_tombs-failed :
    (room : Bytes) (keys : Map Bytes Version) (recs : List AofRecord)
    → emit_tombs note room keys (false, recs) ≡ (false, recs)
unfolding emit_tombs
emit_tombs-failed room [] recs = refl
emit_tombs-failed room ((key, v) ∷ keys) recs = emit_tombs-failed room keys recs

emit_all_tombs-failed :
    (tombs : Map Bytes (Map Bytes Version)) (recs : List AofRecord)
    → emit_all_tombs note tombs (false, recs) ≡ (false, recs)
unfolding emit_all_tombs
emit_all_tombs-failed [] recs = refl
emit_all_tombs-failed ((room, keys) ∷ rest) recs =
    ap (emit_all_tombs note rest) (emit_tombs-failed room keys recs)
    ∙ emit_all_tombs-failed rest recs

dump_rest-Noted :
    (w : World) (reads : IsDisk w.disk) (now : ℤ) (db : Db) (recs : List AofRecord)
    → (dump_rest note w now (db, recs)).0 ≡ true
    → (dump_rest note w now (db, recs)).1.1
      ≡ recs ++ (cold_records now db.cold.file db.cold.index ++ all_tomb_records db.tombstones)
unfolding dump_rest
dump_rest-Noted w reads now db recs ok = elim (Bool-cases read.0) [
  | inr bad ↦
      let e : (close read.0 read.1.1).0 ≡ false =
        ap (λ b. (close b read.1.1).0) bad
        ∙ ap (λ (x : Bool × List AofRecord). x.0)
            (emit_all_tombs-failed db.tombstones read.1.1.1) in
      absurd (cc (e, ok))
  | inl good ↦
      ap (λ b. (close b read.1.1).1) good
      ∙ ap (λ x. (close true x).1)
          (for_each-Noted w.disk reads now db.cold.file db.cold.index db.calls recs good)
      ∙ ap (λ (x : Bool × List AofRecord). x.1)
          (emit_all_tombs-Noted db.tombstones (recs ++ cold_records now db.cold.file db.cold.index))
      ∙ append_assoc recs _ _
]
  where
    read : Bool × (ℕ × (Bool × List AofRecord))
    read = for_each note w.disk now db.cold.file db.cold.index (db.calls, (true, recs))

    close : Bool → Bool × List AofRecord → Bool × List AofRecord
    close b x = emit_all_tombs note db.tombstones (b && x.0, x.1)

-- A dump that works, onto a list, has written the records of the state.
dumped-standing :
    (w : World) (db : Db)
    → IsDisk w.disk
    → (dump_state note w (db, [])).0 ≡ true
    → dumped w db ≡ standing w db
unfolding dump_state dumped standing Same
dumped-standing w db reads ok = elim (Bool-cases rooms.0) [
  | inr bad ↦
      let e : (dump_state note w (db, [])).0 ≡ false = rw (dump_state, bad) refl in
      absurd (cc (e, ok))
  | inl good ↦
      let e : dump_state note w (db, []) ≡ dump_rest note w now rooms.1 =
        rw (dump_state, good) refl in
      let (noted, (files, cold, tombs)) =
        dump_rooms-Noted w now db.rooms (record db { calls = db.calls + 1 }) [] good in
      ap (λ (m : Bool × (Db × List AofRecord)). m.1.1) e
      ∙ dump_rest-Noted w reads now rooms.1.0 rooms.1.1
          (sym (ap (λ (m : Bool × (Db × List AofRecord)). m.0) e) ∙ ok)
      ∙ ap
          (λ recs.
            recs
            ++ (cold_records now rooms.1.0.cold.file rooms.1.0.cold.index
                ++ all_tomb_records rooms.1.0.tombstones))
          noted
      ∙ ap
          (λ (c : Cold).
            room_records now db.snapshots db.rooms
            ++ (cold_records now c.file c.index ++ all_tomb_records rooms.1.0.tombstones))
          cold
      ∙ ap
          (λ t.
            room_records now db.snapshots db.rooms
            ++ (cold_records now db.cold.file db.cold.index ++ all_tomb_records t))
          tombs
]
  where
    now : ℤ
    now = w.wall db.calls +ℤ db.clock_offset_ms

    rooms : Bool × (Db × List AofRecord)
    rooms = dump_rooms note w now db.rooms (record db { calls = db.calls + 1 }, [])

-- Where a dump works, whatever it writes to, what it has written is tied to the records of the state.
pub dump_state-standing :
    {A : Type 0} (write : AofRecord → A → Bool × A) (R : List AofRecord → A → Type 0)
    → ((rec : AofRecord) (recs : List AofRecord) (a : A)
        → R recs a
        → (write rec a).0 ≡ true
        → R (recs ++ rec ∷ []) (write rec a).1)
    → (w : World) (db : Db) (a : A) → IsDisk w.disk
    → R [] a
    → (dump_state write w (db, a)).0 ≡ true
    → R (standing w db) (dump_state write w (db, a)).1.1
dump_state-standing write R keeps w db a reads r ok =
    subst (λ recs. R recs (dump_state write w (db, a)).1.1)
      (dumped-standing w db reads (dump_state-noted write R keeps w db a r ok))
      (dump_state-simulates write R keeps w db a r ok)
