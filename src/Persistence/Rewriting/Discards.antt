-- ===== src/Persistence/Rewriting/Discards.antt =====
-- src/core/persistence.cpp, `discard_active_snapshots`: it takes no record out of the state.
use somnium_db.Prelude.{
  ◌≡◌, ◌∙◌, refl, ap, subst, arith, bytes_eq, bytes_eq_iff, Bool, true, false, none, some, [], ◌∷◌,
  ◌++◌, Bytes, bytes_Eq, if◌then◌else◌, inl, inr, Bool-cases,
}
use somnium_db.Prelude.Int.{ℤ, ◌+ℤ◌}
use somnium_db.Prelude.Map.{Map, IsMap, find, erase, find-erase_ne}
use somnium_db.State.{World, Db, Room}
use somnium_db.Rooms.{is_sleeping}
use somnium_db.Persistence.Dump.Standing.{
  file_keys, live_records, held_keys, room_records, cold_records, all_tomb_records, standing,
}
use somnium_db.Persistence.Rewriting.{discard_active, discard_active_snapshots}

module _ (name : Bytes) where
  -- The file of a name that no room has stays.
  find-discard_absent :
      (rooms : Map Bytes Room) (files : Map Bytes Bytes)
      → find name rooms ≡ none
      → find name (discard_active rooms files) ≡ find name files
  unfolding discard_active find
  find-discard_absent [] files h = refl
  find-discard_absent ((j, room) ∷ rooms) files h =
      find-discard_absent rooms _ (ground arith) ∙ ground (arith, h, find-erase_ne j name files)

  -- The file of a room that sleeps stays.
  find-discard_asleep :
      (rooms : Map Bytes Room) (files : Map Bytes Bytes) (room : Room)
      → IsMap rooms
      → find name rooms ≡ some room
      → is_sleeping room.state ≡ true
      → find name (discard_active rooms files) ≡ find name files
  unfolding discard_active find
  find-discard_asleep [] files room m h asleep = ground arith
  find-discard_asleep ((j, q) ∷ rooms) files room m h asleep = elim (Bool-cases (bytes_eq j name)) [
    | inl here ↦
        let same : j ≡ name = (bytes_eq_iff j name).0 here in
        let it : q ≡ room = ground (arith, h, here) in
        let stays : (if is_sleeping q.state then files else erase j files) ≡ files =
          rw (it, asleep) refl in
        ap (λ f. find name (discard_active rooms f)) stays
        ∙ find-discard_absent rooms files (subst (λ k. find k rooms ≡ none) same m.0)
    | inr other ↦
        find-discard_asleep rooms _ room m.1 (ground (arith, h, other)) asleep
        ∙ either_way files (is_sleeping q.state) (find-erase_ne j name files other)
  ]
    where
      either_way :
          (files : Map Bytes Bytes) (b : Bool)
          → find name (erase j files) ≡ find name files
          → find name (if b then files else erase j files) ≡ find name files
      either_way files true e = refl
      either_way files false e = e

held_keys-discard :
    (name : Bytes) (all : Map Bytes Room) (files : Map Bytes Bytes) (room : Room)
    → IsMap all
    → find name all ≡ some room
    → held_keys (discard_active all files) name room ≡ held_keys files name room
unfolding held_keys
held_keys-discard name all files room m h = elim (Bool-cases (is_sleeping room.state)) [
  | inl asleep ↦ rw (asleep) (
      ap (λ f. elim f [ none ↦ [] | some file ↦ file_keys file ])
        (find-discard_asleep name all files room m h asleep))
  | inr awake ↦ rw (awake) refl
]

-- Every room of `rooms` stands in `all`.
abbrev In : Map Bytes Room → Map Bytes Room → Type 0
In rooms all =
    (name : Bytes) (room : Room) → find name rooms ≡ some room → find name all ≡ some room

room_records-discard :
    (now : ℤ) (files : Map Bytes Bytes) (all rooms : Map Bytes Room)
    → IsMap all
    → IsMap rooms
    → In rooms all
    → room_records now (discard_active all files) rooms ≡ room_records now files rooms
unfolding room_records find
room_records-discard now files all [] m k within = refl
room_records-discard now files all ((name, room) ∷ rooms) m k within =
    ap (λ keys. live_records now name keys ++ room_records now (discard_active all files) rooms)
      (held_keys-discard name all files room m (within name room head))
    ∙ ap (λ t. live_records now name (held_keys files name room) ++ t)
        (room_records-discard now files all rooms m k.1
          λ other r h. within other r (tail other r h))
  where
    head : find name ((name, room) ∷ rooms) ≡ some room
    head = ground (arith, bytes_eq_iff name name)

    tail :
        (other : Bytes) (r : Room)
        → find other rooms ≡ some r
        → find other ((name, room) ∷ rooms) ≡ some r
    tail other r h = elim (Bool-cases (bytes_eq name other)) [
      | inl same ↦
          let e = subst (λ n. find n rooms ≡ none) ((bytes_eq_iff name other).0 same) k.0 in
          absurd (ground (arith, e, h))
      | inr differ ↦ rw (differ) h
    ]

-- The files of awake rooms go, and the records of the state stay what they were.
pub standing-discard :
    (w : World) (db : Db)
    → IsMap db.rooms
    → standing w (discard_active_snapshots db) ≡ standing w db
unfolding standing discard_active_snapshots
standing-discard w db m =
    ap
      (λ recs.
        recs ++ (cold_records now db.cold.file db.cold.index ++ all_tomb_records db.tombstones))
      (room_records-discard now db.snapshots db.rooms db.rooms m m λ name room h. h)
  where
    now : ℤ
    now = w.wall db.calls +ℤ db.clock_offset_ms
