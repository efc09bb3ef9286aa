-- ===== src/Persistence/Dump/Standing.antt =====
-- src/core/persistence.cpp: the records of the state, said without the loops of `dump_state`.
use somnium_db.Prelude.{none, some, List, [], ◌∷◌, ◌++◌, take, drop, Bytes, bytes_Eq, if◌then◌else◌}
use somnium_db.Prelude.Int.{ℤ, ◌+ℤ◌}
use somnium_db.Prelude.Map.{Map, find}
use somnium_db.Record.{Record, expired}
use somnium_db.Snapshot
use somnium_db.Cold.{ColdRef, decode}
use somnium_db.Aof.{AofRecord}
use somnium_db.State.{World, Db, Room, Version}
use somnium_db.Rooms.{is_sleeping}
use somnium_db.Persistence.Dump.{set_record, del_record}

-- The keys that have not expired.
unfoldable pub live_records : ℤ → Bytes → Map Bytes Record → List AofRecord
live_records now room [] = []
live_records now room ((key, r) ∷ keys) =
    let rest = live_records now room keys in
    if expired r now then rest else set_record room key r ∷ rest

-- The keys that a snapshot file holds.
abbrev pub file_keys : Bytes → Map Bytes Record
file_keys file = elim (Snapshot.decode file) [ none ↦ [] | some keys ↦ keys ]

-- A room's keys: in its snapshot file while it sleeps, and else in memory.
unfoldable pub held_keys : Map Bytes Bytes → Bytes → Room → Map Bytes Record
held_keys files name room =
    if is_sleeping room.state
    then elim (find name files) [ none ↦ [] | some file ↦ file_keys file ]
    else room.keys

unfoldable pub room_records : ℤ → Map Bytes Bytes → Map Bytes Room → List AofRecord
room_records now files [] = []
room_records now files ((name, room) ∷ rooms) =
    live_records now name (held_keys files name room) ++ room_records now files rooms

-- The records that cold storage holds for a room, read from its file.
unfoldable pub cold_keys : Bytes → Map Bytes ColdRef → Map Bytes Record
cold_keys file [] = []
cold_keys file ((key, ref) ∷ refs) =
    (key, decode (take ref.len (drop ref.off file))) ∷ cold_keys file refs

unfoldable pub cold_records : ℤ → Bytes → Map Bytes (Map Bytes ColdRef) → List AofRecord
cold_records now file [] = []
cold_records now file ((room, refs) ∷ index) =
    live_records now room (cold_keys file refs) ++ cold_records now file index

unfoldable pub tomb_records : Bytes → Map Bytes Version → List AofRecord
tomb_records room [] = []
tomb_records room ((key, v) ∷ keys) = del_record room key v ∷ tomb_records room keys

unfoldable pub all_tomb_records : Map Bytes (Map Bytes Version) → List AofRecord
all_tomb_records [] = []
all_tomb_records ((room, keys) ∷ rest) = tomb_records room keys ++ all_tomb_records rest

-- The records of the state: of every room's keys, of cold storage, and of the tombstones. A key is left
-- out if it has expired at the time of the dump.
unfoldable pub standing : World → Db → List AofRecord
standing w db =
    let now : ℤ = w.wall db.calls +ℤ db.clock_offset_ms in
    room_records now db.snapshots db.rooms
    ++ (cold_records now db.cold.file db.cold.index ++ all_tomb_records db.tombstones)
