-- ===== src/Persistence/Dump.antt =====
-- src/core/persistence.cpp, `dump_state`, with `EvictionManager::for_each` and what it reads of the
-- snapshots: the records of the whole state. `A` is what `write` changes.
pub mod Simulates
pub mod Standing
pub mod Noted
pub mod Whole
use somnium_db.Prelude.{
  ℕ, ◌+◌, Bool, true, false, not, ◌&&◌, Option, none, some, List, [], ◌∷◌, length, Bytes, bytes_Eq,
  codes, if◌then◌else◌,
}
use somnium_db.Prelude.Int.{ℤ, pos, ◌+ℤ◌}
use somnium_db.Prelude.Map.{Map, find, erase}
use somnium_db.Record.{Record, expired}
use somnium_db.Snapshot
use somnium_db.Disk.{Disk}
use somnium_db.Cold.{ColdRef, Cold, decode}
use somnium_db.Aof.{AofRecord}
use somnium_db.State.{World, Db, Room, Version}
use somnium_db.Rooms.{is_sleeping}

-- The record that `emit` writes.
unfoldable pub set_record : Bytes → Bytes → Record → AofRecord
set_record room key r = record {
  room = room;
  args = codes "SET" ∷ key ∷ r.value ∷ [];
  expire_at = r.expire_at;
  timestamp_ms = r.timestamp_ms;
  node_id = r.node_id;
}

-- A tombstone's.
unfoldable pub del_record : Bytes → Bytes → Version → AofRecord
del_record room key v = record {
  room = room;
  args = codes "DEL" ∷ key ∷ [];
  expire_at = pos 0;
  timestamp_ms = v.ts;
  node_id = v.node;
}

module _ {A : Type 0} (write : AofRecord → A → Bool × A) where
  -- The lambda `emit`; the pair is `ok` and what was written.
  unfoldable pub emit : ℤ → Bytes → Bytes → Record → Bool × A → Bool × A
  unfolding set_record
  emit now room key r (ok, a) =
      if ok && not (expired r now) then write (set_record room key r) a else (ok, a)

  unfoldable pub emit_keys : ℤ → Bytes → Map Bytes Record → Bool × A → Bool × A
  unfolding emit
  emit_keys now room [] out = out
  emit_keys now room ((key, r) ∷ keys) out = emit_keys now room keys (emit now room key r out)

  -- `for_each(emit)`; the first part of the result is its own, `n` counts the calls of the disk.
  unfoldable pub each_ref :
      Disk → ℤ → Bytes → Bytes → Map Bytes ColdRef → ℕ × (Bool × A) → Bool × (ℕ × (Bool × A))
  unfolding emit
  each_ref disk now file room [] out = (true, out)
  each_ref disk now file room ((key, ref) ∷ refs) (n, out) =
      elim (disk.pread_all n file ref.len ref.off) [
        | none ↦ (false, (n + 1, out))
        | some raw ↦ each_ref disk now file room refs (n + 1, emit now room key (decode raw) out)
      ]

  unfoldable pub for_each :
      Disk → ℤ → Bytes → Map Bytes (Map Bytes ColdRef) → ℕ × (Bool × A) → Bool × (ℕ × (Bool × A))
  unfolding each_ref
  for_each disk now file [] out = (true, out)
  for_each disk now file ((room, refs) ∷ index) out =
      let (ok, next) = each_ref disk now file room refs out in
      let rest = for_each disk now file index next in if ok then rest else (false, next)

  unfoldable pub emit_tombs : Bytes → Map Bytes Version → Bool × A → Bool × A
  emit_tombs room [] out = out
  emit_tombs room ((key, v) ∷ keys) (ok, a) =
      emit_tombs room keys (if ok then write (del_record room key v) a else (ok, a))

  unfoldable pub emit_all_tombs : Map Bytes (Map Bytes Version) → Bool × A → Bool × A
  unfolding emit_tombs
  emit_all_tombs [] out = out
  emit_all_tombs ((room, keys) ∷ rest) out = emit_all_tombs rest (emit_tombs room keys out)

-- `wakeup_room` on a room of its own: the keys, or `none` if the file cannot be read; a corrupt one is
-- moved aside.
unfoldable pub read_snapshot : World → Bytes → Bytes → Db → Option (Map Bytes Record) × Db
read_snapshot w name file db =
    let called : Db = record db { calls = db.calls + 1 } in
    if not (w.read_ok db.calls) then (none, called) else elim (Snapshot.decode file) [
      | some keys ↦ (some keys, called)
      | none ↦ (
        none,
        if w.rename_ok called.calls
            then record called { snapshots = erase name called.snapshots }
            else called,
      )
    ]

-- The keys of a room that is dumped: those of its snapshot while it sleeps.
unfoldable pub dumped_keys : World → Bytes → Room → Db → Option (Map Bytes Record) × Db
unfolding read_snapshot
dumped_keys w name room db =
    if is_sleeping room.state
    then elim (find name db.snapshots) [
      | none ↦ (some [], db)
      | some file ↦ read_snapshot w name file db
    ]
    else (some room.keys, db)

module _ {A : Type 0} (write : AofRecord → A → Bool × A) where
  -- The first loop; an unreadable snapshot ends it.
  unfoldable pub dump_rooms : World → ℤ → Map Bytes Room → Db × A → Bool × (Db × A)
  unfolding dumped_keys emit_keys
  dump_rooms w now [] out = (true, out)
  dump_rooms w now ((name, room) ∷ rooms) (db, a) =
      let (keys, db') = dumped_keys w name room db in
      elim keys [
        | none ↦ (false, (db', a))
        | some found ↦
            let (ok, b) = emit_keys write now name found (true, a) in
            let rest = dump_rooms w now rooms (db', b) in if ok then rest else (false, (db', b))
      ]

  -- `ok` behind `for_each`, and the tombstones.
  unfoldable pub dump_rest : World → ℤ → Db × A → Bool × (Db × A)
  unfolding for_each emit_all_tombs
  dump_rest w now (db, a) =
      let (read, (n, (ok, b))) =
        for_each write w.disk now db.cold.file db.cold.index (db.calls, (true, a)) in
      let (done, c) = emit_all_tombs write db.tombstones (read && ok, b) in
      (done, (record db { calls = n }, c))

  unfoldable pub dump_state : World → Db × A → Bool × (Db × A)
  unfolding dump_rooms dump_rest
  dump_state w (db, a) =
      let now : ℤ = w.wall db.calls +ℤ db.clock_offset_ms in
      let (ok, out) = dump_rooms w now db.rooms (record db { calls = db.calls + 1 }, a) in
      let rest = dump_rest w now out in if ok then rest else (false, out)
