-- ===== src/Expiry.antt =====
-- `clean_expired_keys` of src/core/commands.cpp: the sweep over the keys that are awake.
pub mod Sweep
use somnium_db.Prelude.{ℕ, Bool, true, false, [], ◌∷◌, List, Bytes, bytes_Eq, if◌then◌else◌, ◌+◌}
use somnium_db.Prelude.Int.{ℤ, ◌+ℤ◌}
use somnium_db.Prelude.Map.{Map}
use somnium_db.Record.{Record, expired}
use somnium_db.State.{Session, World, Db, Room, M, ◌>>=◌, ◌>>◌, pure, Metrics}
use somnium_db.Access.{erase_key}
use somnium_db.Rooms.{in_room}

-- The loop over the entries of one room, which erases where the iterator stands.
unfoldable pub sweep_expired : ℤ → Map Bytes Record → M (Unit {0})
unfolding erase_key
sweep_expired now [] = pure tt
sweep_expired now ((key, r) ∷ rest) = do
  if expired r now then erase_key key r else pure tt
  sweep_expired now rest

unfoldable pub sweep_room : ℤ → M (Unit {0})
unfolding sweep_expired
sweep_room now s = sweep_expired now s.room.keys s

-- The loop over the rooms of the registry.
unfoldable pub sweep_each : ℤ → Map Bytes Room → Db → Db
unfolding in_room sweep_room
sweep_each now [] db = db
sweep_each now ((name, room) ∷ rooms) db = sweep_each now rooms (in_room name (sweep_room now) db).1

unfoldable pub clean_expired_keys : World → Db → Db
unfolding sweep_each
clean_expired_keys w db =
    sweep_each (w.wall db.calls +ℤ db.clock_offset_ms) db.rooms (record db { calls = db.calls + 1 })
