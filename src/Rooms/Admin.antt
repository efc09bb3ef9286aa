-- ===== src/Rooms/Admin.antt =====
-- src/core/rooms.cpp: the ROOM.* commands, and the rooms that go to sleep when they are idle.
use somnium_db.Prelude.{
  ℕ, ◌+◌, ◌*◌, Bool, not, ◌&&◌, Option, none, some, List, [], ◌∷◌, ◌++◌, length, Bytes, bytes_Eq,
  bytes_eq, codes, crlf, line, if◌then◌else◌,
}
use somnium_db.Prelude.Int.{ℤ, ◌+ℤ◌, ◌-ℤ◌, ltb_ℤ}
use somnium_db.Prelude.Map.{Map, find}
use somnium_db.FsUtil.{to_string, to_string_ℤ}
use somnium_db.Resp.Encode.{bulk_string}
use somnium_db.State.{
  World, Db, Room, RoomState, sleeping, loading, active, hibernating, M, ◌>>=◌, ◌>>◌, pure, gets,
  current_time_ms,
}
use somnium_db.Rooms.{is_active, hibernate, in_room, wake_room, room_idle_ms}

-- `Database::map_header`
unfoldable pub map_header : ℕ → Bool → Bytes
map_header pairs resp3 =
    if resp3 then b'%' ∷ (to_string pairs ++ crlf) else b'*' ∷ (to_string (2 * pairs) ++ crlf)

room_names : Map Bytes Room → Bytes
room_names [] = []
room_names ((name, room) ∷ rooms) = bulk_string name ++ room_names rooms

-- ROOMS
unfoldable pub handle_rooms : Db → Bytes
unfolding room_names
handle_rooms db = b'*' ∷ (to_string (length db.rooms) ++ crlf ++ room_names db.rooms)

abbrev pub state_name : RoomState → Bytes
state_name sleeping = codes "sleeping"
state_name loading = codes "loading"
state_name active = codes "active"
state_name hibernating = codes "hibernating"

-- ROOM.INFO: the keys and the bytes of an active room, and 0 for any other.
unfoldable pub room_info : Room → Bool → Bytes
unfolding map_header
room_info room resp3 =
    map_header 4 resp3
    ++ bulk_string (codes "state")
    ++ bulk_string (state_name room.state)
    ++ bulk_string (codes "last_access_ms")
    ++ (b':' ∷ (to_string_ℤ room.last_access_time ++ crlf))
    ++ bulk_string (codes "keys")
    ++ (b':' ∷ (to_string (if is_active room.state then length room.keys else 0) ++ crlf))
    ++ bulk_string (codes "bytes")
    ++ (b':' ∷ (to_string (if is_active room.state then room.bytes else 0) ++ crlf))

-- ROOM.HIBERNATE on a room that there is.
hibernate_named : World → Bytes → Db → Bytes × Db
unfolding in_room hibernate
hibernate_named w name db =
    if bytes_eq name (codes "default")
    then (line "-ERR the default room is pinned", db)
    else let (asleep, db') = in_room name (hibernate w) db in
      (if asleep then line "+OK" else line "-ERR snapshot failed, room stays active", db')

admin_found : World → Bytes → Bytes → Option Room → Db → Bytes × Db
unfolding hibernate_named room_info
admin_found w command name none db = (line "-ERR no such room", db)
admin_found w command name (some room) db =
    if bytes_eq command (codes "ROOM.HIBERNATE")
    then hibernate_named w name db
    else if bytes_eq command (codes "ROOM.INFO")
    then (room_info room db.resp3, db)
    else (line "-ERR unknown command", db)

woken : Option Bytes × Db → Bytes × Db
woken (none, db) = (line "+OK", db)
woken (some err, db) = (err, db)

-- `handle_room_admin` behind ROOMS, with one argument.
admin_named : World → Bytes → Bytes → Db → Bytes × Db
unfolding admin_found woken
admin_named w command name db =
    if bytes_eq command (codes "ROOM.WAKE")
    then woken (wake_room w name db)
    else admin_found w command name (find name db.rooms) db

unfoldable pub handle_room_admin : World → Bytes → List Bytes → Db → Bytes × Db
unfolding handle_rooms admin_named
handle_room_admin w command (cmd ∷ name ∷ []) db =
    if bytes_eq command (codes "ROOMS")
    then (handle_rooms db, db)
    else admin_named w command name db
handle_room_admin w command args db =
    if bytes_eq command (codes "ROOMS")
    then (handle_rooms db, db)
    else (codes "-ERR Wrong number of arguments for " ++ (command ++ crlf), db)

-- The first pass of `hibernate_inactive_rooms`: the rooms that look idle, but never the default one.
unfoldable pub idle_rooms : ℤ → Map Bytes Room → List Bytes
idle_rooms now [] = []
idle_rooms now ((name, room) ∷ rooms) =
    let rest : List Bytes = idle_rooms now rooms in
    if is_active room.state
      && not (bytes_eq name (codes "default"))
      && ltb_ℤ room_idle_ms (now -ℤ room.last_access_time)
    then name ∷ rest
    else rest

still_idle : World → M Bool
unfolding current_time_ms
still_idle w = do
  now ← current_time_ms w
  gets (λ s. ltb_ℤ room_idle_ms (now -ℤ s.room.last_access_time))

-- One candidate, looked at again under its lock; the clock is read only if the room is still active.
hibernate_if_idle : World → M (Unit {0})
unfolding still_idle hibernate
hibernate_if_idle w = do
  awake ← gets (λ s. is_active s.room.state)
  if not awake
      then pure tt
      else (do idle ← still_idle w; if not idle then pure tt else (do hibernate w; pure tt))

unfoldable pub hibernate_each : World → List Bytes → Db → Db
unfolding in_room hibernate_if_idle
hibernate_each w [] db = db
hibernate_each w (name ∷ names) db =
    hibernate_each w names (in_room name (hibernate_if_idle w) db).1

unfoldable pub hibernate_inactive_rooms : World → Db → Db
unfolding hibernate_each idle_rooms
hibernate_inactive_rooms w db =
    let now : ℤ = w.wall db.calls +ℤ db.clock_offset_ms in
    hibernate_each w (idle_rooms now db.rooms) (record db { calls = db.calls + 1 })
