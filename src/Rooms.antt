-- ===== src/Rooms.antt =====
-- src/core/rooms.cpp: the registry of rooms, waking, hibernation and the ROOM commands.
pub mod Admin
pub mod Budget
use somnium_db.Prelude.{
  ℕ, zero, suc, ◌+◌, ◌-◌, ◌*◌, ◌^◌, Bool, true, false, not, ◌||◌, ◌&&◌, Option, none, some, List,
  [], ◌∷◌, ◌++◌, length, Bytes, bytes_Eq, nat_eq, bytes_eq, codes, crlf, line, leb, ltb, ◌==◌,
  if◌then◌else◌,
}
use somnium_db.Prelude.Int.{ℤ, pos, ◌-ℤ◌, ltb_ℤ, w64}
use somnium_db.Prelude.Map.{Map, find, put, erase}
use somnium_db.FsUtil.{to_string, to_string_ℤ}
use somnium_db.Resp.Encode.{bulk_string}
use somnium_db.Record.{Record, expired}
use somnium_db.Snapshot
use somnium_db.Snapshot.Save.{save}
use somnium_db.Cold.{fits}
use somnium_db.State.{
  Session, World, Db, Room, RoomState, sleeping, loading, active, hibernating, keys_cost, M,
  Metrics, ◌>>=◌, ◌>>◌, pure, gets, with_db, with_room, with_metrics, add_u64, charge,
  current_time_ms,
}
use somnium_db.Access.{erase_key}

abbrev pub max_active_rooms : ℕ
max_active_rooms = 3

abbrev pub rooms_full : Bytes
rooms_full = line "-ERR ROOMS FULL: active room budget reached, ROOM.HIBERNATE one or wait"

abbrev pub room_idle_ms : ℤ
room_idle_ms = pos 10000

-- `Room(name)`
abbrev pub new_room : Bytes → Room
new_room name = record {
  name = name;
  keys = [];
  last_access_time = pos 0;
  state = sleeping;
  bytes = 0;
}

abbrev pub is_active : RoomState → Bool
is_active active = true
is_active _ = false

abbrev pub is_sleeping : RoomState → Bool
is_sleeping sleeping = true
is_sleeping _ = false

abbrev pub set_state : RoomState → M (Unit {0})
set_state state = with_room (λ room. record room { state = state })

-- What a snapshot file holds goes into the room, which was empty; a corrupt one is moved aside, and an
-- unreadable one stays.
unfoldable pub load_file : World → Bytes → M (Unit {0})
load_file w file s = elim (Snapshot.decode file) [
  | some keys ↦ (tt, record s { room = record s.room { keys = keys } })
  | none ↦ (
    tt,
    if w.rename_ok s.db.calls
        then record s { db = record s.db { snapshots = erase s.room.name s.db.snapshots } }
        else s,
  )
]

unfoldable pub load_readable : World → Bytes → Bool → M (Unit {0})
unfolding load_file
load_readable w file true = load_file w file
load_readable w file false = pure tt

-- `SnapshotManager::wakeup_room`
unfoldable pub wakeup_room : World → M (Unit {0})
unfolding load_readable
wakeup_room w s = elim (find s.room.name s.db.snapshots) [
  | none ↦ (tt, s)
  | some file ↦
      load_readable w file (w.read_ok s.db.calls)
        (record s { db = record s.db { calls = s.db.calls + 1 } })
]

-- The place is given back: the room does not fit.
unfoldable pub give_back : M Bool
give_back = do
  with_room (λ room. record room { keys = []; state = sleeping })
  with_db (λ db. record db { active_rooms = add_u64 db.active_rooms (w64 - 1) })
  pure false

unfoldable pub take_in : ℕ → M Bool
unfolding charge
take_in cost = do
  λ s. with_metrics (λ m. record m { keys_in_ram = add_u64 m.keys_in_ram (length s.room.keys) }) s
  charge (pos cost)
  set_state active
  pure true

-- Behind the reserved place: the snapshot is loaded, and the place given back if it does not fit.
unfoldable pub load_room : World → Bool → M Bool
unfolding wakeup_room give_back take_in
load_room w over_budget = do
  set_state loading
  wakeup_room w
  cost ← gets (λ s. keys_cost s.room)
  room_left ← gets (λ s. fits s.db.metrics.resident_bytes cost s.db.cold)
  if not over_budget && not room_left then give_back else take_in cost

unfoldable pub reserve : World → Bool → M Bool
unfolding load_room
reserve w over_budget = do
  with_db (λ db. record db { active_rooms = add_u64 db.active_rooms 1 })
  load_room w over_budget

-- `Database::activate`: false if the budget is full.
unfoldable pub activate : World → Bool → M Bool
unfolding reserve current_time_ms
activate w over_budget = do
  now ← current_time_ms w
  with_room (λ room. record room { last_access_time = now })
  awake ← gets (λ s. is_active s.room.state)
  full ← gets (λ s. leb max_active_rooms s.db.active_rooms && not over_budget)
  if awake then pure true else if full then pure false else reserve w over_budget

-- The end of `SnapshotManager::hibernate_room`: the new file has replaced the old one and the keys go, or
-- the temporary file is gone and nothing has changed. `sync_dir` is left out.
unfoldable pub saved_as : Option Bytes → M Bool
saved_as (some file) s = (
  true,
  record {
    room = record s.room { keys = [] };
    db = record s.db { snapshots = put s.room.name file s.db.snapshots; calls = s.db.calls + 1 };
  },
)
saved_as none s = (false, record s { db = record s.db { calls = s.db.calls + 1 } })

-- `SnapshotManager::hibernate_room`
unfoldable pub save_room : World → M Bool
unfolding saved_as
save_room w s = saved_as (save (w.save_io s.db.calls) s.room.keys) s

-- Behind the snapshot: the accounts let the keys go, or the room stays awake as it was.
unfoldable pub settle : ℕ → ℕ → Bool → M Bool
unfolding charge
settle resident cost false = do set_state active; pure false
settle resident cost true = do
  with_metrics (λ m. record m { keys_in_ram = add_u64 m.keys_in_ram (w64 * resident - resident) })
  charge (pos 0 -ℤ pos cost)
  set_state sleeping
  with_db (λ db. record db { active_rooms = add_u64 db.active_rooms (w64 - 1) })
  pure true

unfoldable pub put_to_sleep : World → M Bool
unfolding save_room settle
put_to_sleep w = do
  set_state hibernating
  resident ← gets (λ s. length s.room.keys)
  cost ← gets (λ s. keys_cost s.room)
  saved ← save_room w
  settle resident cost saved

-- `Database::hibernate`
unfoldable pub hibernate : World → M Bool
unfolding put_to_sleep
hibernate w = do
  asleep ← gets (λ s. is_sleeping s.room.state)
  if asleep then pure true else put_to_sleep w

-- A room is locked and taken out, worked on, and put back. `find_room(name, true)` makes it if it is absent.
unfoldable pub find_room : Bytes → Db → Room
find_room name db = elim (find name db.rooms) [ none ↦ new_room name | some room ↦ room ]

unfoldable pub in_room : {A : Type 0} → Bytes → M A → Db → A × Db
unfolding find_room
in_room name m db =
    let (a, s) = m (record { room = find_room name db; db = db }) in
    (a, record s.db { rooms = put name s.room s.db.rooms })

-- The names that may become part of a file name.
has_bad_byte : Bytes → Bool
has_bad_byte [] = false
has_bad_byte (c ∷ name) = c == b'/' || c == 0 || has_bad_byte name

unfoldable pub valid_name : Bytes → Bool
unfolding has_bad_byte
valid_name name = not (length name == 0 || ltb 200 (length name) || has_bad_byte name)

is_known : Bytes → Db → Bool
is_known name db = elim (find name db.rooms) [ none ↦ false | some room ↦ true ]

-- `Database::wake_room`: `none` if the room is awake.
unfoldable pub wake_room : World → Bytes → Db → Option Bytes × Db
unfolding valid_name is_known in_room activate
wake_room w name db =
    if not (valid_name name)
    then (some (line "-ERR invalid room name"), db)
    else if not (is_known name db) && leb db.max_rooms (length db.rooms)
    then (some (line "-ERR too many rooms"), db)
    else let (awake, db') = in_room name (activate w false) db in
      (if awake then none else some rooms_full, db')

-- ROOM name
unfoldable pub handle_room : World → ℕ → List Bytes → Db → Bytes × Db
unfolding wake_room
handle_room w fd (cmd ∷ name ∷ []) db =
    let (err, db') = wake_room w name db in
    elim err [
      | some reply ↦ (reply, db')
      | none ↦ (line "+OK", record db' { client_rooms = put fd name db'.client_rooms })
    ]
handle_room w fd args db = (line "-ERR Wrong number of arguments for ROOM", db)
