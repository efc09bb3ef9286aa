-- ===== src/Access.antt =====
-- src/core/database.cpp: the four methods that change what a room holds in memory.
pub mod Accounts
pub mod Lookup
use somnium_db.Prelude.{
  ℕ, ◌+◌, ◌-◌, ◌%◌, Bool, true, false, not, Option, none, some, [], ◌∷◌, length, Bytes, bytes_Eq,
  if◌then◌else◌,
}
use somnium_db.Prelude.Int.{ℤ, pos, negsuc, ◌-ℤ◌, w64}
use somnium_db.Prelude.Map.{find, put, erase}
use somnium_db.Record.{Record, new_record, expired, record_cost}
use somnium_db.Cold.{take_record}
use somnium_db.State.{
  Session, World, M, Metrics, ◌>>=◌, ◌>>◌, pure, with_db, with_room, with_metrics, add_u64, charge,
  current_time_ms,
}

-- `record_pool.construct` and `room.keys.emplace`, with the accounts of both.
unfoldable pub adopt : Bytes → Record → M (Unit {0})
unfolding charge
adopt key r = do
  with_room (λ room. record room { keys = put key r room.keys })
  with_metrics (λ m. record m { keys_in_ram = add_u64 m.keys_in_ram 1 })
  charge (pos (record_cost key r))

-- `Database::insert`: an empty record, which the caller fills in.
unfoldable pub insert : Bytes → M Record
unfolding adopt
insert key = do adopt key new_record; pure new_record

-- `Database::set_value`; the pointer `r` stands for the record under `key`.
unfoldable pub set_value : Bytes → Record → Bytes → M Record
unfolding charge
set_value key r value = do
  charge (pos (length value) -ℤ pos (length r.value))
  with_room (λ room. record room { keys = put key (record r { value = value }) room.keys })
  pure (record r { value = value })

-- The assignments through the pointer that leave the value alone.
unfoldable pub stamp : Bytes → Record → ℤ → ℕ → ℕ → M Record
stamp key r expire_at ts node = do
  let r' : Record = record r { expire_at = expire_at; timestamp_ms = ts; node_id = node }
  with_room (λ room. record room { keys = put key r' room.keys })
  pure r'

-- `Database::erase` at the record `r` under `key`.
unfoldable pub erase_key : Bytes → Record → M (Unit {0})
unfolding charge
erase_key key r = do
  charge (pos 0 -ℤ pos (record_cost key r))
  with_metrics (λ m. record m { keys_in_ram = add_u64 m.keys_in_ram (w64 - 1) })
  with_room (λ room. record room { keys = erase key room.keys })

-- `eviction.take`
unfoldable pub take_cold : World → Bytes → Bytes → M (Option Record)
take_cold w room_name key s =
    let (found, cold) = take_record w.disk s.db.calls room_name key s.db.cold in
    (found, record s { db = record s.db { cold = cold; calls = s.db.calls + 1 } })

-- What cold storage gave: an expired record is dropped, any other moves into memory.
pub from_cold : Bytes → ℤ → Option Record → M (Option Record)
unfolding adopt
from_cold key now none = pure none
from_cold key now (some r) = if expired r now then pure none else (do adopt key r; pure (some r))

-- The two branches of `lookup`.
pub lookup_in : World → Bytes → Bytes → ℤ → Option Record → M (Option Record)
unfolding erase_key take_cold from_cold
lookup_in w room_name key now (some r) =
    if not (expired r now)
    then (do with_metrics (λ m. record m { cache_hits = add_u64 m.cache_hits 1 }); pure (some r))
    else (do erase_key key r; pure none)
lookup_in w room_name key now none = do
  with_metrics (λ m. record m { cache_misses = add_u64 m.cache_misses 1 })
  found ← take_cold w room_name key
  from_cold key now found

-- `Database::lookup`: memory, then cold storage; an expired key counts as absent.
unfoldable pub lookup : World → Bytes → Bytes → M (Option Record)
unfolding lookup_in current_time_ms
lookup w room_name key = do
  now ← current_time_ms w
  λ s. lookup_in w room_name key now (find key s.room.keys) s
