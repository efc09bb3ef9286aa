-- ===== src/Persistence.antt =====
-- src/core/persistence.cpp, `replay_record`: a record of the append-only file is applied at the start.
pub mod Dump
pub mod Rewriting
pub mod Accounts
pub mod Replayed
pub mod RoundTrip
use somnium_db.Prelude.{
  ℕ, ◌+◌, ◌^◌, ◌%◌, Bool, true, false, ◌||◌, ◌&&◌, Option, none, some, List, [], ◌∷◌, length, Bytes,
  bytes_Eq, bytes_eq, codes, upper, ltb, leb, if◌then◌else◌,
}
use somnium_db.Prelude.Int.{ℤ}
use somnium_db.Prelude.Map.{find}
use somnium_db.FsUtil.{parse_u64, uint32_max}
use somnium_db.Hlc.{normalize, observe}
use somnium_db.Record.{Record}
use somnium_db.Aof.{AofRecord}
use somnium_db.State.{Session, World, Db, Version, M, ◌>>=◌, ◌>>◌, pure, with_db}
use somnium_db.Access.{insert, set_value, stamp}
use somnium_db.Tombstones.{set_tomb}
use somnium_db.Crdt.{erase_found}
use somnium_db.Rooms.{activate, in_room}

-- `clock_.observe(ts)`
unfoldable pub observe_clock : ℕ → M (Unit {0})
observe_clock ts = with_db (λ db. record db { clock = observe db.clock ts })

-- The record under the key, or a new one.
unfoldable pub replay_found : Bytes → Option Record → M Record
replay_found key none = insert key
replay_found key (some r) = pure r

unfoldable pub put_found : Bytes → Bytes → ℤ → ℕ → ℕ → Option Record → M (Unit {0})
unfolding replay_found observe_clock
put_found key value expire_at ts node r = do
  q ← replay_found key r
  q' ← set_value key q value
  stamp key q' expire_at (normalize ts) (node % 2 ^ 32)
  observe_clock (normalize ts)

-- The lambda `put`.
unfoldable pub replay_put : Bytes → Bytes → ℤ → ℕ → ℕ → M (Unit {0})
unfolding put_found
replay_put key value expire_at ts node s =
    put_found key value expire_at ts node (find key s.room.keys) s

unfoldable pub is_merge : Bytes → List Bytes → Bool
is_merge command args = bytes_eq command (codes "CRDTMERGE") && leb 5 (length args)

-- The timestamp and the node of a merge, which its arguments carry.
unfoldable pub merge_numbers : List Bytes → Option (ℕ × ℕ)
merge_numbers (name ∷ key ∷ value ∷ ts ∷ node ∷ rest) = elim (parse_u64 ts) [
  | none ↦ none
  | some t ↦ elim (parse_u64 node) [
    | none ↦ none
    | some n ↦ if ltb uint32_max n then none else some (t, n)
  ]
]
merge_numbers args = none

unfoldable pub replay_set : ℤ → Option (ℕ × ℕ) → List Bytes → M (Unit {0})
unfolding replay_put
replay_set expire_at (some (ts, node)) (name ∷ key ∷ value ∷ rest) =
    replay_put key value expire_at ts node
replay_set expire_at version args = pure tt

-- MSET: the pairs behind the name.
unfoldable pub replay_pairs : AofRecord → List Bytes → M (Unit {0})
unfolding replay_put
replay_pairs rec (key ∷ value ∷ rest) = do
  replay_put key value rec.expire_at rec.timestamp_ms rec.node_id
  replay_pairs rec rest
replay_pairs rec rest = pure tt

unfoldable pub set_expiry : Bytes → ℤ → Option Record → M (Unit {0})
set_expiry key expire_at none = pure tt
set_expiry key expire_at (some r) = do stamp key r expire_at r.timestamp_ms r.node_id; pure tt

-- EXPIRE, PEXPIRE and PERSIST.
unfoldable pub replay_expiry : ℤ → List Bytes → M (Unit {0})
unfolding set_expiry
replay_expiry expire_at (name ∷ key ∷ rest) s = set_expiry key expire_at (find key s.room.keys) s
replay_expiry expire_at args s = (tt, s)

unfoldable pub delete_found : Bytes → Bytes → Version → Option Record → M (Unit {0})
unfolding erase_found observe_clock
delete_found room_name key v r = do
  erase_found key r
  with_db (set_tomb room_name key v)
  observe_clock v.ts

-- DEL and CRDTDEL.
unfoldable pub replay_delete : AofRecord → List Bytes → M (Unit {0})
unfolding delete_found
replay_delete rec (name ∷ key ∷ rest) s =
    delete_found rec.room key (record { ts = normalize rec.timestamp_ms; node = rec.node_id })
      (find key s.room.keys) s
replay_delete rec args s = (tt, s)

unfoldable pub sets_expiry : Bytes → Bool
sets_expiry command =
    bytes_eq command (codes "EXPIRE")
    || (bytes_eq command (codes "PEXPIRE") || bytes_eq command (codes "PERSIST"))

unfoldable pub deletes : Bytes → List Bytes → Bool
deletes command args =
    (bytes_eq command (codes "DEL") && leb 2 (length args))
    || (bytes_eq command (codes "CRDTDEL") && leb 4 (length args))

-- What follows in the room, `command` being the name in capitals.
unfoldable pub replay_command : AofRecord → Bytes → M (Unit {0})
unfolding is_merge merge_numbers replay_set replay_pairs replay_expiry replay_delete sets_expiry
    deletes
replay_command rec command =
    if is_merge command rec.args
    then replay_set rec.expire_at (merge_numbers rec.args) rec.args
    else if bytes_eq command (codes "SET") && leb 3 (length rec.args)
    then replay_set rec.expire_at (some (rec.timestamp_ms, rec.node_id)) rec.args
    else if bytes_eq command (codes "MSET")
    then (elim rec.args [ [] ↦ pure tt | name ∷ pairs ↦ replay_pairs rec pairs ])
    else if sets_expiry command && leb 2 (length rec.args)
    then replay_expiry rec.expire_at rec.args
    else if deletes command rec.args
    then replay_delete rec rec.args
    else pure tt

replay_in_room : World → AofRecord → Bytes → M (Unit {0})
unfolding activate replay_command
replay_in_room w rec command = do activate w true; replay_command rec command

-- `Database::replay_record`
unfoldable pub replay_record : World → AofRecord → Db → Db
unfolding in_room replay_in_room
replay_record w rec db = elim rec.args [
  | [] ↦ db
  | command ∷ rest ↦ (in_room rec.room (replay_in_room w rec (upper command)) db).1
]

-- `recover` calls it on each record.
unfoldable pub replay_records : World → List AofRecord → Db → Db
unfolding replay_record
replay_records w [] db = db
replay_records w (rec ∷ recs) db = replay_records w recs (replay_record w rec db)
