-- ===== src/Writes.antt =====
-- What the commands that write share: the access counts and the AOF.
pub mod Frames
pub mod Accounts
use somnium_db.Prelude.{ℕ, ◌+◌, Option, none, some, Bytes}
use somnium_db.Prelude.Int.{ℤ}
use somnium_db.Record.{Record}
use somnium_db.Cold
use somnium_db.Aof
use somnium_db.Aof.{AofRecord}
use somnium_db.State.{Session, World, M, ◌>>=◌, ◌>>◌, pure, with_db}
use somnium_db.Access.{insert}
use somnium_db.Tombstones.{clear_tomb}

-- `eviction.record_access(key)`
unfoldable pub record_access : Bytes → M (Unit {0})
record_access key = with_db (λ db. record db { cold = Cold.record_access key db.cold })

-- `aof.append(…)`, whose result no command looks at.
unfoldable pub append_aof : World → AofRecord → M (Unit {0})
append_aof w rec = with_db (λ db. record db {
  aof = (Aof.append (w.append_io db.calls) rec db.aof).1;
  calls = db.calls + 1;
})

-- `if (!r) { r = insert(room, key); clear_tomb(room_name, key); }`
unfoldable pub found_or_new : Bytes → Bytes → Option Record → M Record
found_or_new room_name key (some r) = pure r
found_or_new room_name key none = do r ← insert key; with_db (clear_tomb room_name key); pure r
