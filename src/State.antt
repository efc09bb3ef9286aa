-- ===== src/State.antt =====
-- The state behind a command: src/core/database.h, src/core/room.h and the counters of
-- src/server/metrics.h that the commands move. The lists of connections, threads and locks are left
-- out: a handler runs alone on the command thread, with its room's mutex held.
use somnium_db.Prelude.{ℕ, ◌+◌, ◌%◌, Bool, ◌&&◌, ◌||◌, Bytes, line, ltb, leb, ◌==◌, if◌then◌else◌}
use somnium_db.Prelude.Int.{ℤ, ◌+ℤ◌, to_u64, w64}
use somnium_db.Prelude.Map.{Map, total}
use somnium_db.Prelude.{bytes_Eq}
use somnium_db.Record.{Record, record_cost}
use somnium_db.Hlc.{Clock}
use somnium_db.Disk.{Disk}
use somnium_db.Cold.{Cold}
use somnium_db.Aof.{Aof, AppendIo}
use somnium_db.PubSub.{PubSub}
use somnium_db.Snapshot.Save.{SaveIo}

-- `Version`, ordered by timestamp and then by node.
pub record Version : Type 0 where
  pub ts : ℕ
  pub node : ℕ

unfoldable pub leb_version : Version → Version → Bool
leb_version a b = ltb a.ts b.ts || (a.ts == b.ts && leb a.node b.node)

-- `std::max(a, b)`
unfoldable pub max_version : Version → Version → Version
unfolding leb_version
max_version a b = if leb_version b a then a else b

pub data RoomState : Type 0 where
  sleeping loading active hibernating : RoomState

pub record Room : Type 0 where
  pub name : Bytes
  pub keys : Map Bytes Record
  pub last_access_time : ℤ
  pub state : RoomState
  pub bytes : ℕ

-- `Room::keys_cost`
abbrev pub keys_cost : Room → ℕ
keys_cost room = total record_cost room.keys

-- `DbMetrics`: every counter is a `uint64_t`.
pub record Metrics : Type 0 where
  pub keys_in_ram : ℕ
  pub resident_bytes : ℕ
  pub tombstones : ℕ
  pub total_gets : ℕ
  pub total_sets : ℕ
  pub cache_hits : ℕ
  pub cache_misses : ℕ
  pub keys_evicted : ℕ

-- `rewrite_child_` and `rewrite_from_`, with the status that the child will exit with.
pub record Background : Type 0 where
  pub running : Bool
  pub from : ℕ
  pub child_ok : Bool

-- The members of `Database`, with the global metrics. `calls` numbers the calls of the outside world
-- made so far.
pub record Db : Type 0 where
  pub rooms : Map Bytes Room
  pub client_rooms : Map ℕ Bytes
  pub total_commands : ℕ
  pub active_rooms : ℕ
  pub local_node_id : ℕ
  pub clock : Clock
  pub tombstones : Map Bytes (Map Bytes Version)
  pub frontiers : Map ℕ ℕ
  pub watermark : ℕ
  pub peer_count : ℕ
  pub frontier : ℕ
  pub max_clock_offset_ms : ℤ
  pub max_rooms : ℕ
  pub clock_offset_ms : ℤ
  pub pubsub : PubSub
  pub aof : Aof
  pub background : Background
  pub cold : Cold
  -- the files `room_<name>.bin`
  pub snapshots : Map Bytes Bytes
  pub metrics : Metrics
  pub resp3 : Bool
  pub calls : ℕ

-- What the outside answers to the n-th call: the system clock in milliseconds, the disk, the
-- system calls of an AOF append, the snapshot files, and the random numbers of the eviction.
pub record World : Type 0 where
  pub wall : ℕ → ℤ
  pub disk : Disk
  pub append_io : ℕ → AppendIo
  pub draw : ℕ → ℕ
  -- Whether a snapshot file can be read, how it is written, and whether it can be moved aside.
  pub read_ok : ℕ → Bool
  pub save_io : ℕ → SaveIo
  pub rename_ok : ℕ → Bool

-- A handler works on the database and on the client's room, which stays locked and out of the
-- registry until the handler returns.
pub record Session : Type 0 where
  pub room : Room
  pub db : Db

abbrev pub M : Type 0 → Type 0
M A = Session → A × Session

infixl 5 ◌>>=◌ ◌>>◌
abbrev pub ◌>>=◌ : {A B : Type 0} → M A → (A → M B) → M B
◌>>=◌ m f s = let (a, s') = m s in f a s'

abbrev pub ◌>>◌ : {A B : Type 0} → M A → M B → M B
m >> k = m >>= λ _. k

abbrev pub pure : {A : Type 0} → A → M A
pure a s = (a, s)

abbrev pub gets : {A : Type 0} → (Session → A) → M A
gets f s = (f s, s)

abbrev pub with_db : (Db → Db) → M (Unit {0})
with_db f s = (tt, record s { db = f s.db })

abbrev pub with_room : (Room → Room) → M (Unit {0})
with_room f s = (tt, record s { room = f s.room })

abbrev pub with_metrics : (Metrics → Metrics) → M (Unit {0})
with_metrics f s = (tt, record s { db = record s.db { metrics = f s.db.metrics } })

-- `fetch_add` on a `uint64_t`.
abbrev pub add_u64 : ℕ → ℕ → ℕ
add_u64 a b = (a + b) % w64

-- `Room::charge`: the one place where a room's bytes and the global total change.
unfoldable pub charge : ℤ → M (Unit {0})
charge delta s = (
  tt,
  record {
    room = record s.room { bytes = add_u64 s.room.bytes (to_u64 delta) };
    db = record s.db {
      metrics = record s.db.metrics {
        resident_bytes = add_u64 s.db.metrics.resident_bytes (to_u64 delta);
      };
    };
  },
)

-- `get_current_time_ms`: the wall clock, which may do anything, plus the offset of the tests.
unfoldable pub current_time_ms : World → M ℤ
current_time_ms w s = (
  w.wall s.db.calls +ℤ s.db.clock_offset_ms,
  record s { db = record s.db { calls = s.db.calls + 1 } },
)

unfoldable pub nil : M Bytes
nil s = (if s.db.resp3 then line "_" else line "$-1", s)
