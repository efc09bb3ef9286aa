-- ===== src/Examples/Server.antt =====
-- The server on small inputs: src/core, src/server and src/storage/eviction_manager.cpp.
use somnium_db.Prelude.{
  ℕ, ◌+◌, ◌^◌, ◌≤◌, ◌≡◌, ◌⊎◌, inr, refl, arith, true, false, none, some, List, [], ◌∷◌, ◌++◌,
  length, take, drop, Bytes, codes, bytes_Eq, nat_eq, leb, if◌then◌else◌, upper, bytes_eq,
}
use somnium_db.Prelude.Int.{pos}
use somnium_db.Prelude.Map.{find, put}
use somnium_db.Prelude.Set.{member}
use somnium_db.Record.{Record, record_cost}
use somnium_db.Hlc
use somnium_db.Hlc.{normalize}
use somnium_db.Sketch
use somnium_db.Cold.{Cold}
use somnium_db.Disk.{Disk}
use somnium_db.Word.{le_bytes}
use somnium_db.Snapshot.Save.{save, write_keys, feed_entries, feed_entry, feed, flush_buf}
use somnium_db.PubSub.{PubSub, no_subscriptions, listeners, subscribe, remove_client, is_subscribed}
use somnium_db.PubSub.Tables.{Consistent}
use somnium_db.PubSub.Consistent.{sub, unsub, gone, run, run-Consistent, remove_client_gone}
use somnium_db.State.{Session, World, Db, Room, active, Version, Metrics}
use somnium_db.Access.Accounts.{Accounted}
use somnium_db.Commands.{handle_set}
use somnium_db.Keys.{handle_del}
use somnium_db.Crdt.{handle_crdtmerge}
use somnium_db.Writes.Accounts.{handle_set-accounts, handle_del-accounts}
use somnium_db.Crdt.Accounts.{handle_crdtmerge-accounts}
use somnium_db.Crdt.Merge.{Write, merge, merges_commute}
use somnium_db.Tombstones.{stale, collect_tombstones, find_tomb}
use somnium_db.Tombstones.Watermark.{collect_tombstones-stale, collect_tombstones-watermark}
use somnium_db.Rooms.{activate, hibernate, wakeup_room, max_active_rooms}
use somnium_db.Rooms.Budget.{activate-places, wakeup_room-hibernate}
use somnium_db.Aof.Rewrite.{OpenIo, CommitIo}
use somnium_db.Persistence.Rewriting.{ForkIo}
use somnium_db.Evict.{evict_despised_keys}
use somnium_db.Evict.Limits.{Rounds, evict_despised_keys-Rounds}
use somnium_db.Expiry.{sweep_room}
use somnium_db.Expiry.Sweep.{fresh, sweep_room-fresh}
use somnium_db.Dispatch.{Outside, tend_rewrite, answer, execute, client_room, subscribed_error}
use somnium_db.Dispatch.Refusals.{is_pubsub, Untouched, execute-subscribed}
use somnium_db.Examples.Storage.{aof, fine}

abbrev pub key_k : Bytes
key_k = codes "k"

abbrev pub record_v : Record
record_v = record { value = codes "v"; expire_at = pos 9; timestamp_ms = 2 ^ 50; node_id = 3 }

abbrev default_room : Room
default_room = record {
  name = codes "default";
  keys = (key_k, record_v) ∷ [];
  last_access_time = pos 0;
  state = active;
  bytes = 106;
}

abbrev metrics : Metrics
metrics = record {
  keys_in_ram = 1;
  resident_bytes = 106;
  tombstones = 1;
  total_gets = 0;
  total_sets = 0;
  cache_hits = 0;
  cache_misses = 0;
  keys_evicted = 0;
}

abbrev cold : Cold
cold = record {
  sketch = Sketch.empty;
  index = [];
  file = [];
  fd_open = true;
  file_bytes = 0;
  obsolete_bytes = 0;
  max_keys = 0;
  max_bytes = 0;
}

abbrev pub db : Db
db = record {
  rooms = (codes "default", default_room) ∷ [];
  client_rooms = [];
  total_commands = 0;
  active_rooms = 1;
  local_node_id = 1;
  clock = Hlc.new_clock;
  tombstones = (codes "default", (codes "gone", record { ts = 70000; node = 2 }) ∷ []) ∷ [];
  frontiers = (2, 90000) ∷ [];
  watermark = 0;
  peer_count = 1;
  frontier = 0;
  max_clock_offset_ms = pos 60000;
  max_rooms = 100;
  clock_offset_ms = pos 0;
  pubsub = (subscribe 4 (codes "news") false no_subscriptions).1;
  aof = aof;
  background = record { running = false; from = 0; child_ok = false };
  cold = cold;
  snapshots = [];
  metrics = metrics;
  resp3 = false;
  calls = 0;
}

abbrev pub disk : Disk
disk = record {
  pwrite_all = λ n file text off. (true, take off file ++ text);
  pread_all = λ n file len off.
      if leb (off + len) (length file) then some (take len (drop off file)) else none;
}

abbrev pub world : World
world = record {
  wall = λ n. pos 5;
  disk = disk;
  append_io = λ n. fine;
  draw = λ n. n;
  read_ok = λ n. true;
  save_io =
      λ n. record { opened = true; space = 1000; synced = true; closed = true; renamed = true };
  rename_ok = λ n. true;
}

abbrev pub session : Session
session = record { room = default_room; db = db }

pub session-Accounted : Accounted 0 0 session
unfolding record_cost find
session-Accounted = record { is_map = (refl, tt); bytes = refl; resident = refl; in_ram = refl }

handle_set-accounts_example :
    Accounted 0 0
      (handle_set world (codes "default") (codes "SET" ∷ key_k ∷ codes "new" ∷ []) session).1
handle_set-accounts_example =
    handle_set-accounts 0 0 world (codes "default") (codes "SET" ∷ key_k ∷ codes "new" ∷ []) session
      session-Accounted

handle_del-accounts_example :
    Accounted 0 0 (handle_del world (codes "default") (codes "DEL" ∷ key_k ∷ []) session).1
handle_del-accounts_example =
    handle_del-accounts 0 0 world (codes "default") (codes "DEL" ∷ key_k ∷ []) session
      session-Accounted

abbrev merge_args : List Bytes
merge_args = codes "CRDTMERGE" ∷ key_k ∷ codes "other" ∷ codes "1234567890" ∷ codes "2" ∷ []

handle_crdtmerge-accounts_example :
    Accounted 0 0 (handle_crdtmerge world (codes "default") merge_args session).1
handle_crdtmerge-accounts_example =
    handle_crdtmerge-accounts 0 0 world (codes "default") merge_args session session-Accounted

abbrev write_of : Bytes → ℕ → Write
write_of value node = record {
  value = value;
  expire_at = pos 0;
  version = record { ts = 2 ^ 51; node = node };
}

merges_commute_example :
    find key_k
      (merge world
        (codes "default")
        []
        key_k
        (write_of (codes "b") 2)
        (merge world (codes "default") [] key_k (write_of (codes "a") 1) session)).room.keys
    ≡ find key_k
        (merge world
          (codes "default")
          []
          key_k
          (write_of (codes "a") 1)
          (merge world (codes "default") [] key_k (write_of (codes "b") 2) session)).room.keys
merges_commute_example =
    merges_commute world (codes "default") [] key_k (write_of (codes "a") 1)
      (write_of (codes "b") 2) session (inr λ e. omega (arith, e))

abbrev old_version : Version
old_version = record { ts = 69999; node = 2 }

collect_tombstones-stale_example :
    stale (codes "default") (codes "gone") none old_version (collect_tombstones db) ≡ true
unfolding stale find_tomb find bytes_eq
collect_tombstones-stale_example =
    collect_tombstones-stale db (codes "default") (codes "gone") old_version (refl, (refl, tt), tt)
      refl

collect_tombstones-watermark_example :
    (0 ≤ (collect_tombstones db).watermark)
    × ((collect_tombstones db).watermark ≡ 0 ⊎ (collect_tombstones db).watermark ≤ 90000)
unfolding find
collect_tombstones-watermark_example =
    collect_tombstones-watermark db 2 90000 refl (λ e. omega (arith, e))

activate-places_example :
    ((activate world false session).1.db.active_rooms ≤ max_active_rooms)
    × ((activate world false session).0 ≡ true
        ⊎ (activate world false session).1.db.active_rooms ≡ 1)
activate-places_example = activate-places world session (omega arith)

abbrev failing : World
failing = record world {
  save_io = λ n. record { opened = true; space = 3; synced = true; closed = true; renamed = true };
}

sleeps : (hibernate world session).0 ≡ true
unfolding hibernate save write_keys feed_entries feed_entry feed flush_buf le_bytes
sleeps = refl

wakeup_room-hibernate_example :
    ((hibernate world session).1.room.keys ≡ [])
    × ((wakeup_room world (hibernate world session).1).1.room.keys ≡ (key_k, record_v) ∷ [])
unfolding find normalize
wakeup_room-hibernate_example =
    wakeup_room-hibernate world session refl sleeps (refl, tt)
      (
        record {
          fields = record {
            expire_low = omega arith;
            expire_high = omega arith;
            timestamp = omega arith;
            node = omega arith;
          };
          key_size = omega arith;
          value_size = omega arith;
          hybrid = refl;
        },
        tt,
      )
      (omega arith) refl

evict_despised_keys-Rounds_example : Rounds world session (evict_despised_keys world session).1
evict_despised_keys-Rounds_example = evict_despised_keys-Rounds world session

sweep_room-fresh_example :
    Accounted 0 0 (sweep_room (pos 10) session).1
    × ((key : Bytes)
        → find key (sweep_room (pos 10) session).1.room.keys
          ≡ fresh (pos 10) (find key default_room.keys))
sweep_room-fresh_example = sweep_room-fresh 0 0 (pos 10) session session-Accounted

run-Consistent_example : Consistent (
    run
      (sub 4 (codes "news") false ∷ sub 5 (codes "news") true ∷ unsub 4 [] false ∷ gone 5 ∷ [])
      no_subscriptions)
run-Consistent_example =
    run-Consistent
      (sub 4 (codes "news") false ∷ sub 5 (codes "news") true ∷ unsub 4 [] false ∷ gone 5 ∷ [])

abbrev one_listener : PubSub
one_listener = run (sub 4 (codes "news") false ∷ []) no_subscriptions

remove_client_gone_example :
    (member 4 (listeners (codes "news") (remove_client 4 one_listener)) ≡ false)
    × (is_subscribed 4 (remove_client 4 one_listener) ≡ false)
remove_client_gone_example =
    remove_client_gone 4 (codes "news") one_listener
      (run-Consistent (sub 4 (codes "news") false ∷ []))

abbrev pub roomy : OpenIo
roomy = record { open_ok = true; stat_ok = true; room = 1000; sync_ok = true; truncate_ok = true }

abbrev pub commits : CommitIo
commits = record {
  stat_ok = true;
  sync_ok = true;
  close_ok = true;
  rename_ok = true;
  reopen_ok = true;
}

abbrev pub forks : ForkIo
forks = record { start = roomy; fork_ok = true; space = 1000; sync_ok = true }

abbrev outside : Outside
outside = record {
  info = λ d. ([], d);
  compact = λ d. ([], d);
  finish = record { exited = true; reaped = true; open_ok = true; space = 1000; commit = commits };
  due = forks;
  asked = forks;
}

execute-subscribed_example :
    (d : Db) × (d ≡ tend_rewrite world outside (record db { resp3 = false }))
    × Untouched (record db { resp3 = false }) d
    × (execute world outside 4 (codes "get" ∷ key_k ∷ []) false db
        ≡ answer (
          subscribed_error,
          record d { client_rooms = put 4 (client_room 4 db) db.client_rooms },
        ))
unfolding is_subscribed subscribe find put is_pubsub upper bytes_eq
execute-subscribed_example =
    execute-subscribed world outside 4 (codes "get") (key_k ∷ []) db refl refl
