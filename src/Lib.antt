-- ===== src/Lib.antt =====
-- SomniumDB: a key-value server with rooms, CRDT versions, an append-only file, snapshots, cold
-- storage and publish/subscribe. This library models its own logic, file by file, and proves what makes
-- each part correct.
--
-- The configuration comes from the environment (src/config.cpp, Config). A command arrives as bytes in
-- the buffer of a connection (src/net/connection.cpp, Connection) and is parsed (src/core/resp.h, modules
-- Resp and Resp.Inline); AUTH and HELLO belong to the connection (src/net/auth.cpp, Auth); everything else reaches `Database::execute`
-- (src/core/database.cpp, Dispatch), which picks a handler. A handler on keys runs in the client's room,
-- woken and locked (src/core/rooms.cpp, Rooms; src/core/commands.cpp, Commands, Keys and Expiry;
-- src/core/crdt.cpp, Crdt and Tombstones), reaches records through `lookup`, `insert`, `set_value` and
-- `erase` (src/core/database.cpp, Access), and logs its effect (src/storage/aof_manager.cpp, Aof). Behind
-- each command the least used keys move to cold storage (src/storage/eviction_manager.cpp, Evict and Cold,
-- with the counts of src/utils/count_min_sketch.h, Sketch). A room that sleeps lives in a snapshot file
-- (src/storage/snapshot_manager.cpp, Snapshot, with the save in Snapshot.Save). Versions come from src/core/hlc.h (Hlc), numbers are read
-- by src/storage/fs_util.h (FsUtil), and src/core/pubsub.cpp is PubSub.
--
-- How the state corresponds. State holds the members of `Database` and of the global metrics as one
-- record, and a handler is a function on a session: that record and the room that the handler holds
-- locked. A pointer to a record is the record with its key, and an assignment through it replaces the
-- entry. Hash maps are association lists, in some order; sets are lists without repetition. Machine
-- integers are natural numbers whose wrap-around is written out, and a `long long` is an integer with the
-- guards that the source writes. Bytes are numbers.
--
-- What comes from outside is a parameter: World numbers the calls of the clock, the disk, the AOF's system
-- calls, the random generator and the snapshot files; Disk states what POSIX documents of a transfer that
-- works. The bodies of INFO and COMPACT, and what the system answers to the rewrites of one command, are
-- the parameter Outside of Dispatch; what COMPACT calls is Cold.Compact.
--
-- The AOF and restarts. Aof.Recovery reads the file back (`recover`), Aof.Rewrite writes it anew and
-- replaces it, and Aof.Sync is the thread that syncs it, as steps between which the others run.
-- Persistence applies the records at the start (src/core/persistence.cpp, `replay_record`),
-- Persistence.Dump writes the state as records (Persistence.Dump.Standing says which, without its loops), and Persistence.Rewriting joins them, at once or with a
-- forked child, which is a copy of the state at the fork.
--
-- Fuel. The eviction loop gets as many rounds as the room has keys, and Evict.Limits shows that it never
-- needs more. The loop that reads a snapshot gets the length of the file, of which a round uses up at
-- least 24 bytes. Recovery gets one round more than the file has bytes, and as many reads as bytes are
-- left: Aof.Recovery.Reads and Aof.Recovery.Chunks show that it never runs out. The copy of the tail gets as many rounds as the
-- file has bytes, a turn of a client at most the 8192 commands of the source, a line and a list of peers
-- one round for each byte; the print of a number gets one round more than the number, and each divides by ten.
--
-- Not modelled: locks and timers, and of the threads all but the sync worker; sockets and the event
-- loop; the replicator; the metrics exporter; TLS; the pool allocator, since
-- records are values here.
--
-- Triple is the logic of a handler: what holds before an action, and then behind it. Prelude has the
-- shared names, with maps, sets, bytes and integers; Word has little-endian numbers. Examples runs the
-- model on small inputs.
pub mod Prelude
pub mod Hlc
pub mod FsUtil
pub mod Resp
pub mod Sketch
pub mod Record
pub mod Word
pub mod Aof
pub mod Disk
pub mod Cold
pub mod PubSub
pub mod Snapshot
pub mod State
pub mod Triple
pub mod Access
pub mod Tombstones
pub mod Writes
pub mod Commands
pub mod Keys
pub mod Crdt
pub mod Config
pub mod Connection
pub mod Persistence
pub mod Evict
pub mod Rooms
pub mod Auth
pub mod Expiry
pub mod Dispatch
pub mod Examples
