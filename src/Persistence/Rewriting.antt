-- ===== src/Persistence/Rewriting.antt =====
-- src/core/persistence.cpp: the append-only file is written anew from the state, at once or by a child
-- process while commands go on. What `fork` and `waitpid` answer is given.
pub mod Discards
pub mod Sound
use somnium_db.Prelude.{
  ℕ, ◌+◌, ◌-◌, ◌^◌, Bool, true, false, not, ◌&&◌, ◌||◌, List, [], ◌∷◌, ◌++◌, length, take, Bytes,
  bytes_Eq, line, ltb, leb, if◌then◌else◌,
}
use somnium_db.Prelude.Map.{Map, erase}
use somnium_db.Aof.{AofRecord, Aof, encode_record}
use somnium_db.Aof.Rewrite.{
  OpenIo, start_rewrite, append_rewrite, abort_rewrite, append_tail, CommitIo, commit_rewrite,
}
use somnium_db.State.{World, Db, Room, Background}
use somnium_db.Rooms.{is_sleeping}
use somnium_db.Persistence.Dump.{dump_state}

-- `space` is how many bytes the temporary file takes behind its header.
pub record RewriteIo : Type 0 where
  pub start : OpenIo
  pub space : ℕ
  pub commit : CommitIo

-- The files of rooms that are awake go: the new log does not hold the deletions since.
unfoldable pub discard_active : Map Bytes Room → Map Bytes Bytes → Map Bytes Bytes
discard_active [] files = files
discard_active ((name, room) ∷ rooms) files =
    discard_active rooms (if is_sleeping room.state then files else erase name files)

unfoldable pub discard_active_snapshots : Db → Db
unfolding discard_active
discard_active_snapshots db = record db { snapshots = discard_active db.rooms db.snapshots }

-- The lambda that `rewrite_aof` passes on.
unfoldable pub write_through : AofRecord → ℕ × Aof → Bool × (ℕ × Aof)
write_through rec (space, a) =
    let (ok, b) = append_rewrite space rec a in (ok, (space - length (encode_record rec), b))

-- What follows the dump: the new file replaces the old one, or is given up.
unfoldable pub after_dump : RewriteIo → Bool × (Db × (ℕ × Aof)) → Bool × Db
after_dump io (false, (db, (space, a))) = (false, record db { aof = abort_rewrite a })
after_dump io (true, (db, (space, a))) =
    let (done, b) = commit_rewrite io.commit a in (done, record db { aof = b })

-- `rewrite_aof`, behind the start.
unfoldable pub rewrite_started : RewriteIo → World → Db → Bool × Db
unfolding dump_state write_through after_dump
rewrite_started io w db = after_dump io (dump_state write_through w (db, (io.space, db.aof)))

unfoldable pub rewrite_aof : RewriteIo → World → Db → Bool × Db
unfolding rewrite_started discard_active_snapshots
rewrite_aof io w db =
    let (ok, a) = start_rewrite io.start db.aof in
    let started : Db = record db { aof = a } in
    if not ok then (false, started) else rewrite_started io w (discard_active_snapshots started)

-- What the child keeps: the buffer, the temporary file, and how much more that takes.
pub record Child : Type 0 where
  pub buf : Bytes
  pub draft : Bytes
  pub space : ℕ

unfoldable pub flush : Child → Bool × Child
flush c =
    if ltb c.space (length c.buf)
    then (false, record { buf = []; draft = c.draft ++ take c.space c.buf; space = 0 })
    else (true, record { buf = []; draft = c.draft ++ c.buf; space = c.space - length c.buf })

abbrev pub child_buffer : ℕ
child_buffer = 2 ^ 16

-- The child's lambda `write`.
unfoldable pub child_write : AofRecord → Child → Bool × Child
unfolding flush
child_write rec c =
    let full : Child = record c { buf = c.buf ++ encode_record rec } in
    if leb child_buffer (length full.buf) then flush full else (true, full)

unfoldable pub after_child : Bool → Bool × (Db × Child) → Bool × (Db × Child)
unfolding flush
after_child sync_ok (false, out) = (false, out)
after_child sync_ok (true, (db, c)) = let (flushed, d) = flush c in (flushed && sync_ok, (db, d))

-- What the child comes to: its exit status, and what the temporary file then holds.
unfoldable pub run_child : ℕ → Bool → World → Db → Bool × (Db × Child)
unfolding child_write dump_state after_child
run_child space sync_ok w db =
    after_child sync_ok
      (dump_state child_write w (db, record { buf = []; draft = db.aof.draft; space = space }))

pub record ForkIo : Type 0 where
  pub start : OpenIo
  pub fork_ok : Bool
  pub space : ℕ
  pub sync_ok : Bool

-- The child works on a copy of the memory as it is at the fork; the files are shared.
unfoldable pub forked : ForkIo → World → Db → Bytes × (Background × Db)
unfolding run_child
forked io w db =
    let (ok, (child_db, c)) = run_child io.space io.sync_ok w db in
    (
      line "+Background AOF rewrite started",
      (
        record { running = true; from = db.aof.size; child_ok = ok },
        record db { snapshots = child_db.snapshots; aof = record db.aof { draft = c.draft } },
      ),
    )

unfoldable pub start_background_rewrite :
    ForkIo → World → Background × Db → Bytes × (Background × Db)
unfolding forked discard_active_snapshots
start_background_rewrite io w (b, db) =
    let (ok, a) = start_rewrite io.start db.aof in
    let started : Db = discard_active_snapshots (record db { aof = a }) in
    if b.running
    then (line "-ERR AOF rewrite already in progress", (b, db))
    else if not ok
    then (line "-ERR AOF rewrite failed, previous AOF kept", (b, record db { aof = a }))
    else if not io.fork_ok
    then (
      line "-ERR AOF rewrite failed (fork), previous AOF kept",
      (record b { from = started.aof.size }, record started { aof = abort_rewrite started.aof }),
    )
    else forked io w started

-- `exited` is whether `waitpid` found the child ended, `reaped` whether it gave its status.
unfoldable pub finish_background_rewrite :
    Bool → Bool → Bool → ℕ → CommitIo → Background × Db → Background × Db
finish_background_rewrite exited reaped open_ok space io (b, db) =
    let ended : Background = record b { running = false } in
    let (copied, tailed) = append_tail open_ok space b.from db.aof in
    let (done, a) = commit_rewrite io tailed in
    if not b.running || not exited
    then (b, db)
    else if not (reaped && b.child_ok)
    then (ended, record db { aof = abort_rewrite db.aof })
    else if not copied
    then (ended, record db { aof = abort_rewrite tailed })
    else if not done
    then (ended, record db { aof = abort_rewrite a })
    else (ended, record db { aof = a })
