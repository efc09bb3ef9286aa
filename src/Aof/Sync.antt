-- ===== src/Aof/Sync.antt =====
-- src/storage/aof_manager.cpp, `sync_worker`: the thread that syncs the file while others write to
-- it. A step is what one holder of `mutex_` does; between the two steps of the worker it is unlocked.
-- The pauses between rounds are not modelled, nor is what only feeds the metrics. A file is known by
-- the number `inode`, and of the file in place `durable` bytes at least are on the disk for good: this
-- is what `fdatasync` and `rename` promise.
pub mod Durable
use somnium_db.Prelude.{
  ℕ, ◌+◌, ◌<◌, ◌≡◌, Bool, true, false, not, ◌&&◌, length, ltb, leb, ◌==◌, if◌then◌else◌, max,
}
use somnium_db.Prelude.Int.{w64}
use somnium_db.Aof.{AofRecord, Aof, AofSync, always, everysec, off, AppendIo, append, encode_record}
use somnium_db.Aof.Rewrite.{
  OpenIo, start_rewrite, append_rewrite, abort_rewrite, append_tail, CommitIo, commit_rewrite,
}

-- The locals of the worker while the mutex is free, with the file that `dupfd` stands for.
pub data Worker : Type 0 where
  idle : Worker
  syncing : (generation offset inode : ℕ) → Worker

pub record System : Type 0 where
  pub aof : Aof
  pub worker : Worker
  pub inode : ℕ
  pub durable : ℕ

-- The condition under which the worker goes on to a sync.
unfoldable pub sync_due : Aof → Bool
sync_due a = a.fd_open && ltb a.synced a.size

-- Behind `lock.lock()`: only the generation that was captured is marked as synced.
unfoldable pub finish_sync : ℕ → ℕ → Bool → Bool → Aof → Aof
finish_sync generation offset dup_ok sync_ok a =
    if dup_ok && (generation == a.generation)
    then if not sync_ok
      then record a { healthy = false }
      else if ltb a.synced offset
      then record a { synced = offset }
      else a
    else a

-- An append under `always` that returns true has called `fdatasync`.
unfoldable pub durable_append : AppendIo → AofRecord → System → ℕ
durable_append io rec s = elim s.aof.policy [
  | always ↦
      if (append io rec s.aof).0 then max s.durable (append io rec s.aof).1.size else s.durable
  | everysec ↦ s.durable
  | off ↦ s.durable
]

-- `fdatasync` on `dupfd`.
unfoldable pub durable_sync : ℕ → ℕ → Bool → System → ℕ
durable_sync offset inode ok s =
    if ok && (inode == s.inode) then max s.durable offset else s.durable

-- The new file, synced, has taken the place of the old one.
unfoldable pub renamed : CommitIo → Aof → Bool
renamed io a = a.rewrite_open && (io.sync_ok && (io.close_ok && io.rename_ok))

pub data Step : System → System → Type 0 where
  appended :
      (io : AppendIo) (rec : AofRecord) (s : System)
      → s.aof.size + length (encode_record rec) < w64
      → Step s (record s { aof = (append io rec s.aof).1; durable = durable_append io rec s })
  captured :
      (s : System)
      → s.worker ≡ idle
      → sync_due s.aof ≡ true
      → Step s (record s { worker = syncing s.aof.generation s.aof.size s.inode })
  finished :
      (generation offset inode : ℕ) (dup_ok sync_ok : Bool) (s : System)
      → s.worker ≡ syncing generation offset inode
      → Step s (record s {
        aof = finish_sync generation offset dup_ok (dup_ok && sync_ok) s.aof;
        worker = idle;
        durable = durable_sync offset inode (dup_ok && sync_ok) s;
      })
  rewrite_started :
      (io : OpenIo) (s : System) → Step s (record s { aof = (start_rewrite io s.aof).1 })
  rewritten :
      (room : ℕ) (rec : AofRecord) (s : System)
      → Step s (record s { aof = (append_rewrite room rec s.aof).1 })
  aborted : (s : System) → Step s (record s { aof = abort_rewrite s.aof })
  tail_copied :
      (open_ok : Bool) (room from : ℕ) (s : System)
      → Step s (record s { aof = (append_tail open_ok room from s.aof).1 })
  committed :
      (io : CommitIo) (s : System)
      → Step s (record s {
        aof = (commit_rewrite io s.aof).1;
        inode = if renamed io s.aof then s.inode + 1 else s.inode;
        durable = if renamed io s.aof then length s.aof.draft else s.durable;
      })

pub data Steps : System → System → Type 0 where
  here : {s : System} → Steps s s
  step : {s t u : System} → Step s t → Steps t u → Steps s u
