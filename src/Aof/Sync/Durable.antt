-- ===== src/Aof/Sync/Durable.antt =====
-- src/storage/aof_manager.cpp: what counts as synced is on the disk.
use somnium_db.Prelude.{
  ℕ, ◌+◌, ◌≤◌, ◌<◌, ◌≡◌, ◌∙◌, subst, refl, ◌⊎◌, inl, inr, Bool, length, arith, ◌&&◌, if◌then◌else◌,
}
use somnium_db.Prelude.Int.{w64}
use somnium_db.Aof.{AofRecord, Aof, AppendIo, append, encode_record}
use somnium_db.Aof.Rewrite.{
  OpenIo, start_rewrite, append_rewrite, abort_rewrite, append_tail, CommitIo, commit_rewrite,
}
use somnium_db.Aof.Sync.{
  Worker, idle, syncing, System, finish_sync, durable_append, durable_sync, renamed, Step, appended,
  captured, finished, rewrite_started, rewritten, aborted, tail_copied, committed, Steps, here,
  step,
}

-- A captured generation that is still current means the file that was captured, with the bytes that
-- were counted then.
abbrev pub WorkerInv : Worker → Aof → ℕ → Type 0
WorkerInv idle a inode = Unit
WorkerInv (syncing generation offset captured_inode) a inode =
    (generation ≤ a.generation)
    × ((generation < a.generation) ⊎ ((captured_inode ≡ inode) × (offset ≤ a.size)))

pub record SyncInv (s : System) : Type 0 where
  pub synced_durable : s.aof.synced ≤ s.durable
  pub synced_size : s.aof.synced ≤ s.aof.size
  pub worker : WorkerInv s.worker s.aof s.inode

-- The file may have shrunk only under a new generation.
abbrev Grows : Aof → Aof → ℕ → ℕ → Type 0
Grows a b i j =
    (a.generation < b.generation) ⊎ ((a.generation ≡ b.generation) × (a.size ≤ b.size) × (i ≡ j))

WorkerInv-Grows :
    (w : Worker) (a b : Aof) (i j : ℕ) → Grows a b i j → WorkerInv w a i → WorkerInv w b j
WorkerInv-Grows idle a b i j k h = tt
WorkerInv-Grows (syncing g o c) a b i j (inl newer) (le, h) = (omega arith, inl (omega arith))
WorkerInv-Grows (syncing g o c) a b i j (inr (same, more, e)) (le, inl h) =
    (omega arith, inl (omega arith))
WorkerInv-Grows (syncing g o c) a b i j (inr (same, more, e)) (le, inr (q, h)) =
    (omega arith, inr (q ∙ e, omega arith))

append-Grows :
    (io : AppendIo) (rec : AofRecord) (a : Aof) (i : ℕ)
    → a.size + length (encode_record rec) < w64
    → Grows a (append io rec a).1 i i
unfolding append
append-Grows io rec a i h = ground arith

append-synced_size :
    (io : AppendIo) (rec : AofRecord) (a : Aof)
    → a.size + length (encode_record rec) < w64
    → a.synced ≤ a.size
    → (append io rec a).1.synced ≤ (append io rec a).1.size
unfolding append
append-synced_size io rec a h k = ground arith

append-synced_durable :
    (io : AppendIo) (rec : AofRecord) (s : System)
    → s.aof.synced ≤ s.durable
    → (append io rec s.aof).1.synced ≤ durable_append io rec s
unfolding append durable_append
append-synced_durable io rec s k = ground arith

append-SyncInv :
    (io : AppendIo) (rec : AofRecord) (s : System)
    → s.aof.size + length (encode_record rec) < w64
    → SyncInv s
    → SyncInv (record s { aof = (append io rec s.aof).1; durable = durable_append io rec s })
append-SyncInv io rec s h inv = record {
  synced_durable = append-synced_durable io rec s inv.synced_durable;
  synced_size = append-synced_size io rec s.aof h inv.synced_size;
  worker = WorkerInv-Grows s.worker s.aof _ _ _ (append-Grows io rec s.aof s.inode h) inv.worker;
}

-- The parts of a rewrite that leave the file in place alone.
record Aside (a b : Aof) : Type 0 where
  generation : a.generation ≡ b.generation
  size : a.size ≡ b.size
  synced : a.synced ≡ b.synced

start_rewrite-Aside : (io : OpenIo) (a : Aof) → Aside a (start_rewrite io a).1
unfolding start_rewrite
start_rewrite-Aside io a = record {
  generation = ground arith;
  size = ground arith;
  synced = ground arith;
}

append_rewrite-Aside :
    (room : ℕ) (rec : AofRecord) (a : Aof) → Aside a (append_rewrite room rec a).1
unfolding append_rewrite
append_rewrite-Aside room rec a = record {
  generation = ground arith;
  size = ground arith;
  synced = ground arith;
}

abort_rewrite-Aside : (a : Aof) → Aside a (abort_rewrite a)
unfolding abort_rewrite
abort_rewrite-Aside a = record { generation = refl; size = refl; synced = refl }

append_tail-Aside :
    (open_ok : Bool) (room from : ℕ) (a : Aof) → Aside a (append_tail open_ok room from a).1
unfolding append_tail
append_tail-Aside open_ok room from a = record {
  generation = ground arith;
  size = ground arith;
  synced = ground arith;
}

Aside-SyncInv : (s : System) (b : Aof) → Aside s.aof b → SyncInv s → SyncInv (record s { aof = b })
Aside-SyncInv s b k inv = record {
  synced_durable = omega (arith, k.synced, inv.synced_durable);
  synced_size = omega (arith, k.synced, k.size, inv.synced_size);
  worker =
      WorkerInv-Grows s.worker s.aof b s.inode s.inode
        (inr (k.generation, omega (arith, k.size), refl)) inv.worker;
}

commit-SyncInv :
    (io : CommitIo) (s : System)
    → SyncInv s
    → SyncInv (record s {
      aof = (commit_rewrite io s.aof).1;
      inode = if renamed io s.aof then s.inode + 1 else s.inode;
      durable = if renamed io s.aof then length s.aof.draft else s.durable;
    })
unfolding commit_rewrite renamed
commit-SyncInv io s inv = record {
  synced_durable = ground (arith, inv.synced_durable);
  synced_size = ground (arith, inv.synced_size);
  worker = WorkerInv-Grows s.worker s.aof _ _ _ (ground arith) inv.worker;
}

finish_sync-SyncInv :
    (g o i : ℕ) (dup_ok sync_ok : Bool) (s : System)
    → s.worker ≡ syncing g o i
    → SyncInv s
    → SyncInv (record s {
      aof = finish_sync g o dup_ok (dup_ok && sync_ok) s.aof;
      worker = idle;
      durable = durable_sync o i (dup_ok && sync_ok) s;
    })
unfolding finish_sync durable_sync
finish_sync-SyncInv g o i dup_ok sync_ok s w inv =
    let h : WorkerInv (syncing g o i) s.aof s.inode =
      subst (λ v. WorkerInv v s.aof s.inode) w inv.worker in
    record {
      synced_durable = ground (arith, h.1, inv.synced_durable);
      synced_size = ground (arith, h.1, inv.synced_size);
      worker = tt;
    }

Step-SyncInv : {s t : System} → Step s t → SyncInv s → SyncInv t
Step-SyncInv (appended io rec s h) inv = append-SyncInv io rec s h inv
Step-SyncInv (captured s free due) inv = record {
  synced_durable = inv.synced_durable;
  synced_size = inv.synced_size;
  worker = (omega arith, inr (refl, omega arith));
}
Step-SyncInv (finished g o i dup_ok sync_ok s w) inv =
    finish_sync-SyncInv g o i dup_ok sync_ok s w inv
Step-SyncInv (rewrite_started io s) inv = Aside-SyncInv s _ (start_rewrite-Aside io s.aof) inv
Step-SyncInv (rewritten room rec s) inv =
    Aside-SyncInv s _ (append_rewrite-Aside room rec s.aof) inv
Step-SyncInv (aborted s) inv = Aside-SyncInv s _ (abort_rewrite-Aside s.aof) inv
Step-SyncInv (tail_copied open_ok room from s) inv =
    Aside-SyncInv s _ (append_tail-Aside open_ok room from s.aof) inv
Step-SyncInv (committed io s) inv = commit-SyncInv io s inv

-- However the appends, the rewrites and the syncs of the worker interleave: no more counts as synced
-- than the file in place holds for good, and no more than was written.
pub Steps-SyncInv : {s t : System} → Steps s t → SyncInv s → SyncInv t
Steps-SyncInv here inv = inv
Steps-SyncInv (step one rest) inv = Steps-SyncInv rest (Step-SyncInv one inv)
