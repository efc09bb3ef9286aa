-- ===== src/Examples/Recovery.antt =====
-- Restarts and rewrites on small inputs: src/storage/aof_manager.cpp, src/core/persistence.cpp.
use somnium_db.Prelude.{
  ℕ, ◌+◌, ◌^◌, ◌≤◌, ◌<◌, ◌≡◌, refl, sym, subst, arith, true, false, some, none, List, [], ◌∷◌, ◌++◌,
  length, take, Bytes, codes, bytes_Eq, bytes_eq, upper, toupper,
}
use somnium_db.Prelude.Int.{w64, pos}
use somnium_db.Prelude.Map.{find}
use somnium_db.Hlc.{normalize}
use somnium_db.FsUtil.{to_string, to_string_ℤ, digits}
use somnium_db.Resp.Encode.{bulk_string, bulk_strings}
use somnium_db.Record.{expired}
use somnium_db.Aof.{AofRecord, Aof, AppendIo, v3, aof_header, append, encode_record, tokens_of}
use somnium_db.Aof.Append.{encode_all, run, acked, records, Within, Part, Part-take}
use somnium_db.Aof.Rewrite.{OpenIo, CommitIo, start_rewrite, commit_rewrite, append_tail}
use somnium_db.Aof.Recovery.{no_log, recover_file, at_end}
use somnium_db.Aof.Recovery.Chunks.{Recovers, recover_file-Recovers}
use somnium_db.Aof.Recovery.Whole.{Fits, AllFit, ending, recover_file-records}
use somnium_db.Aof.Recovery.Crash.{recover_file-crash, recover_file-run}
use somnium_db.Aof.Sync.{
  System, idle, sync_due, here, step, captured, finished, appended, syncing, finish_sync,
  durable_sync, durable_append,
}
use somnium_db.Aof.Sync.Durable.{SyncInv, Steps-SyncInv}
use somnium_db.State.{Session, Db, Version}
use somnium_db.Access.Accounts.{Accounted}
use somnium_db.Persistence.{replay_command}
use somnium_db.Persistence.Accounts.{replay_command-Accounted}
use somnium_db.Persistence.Dump.{set_record, del_record, emit_keys, emit_tombs}
use somnium_db.Persistence.Dump.Simulates.{note, dumped}
use somnium_db.Persistence.Dump.Standing.{
  standing, room_records, live_records, held_keys, cold_records, all_tomb_records, tomb_records,
}
use somnium_db.Disk.{IsDisk}
use somnium_db.Persistence.RoundTrip.{alive, unless_dead, replay_each, replay-dumped}
use somnium_db.Persistence.Rewriting.{
  RewriteIo, discard_active_snapshots, rewrite_aof, forked, finish_background_rewrite,
}
use somnium_db.Persistence.Rewriting.Sound.{rewrite_aof-recovered, finish_background_rewrite-file}
use somnium_db.Examples.Storage.{aof, fine, full, set_k}
use somnium_db.Examples.Server.{
  disk, roomy, commits, forks, key_k, record_v, db, world, session, session-Accounted,
}

set_k_Fits : Fits set_k
unfolding tokens_of to_string digits to_string_ℤ
set_k_Fits = record {
  fields = record {
    expire_low = omega arith;
    expire_high = omega arith;
    timestamp = omega arith;
    node = omega arith;
  };
  count = omega arith;
  bulks = (
    omega arith,
    (
      omega arith,
      (omega arith, (omega arith, (omega arith, (omega arith, (omega arith, (omega arith, tt)))))),
    ),
  );
}

recover_file-Recovers_example :
    Recovers 0
      (aof_header ++ encode_record set_k)
      no_log
      (recover_file (aof_header ++ encode_record set_k))
recover_file-Recovers_example = recover_file-Recovers (aof_header ++ encode_record set_k)

-- Five bytes of a record.
five : Part (set_k ∷ []) (take 5 (encode_record set_k))
unfolding encode_record to_string bulk_strings bulk_string
five = Part-take set_k [] 5 (omega arith)

recover_file-records_example :
    recover_file (aof_header ++ (encode_all (set_k ∷ set_k ∷ []) ++ take 5 (encode_record set_k)))
    ≡ (
      record { fmt = some v3; needs_rewrite = false; replayed = set_k ∷ set_k ∷ [] },
      ending
          (length (aof_header ++ encode_all (set_k ∷ set_k ∷ [])))
          (take 5 (encode_record set_k)),
    )
recover_file-records_example =
    recover_file-records (set_k ∷ set_k ∷ []) (set_k ∷ []) (take 5 (encode_record set_k))
      (set_k_Fits, (set_k_Fits, tt)) (set_k_Fits, tt) five

recover_file-crash_example :
    (more lost : List AofRecord) × (set_k ∷ set_k ∷ [] ≡ more ++ lost)
    × ((recover_file (take 200 (aof_header ++ encode_all (set_k ∷ set_k ∷ set_k ∷ [])))).0.replayed
        ≡ set_k ∷ more)
    × ((recover_file
          (take 200 (aof_header ++ encode_all (set_k ∷ set_k ∷ set_k ∷ [])))).0.needs_rewrite
        ≡ false)
unfolding encode_record to_string digits to_string_ℤ bulk_string bulk_strings
recover_file-crash_example =
    recover_file-crash (set_k ∷ []) (set_k ∷ set_k ∷ []) 200 (set_k_Fits, tt)
      (set_k_Fits, (set_k_Fits, tt)) (omega arith)

-- An append that works, one on a full disk, and one on the torn file.
abbrev ops : List (AppendIo × AofRecord)
ops = (fine, set_k) ∷ (full, set_k) ∷ (fine, set_k) ∷ []

recover_file-run_example :
    (stored : List AofRecord) × ((recover_file (run ops aof).file).0.replayed ≡ [] ++ stored)
    × Within (acked ops aof) stored
    × Within stored (records ops)
recover_file-run_example =
    recover_file-run [] ops aof refl refl tt (set_k_Fits, (set_k_Fits, (set_k_Fits, tt)))

replay_command-Accounted_example : Accounted 0 0 (replay_command set_k (codes "SET") session).1
replay_command-Accounted_example =
    replay_command-Accounted 0 0 set_k (codes "SET") session session-Accounted

abbrev empty_session : Session
empty_session = record session { room = record session.room { keys = [] } }

abbrev dead : Version
dead = record { ts = 70000; node = 2 }

replay-dumped_example :
    find key_k
      (replay_each
        (emit_tombs note
          (codes "default")
          ((codes "gone", dead) ∷ [])
          (emit_keys note (pos 5) (codes "default") ((key_k, record_v) ∷ []) (true, []))).1
        empty_session).room.keys
    ≡ unless_dead
        (find key_k ((codes "gone", dead) ∷ []))
        (alive (pos 5) (find key_k ((key_k, record_v) ∷ [])))
unfolding normalize find
replay-dumped_example =
    replay-dumped (pos 5) (codes "default") ((key_k, record_v) ∷ []) ((codes "gone", dead) ∷ [])
      empty_session key_k (refl, tt) (record { timestamp = refl; node = omega arith }, tt) refl

abbrev rewrites : RewriteIo
rewrites = record { start = roomy; space = 1000; commit = commits }

abbrev system : System
system = record { aof = record aof { synced = 0 }; worker = idle; inode = 0; durable = 0 }

Steps-SyncInv_example : SyncInv (record system {
  aof = finish_sync 0 29 true true (append fine set_k system.aof).1;
  worker = idle;
  durable = durable_sync 29 0 true (record system {
    aof = (append fine set_k system.aof).1;
    durable = durable_append fine set_k (record system { worker = syncing 0 29 0 });
    worker = syncing 0 29 0;
  });
})
unfolding sync_due encode_record to_string digits to_string_ℤ bulk_string bulk_strings
Steps-SyncInv_example =
    Steps-SyncInv
      (step (captured system refl refl) (
        step (appended fine set_k (record system { worker = syncing 0 29 0 }) (omega arith))
          (step (finished 0 29 0 true true _ refl) here)))
      (record { synced_durable = omega arith; synced_size = omega arith; worker = tt })

-- The state that is dumped: one key, and one tombstone.
abbrev dumped_records : List AofRecord
dumped_records =
    record {
      room = codes "default";
      args = codes "SET" ∷ key_k ∷ codes "v" ∷ [];
      expire_at = pos 9;
      timestamp_ms = 2 ^ 50;
      node_id = 3;
    }
    ∷ record {
      room = codes "default";
      args = codes "DEL" ∷ codes "gone" ∷ [];
      expire_at = pos 0;
      timestamp_ms = 70000;
      node_id = 2;
    }
    ∷ []

dumped_records_fit : AllFit dumped_records
unfolding tokens_of to_string digits to_string_ℤ
dumped_records_fit = (fit₁, (fit₂, tt))
  where
    fit₁ : Fits (record {
      room = codes "default";
      args = codes "SET" ∷ key_k ∷ codes "v" ∷ [];
      expire_at = pos 9;
      timestamp_ms = 2 ^ 50;
      node_id = 3;
    })
    fit₁ = record {
      fields = record {
        expire_low = omega arith;
        expire_high = omega arith;
        timestamp = omega arith;
        node = omega arith;
      };
      count = omega arith;
      bulks = (
        omega arith,
        (
          omega arith,
          (
            omega arith,
            (omega arith, (omega arith, (omega arith, (omega arith, (omega arith, tt))))),
          ),
        ),
      );
    }

    fit₂ : Fits (record {
      room = codes "default";
      args = codes "DEL" ∷ codes "gone" ∷ [];
      expire_at = pos 0;
      timestamp_ms = 70000;
      node_id = 2;
    })
    fit₂ = record {
      fields = record {
        expire_low = omega arith;
        expire_high = omega arith;
        timestamp = omega arith;
        node = omega arith;
      };
      count = omega arith;
      bulks = (
        omega arith,
        (
          omega arith,
          (omega arith, (omega arith, (omega arith, (omega arith, (omega arith, tt))))),
        ),
      );
    }

disk_IsDisk : IsDisk disk
disk_IsDisk = record { reads = λ n file bytes len off h. ground (arith, h) }

abbrev started : Db
started = discard_active_snapshots (record db { aof = (start_rewrite roomy aof).1 })

rewrite_works : (rewrite_aof rewrites world db).0 ≡ true
unfolding rewrite_aof encode_record dumped start_rewrite tokens_of to_string digits to_string_ℤ
    expired somnium_db.Prelude.Int.◌+ℤ◌ somnium_db.Aof.Rewrite.append_rewrite bulk_strings
    bulk_string del_record commit_rewrite
rewrite_works = refl

db_records : standing world db ≡ dumped_records
unfolding standing expired somnium_db.Prelude.Int.◌+ℤ◌ set_record del_record room_records
    live_records held_keys cold_records all_tomb_records tomb_records
db_records = refl

rewrite_aof-recovered_example :
    ((recover_file (rewrite_aof rewrites world db).1.aof.file).0.replayed ≡ standing world db)
    × ((recover_file (rewrite_aof rewrites world db).1.aof.file).0.needs_rewrite ≡ false)
    × ((recover_file (rewrite_aof rewrites world db).1.aof.file).1 ≡ at_end)
unfolding find
rewrite_aof-recovered_example =
    rewrite_aof-recovered rewrites world db disk_IsDisk (refl, tt) refl rewrite_works
      (subst AllFit (sym db_records) dumped_records_fit)

abbrev at_fork : Aof
at_fork = (forked forks world started).1.1.aof

child_works : (forked forks world started).1.0.child_ok ≡ true
unfolding forked encode_record dumped start_rewrite tokens_of to_string digits to_string_ℤ expired
    somnium_db.Prelude.Int.◌+ℤ◌ bulk_strings bulk_string del_record discard_active_snapshots
child_works = refl

fork_small : length (run ops at_fork).file ≤ 1000
unfolding forked encode_record append start_rewrite discard_active_snapshots to_string digits
    to_string_ℤ bulk_strings bulk_string tokens_of
fork_small = omega arith

commit_works :
    (commit_rewrite commits (append_tail true 1000 started.aof.size (run ops at_fork)).1).0 ≡ true
unfolding forked append start_rewrite discard_active_snapshots append_tail commit_rewrite
    encode_record to_string bulk_strings bulk_string to_string_ℤ
commit_works = refl

finish_background_rewrite-file_example :
    (stored : List AofRecord) × ((finish_background_rewrite true true true 1000 commits (
      (forked forks world started).1.0,
      record (forked forks world started).1.1 { aof = run ops at_fork },
    )).1.aof.file
      ≡ aof_header ++ encode_all (standing world started ++ stored))
    × Within (acked ops at_fork) stored
    × Within stored (records ops)
unfolding start_rewrite discard_active_snapshots
finish_background_rewrite-file_example =
    finish_background_rewrite-file forks world started ops 1000 commits disk_IsDisk refl refl refl
      refl child_works (omega (arith, fork_small)) fork_small commit_works
