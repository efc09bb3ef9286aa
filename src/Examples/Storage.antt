-- ===== src/Examples/Storage.antt =====
-- The storage on small inputs: src/storage/aof_manager.cpp, src/storage/eviction_manager.cpp,
-- src/storage/snapshot_manager.cpp.
use somnium_db.Prelude.{◌^◌, ◌≡◌, refl, arith, true, false, [], ◌∷◌, codes, bytes_Eq}
use somnium_db.Prelude.Int.{pos}
use somnium_db.Record.{Record}
use somnium_db.Aof.{AofRecord, Aof, AppendIo, always, aof_header}
use somnium_db.Aof.Append.{run-Stored, Stored}
use somnium_db.Cold
use somnium_db.Cold.Codec
use somnium_db.Snapshot
use somnium_db.Snapshot.RoundTrip

abbrev pub aof : Aof
aof = record {
  file = aof_header;
  fd_open = true;
  policy = always;
  healthy = true;
  torn = false;
  replaying = false;
  size = 29;
  synced = 29;
  base_size = 29;
  generation = 0;
  rewrite_min = 64;
  needs_rewrite = false;
  rewrite_open = false;
  draft = [];
  last_tail = 0;
}

abbrev pub fine : AppendIo
fine = record { open_ok = true; written = 1000; cut_ok = true; sync_ok = true }

-- The disk is full, and what was written cannot be cut off.
abbrev pub full : AppendIo
full = record { open_ok = true; written = 5; cut_ok = false; sync_ok = true }

abbrev pub set_k : AofRecord
set_k = record {
  room = codes "default";
  args = codes "SET" ∷ codes "k" ∷ codes "v" ∷ [];
  expire_at = pos 0;
  timestamp_ms = 65536;
  node_id = 1;
}

run-Stored_example : Stored ((fine, set_k) ∷ (full, set_k) ∷ (fine, set_k) ∷ []) aof
run-Stored_example = run-Stored ((fine, set_k) ∷ (full, set_k) ∷ (fine, set_k) ∷ []) aof refl

abbrev value_v : Record
value_v = record { value = codes "v"; expire_at = pos 9; timestamp_ms = 2 ^ 50; node_id = 3 }

abbrev value_v_Fits : Cold.Codec.Fits value_v
value_v_Fits = record {
  expire_low = omega arith;
  expire_high = omega arith;
  timestamp = omega arith;
  node = omega arith;
}

decode-encode_example : Cold.decode (Cold.encode value_v) ≡ value_v
decode-encode_example = Cold.Codec.decode-encode value_v value_v_Fits
