-- ===== src/Examples/Compaction.antt =====
-- The compaction of cold.bin on a small input: src/storage/eviction_manager.cpp.
use somnium_db.Prelude.{◌≡◌, refl, true, false, [], ◌∷◌, ◌++◌, codes, Bytes, bytes_Eq}
use somnium_db.Prelude.Int.{pos, negsuc}
use somnium_db.Record.{expired}
use somnium_db.Word.{le_bytes, of_le, of_u64}
use somnium_db.Prelude.Map.{put, find}
use somnium_db.Sketch
use somnium_db.Cold.{Cold, encode, decode, remember}
use somnium_db.Cold.Compact.{CompactIo, compact}
use somnium_db.Examples.Server.{disk}

abbrev live : Bytes
live = encode (record { value = codes "v"; expire_at = pos 0; timestamp_ms = 7; node_id = 1 })

abbrev gone : Bytes
gone = encode (record { value = codes "w"; expire_at = pos 3; timestamp_ms = 7; node_id = 1 })

-- An expired record, one that nothing refers to, and one that is live.
abbrev cold : Cold
cold = record {
  sketch = Sketch.empty;
  index =
      (
        codes "r",
        (codes "w", record { off = 0; len = 21 }) ∷ (codes "v", record { off = 42; len = 21 }) ∷ [],
      )
      ∷ [];
  file = gone ++ (gone ++ live);
  fd_open = true;
  file_bytes = 63;
  obsolete_bytes = 21;
  max_keys = 10;
  max_bytes = 0;
}

abbrev compacted : Cold
compacted = record cold {
  index = (codes "r", (codes "v", record { off = 0; len = 21 }) ∷ []) ∷ [];
  file = live;
  file_bytes = 21;
  obsolete_bytes = 0;
}

abbrev fine : CompactIo
fine = record { opened = true; write_all = λ n. true; renamed = true }

abbrev full : CompactIo
full = record { opened = true; write_all = λ n. false; renamed = true }

compact_live : compact fine disk 0 (pos 9) cold ≡ (pos 42, compacted)
unfolding compact encode decode le_bytes of_le of_u64 expired remember put find
compact_live = refl

compact_full : compact full disk 0 (pos 9) cold ≡ (negsuc 0, cold)
unfolding compact encode decode le_bytes of_le of_u64 expired
compact_full = refl
