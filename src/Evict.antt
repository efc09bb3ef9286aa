-- ===== src/Evict.antt =====
-- src/storage/eviction_manager.cpp, `evict_despised_keys`: the least used keys move to cold storage.
pub mod Limits
use somnium_db.Prelude.{
  ℕ, zero, suc, ◌+◌, ◌-◌, Bool, true, false, not, ◌||◌, ◌&&◌, Option, none, some, [], ◌∷◌, length,
  Bytes, bytes_Eq, ltb, ◌==◌, if◌then◌else◌,
}
use somnium_db.Prelude.Int.{pos, ◌-ℤ◌, w64}
use somnium_db.Prelude.Map.{find, erase}
use somnium_db.Record.{Record, record_cost}
use somnium_db.Cold
use somnium_db.Cold.{fits, remember, choose, Sample}
use somnium_db.State.{
  Session, World, M, Metrics, ◌>>=◌, ◌>>◌, pure, with_db, with_room, with_metrics, add_u64, charge,
}

-- The loop goes on: the room has keys, and is over its number of keys or the memory over its bytes.
unfoldable pub over_limits : Session → Bool
over_limits s =
    not (length s.room.keys == 0)
    && (ltb s.db.cold.max_keys (length s.room.keys)
        || not (fits s.db.metrics.resident_bytes 0 s.db.cold))

-- The write worked: the record is in the index, and out of memory.
unfoldable pub move_out : Bytes → Record → M (Unit {0})
unfolding charge
move_out key r = do
  λ s.
      let size : ℕ = length (Cold.encode r) in
      (
        tt,
        record s {
          db = record s.db {
            cold = record s.db.cold {
              index =
                  remember s.room.name key (record { off = s.db.cold.file_bytes; len = size })
                    s.db.cold.index;
              file_bytes = add_u64 s.db.cold.file_bytes size;
            };
          };
        },
      )
  with_metrics (λ m. record m {
    keys_evicted = add_u64 m.keys_evicted 1;
    keys_in_ram = add_u64 m.keys_in_ram (w64 - 1);
  })
  charge (pos 0 -ℤ pos (record_cost key r))
  with_room (λ room. record room { keys = erase key room.keys })

-- `pwrite_all` at the logical end of cold.bin; false if there is no file.
unfoldable pub write_cold : World → Bytes → M Bool
write_cold w text s =
    if not s.db.cold.fd_open
    then (false, s)
    else let (ok, file) = w.disk.pwrite_all s.db.calls s.db.cold.file text s.db.cold.file_bytes in
      (
        ok,
        record s {
          db = record s.db { cold = record s.db.cold { file = file }; calls = s.db.calls + 1 };
        },
      )

-- The victim is written out; false ends the loop, with the record still in memory.
unfoldable pub evict_record : World → Bytes → Record → M Bool
unfolding write_cold move_out
evict_record w key r = do
  ok ← write_cold w (Cold.encode r)
  if not ok then pure false else (do move_out key r; pure true)

unfoldable pub evict_found : World → Bytes → Option Record → M Bool
unfolding evict_record
evict_found w key none = pure false
evict_found w key (some r) = evict_record w key r

unfoldable pub evict_victim : World → Option Bytes → M Bool
unfolding evict_found
evict_victim w none s = (false, s)
evict_victim w (some key) s = evict_found w key (find key s.room.keys) s

-- One round of the loop.
unfoldable pub evict_one : World → M Bool
unfolding evict_victim
evict_one w s =
    let chosen : Sample = choose w.draw s.db.cold.sketch s.room.keys s.db.calls in
    evict_victim w chosen.victim (record s { db = record s.db { calls = chosen.draws } })

-- A round takes a key out of memory or ends the loop, so the number of keys is fuel enough.
unfoldable pub evict_rounds : World → ℕ → M (Unit {0})
unfolding over_limits evict_one
evict_rounds w zero s = (tt, s)
evict_rounds w (suc fuel) s =
    let (went_on, s') = evict_one w s in
    let more : Unit {0} × Session = evict_rounds w fuel s' in
    if not (over_limits s) then (tt, s) else if went_on then more else (tt, s')

unfoldable pub evict_despised_keys : World → M (Unit {0})
unfolding evict_rounds
evict_despised_keys w s = evict_rounds w (length s.room.keys) s
