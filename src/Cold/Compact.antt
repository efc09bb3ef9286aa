-- ===== src/Cold/Compact.antt =====
-- src/storage/eviction_manager.cpp, `compact`: cold.bin is written again without the records that
-- have expired and the bytes that nothing refers to.
use somnium_db.Prelude.{
  ℕ, ◌+◌, ◌-◌, ◌%◌, Bool, true, false, not, Option, none, some, [], ◌∷◌, ◌++◌, Bytes, bytes_Eq,
  if◌then◌else◌,
}
use somnium_db.Prelude.Int.{ℤ, negsuc, w64}
use somnium_db.Prelude.Map.{Map}
use somnium_db.Word.{of_u64}
use somnium_db.Record.{expired}
use somnium_db.Disk.{Disk}
use somnium_db.Cold.{ColdRef, Cold, decode, remember}

-- What the calls on cold.bin.tmp answer: `open`, `write_all` (by the reads before it) and `rename`.
pub record CompactIo : Type 0 where
  pub opened : Bool
  pub write_all : ℕ → Bool
  pub renamed : Bool

-- The locals `fresh` and `size`, what `out` holds, and the calls of the disk so far.
pub record Fresh : Type 0 where
  pub index : Map Bytes (Map Bytes ColdRef)
  pub size : ℕ
  pub out : Bytes
  pub calls : ℕ

abbrev no_fresh : ℕ → Fresh
no_fresh n = record { index = []; size = 0; out = []; calls = n }

-- The entry's record is written at the end of the new file.
unfoldable pub moved : Bytes → Bytes → ColdRef → Bytes → Fresh → Fresh
moved room key ref raw f = record {
  index = remember room key (record { off = f.size; len = ref.len }) f.index;
  size = (f.size + ref.len) % w64;
  out = f.out ++ raw;
  calls = f.calls + 1;
}

-- The loop's body once the entry is read; the Boolean is `ok`.
unfoldable pub compact_read :
    CompactIo → ℤ → Bytes → Bytes → ColdRef → Option Bytes → Fresh → Bool × Fresh
unfolding moved
compact_read io now room key ref none f = (false, record f { calls = f.calls + 1 })
compact_read io now room key ref (some raw) f =
    if expired (decode raw) now
    then (true, record f { calls = f.calls + 1 })
    else if io.write_all f.calls
    then (true, moved room key ref raw f)
    else (false, record f { calls = f.calls + 1 })

unfoldable pub compact_room :
    CompactIo → Disk → ℤ → Bytes → Bytes → Map Bytes ColdRef → Fresh → Bool × Fresh
unfolding compact_read
compact_room io disk now file room [] f = (true, f)
compact_room io disk now file room ((key, ref) ∷ refs) f =
    let (ok, g) =
      compact_read io now room key ref (disk.pread_all f.calls file ref.len ref.off) f in
    let rest = compact_room io disk now file room refs g in if ok then rest else (false, g)

unfoldable pub compact_index :
    CompactIo → Disk → ℤ → Bytes → Map Bytes (Map Bytes ColdRef) → Fresh → Bool × Fresh
unfolding compact_room
compact_index io disk now file [] f = (true, f)
compact_index io disk now file ((room, refs) ∷ index) f =
    let (ok, g) = compact_room io disk now file room refs f in
    let rest = compact_index io disk now file index g in if ok then rest else (false, g)

-- The new file takes the place of the old one. `fprintf` and the exported counters are left out.
unfoldable pub commit : Fresh → Cold → Cold
commit f c = record c {
  index = f.index;
  file = f.out;
  fd_open = true;
  file_bytes = f.size;
  obsolete_bytes = 0;
}

unfoldable pub compact : CompactIo → Disk → ℕ → ℤ → Cold → ℤ × Cold
unfolding compact_index commit
compact io disk n now c =
    let (ok, f) = compact_index io disk now c.file c.index (no_fresh n) in
    if not io.opened
    then (negsuc 0, c)
    else if not ok
    then (negsuc 0, c)
    else if not io.renamed
    then (negsuc 0, c)
    else (of_u64 ((c.file_bytes + (w64 - f.size)) % w64), commit f c)
