-- ===== src/Cold.antt =====
-- src/storage/eviction_manager.{h,cpp}: cold storage, the records moved out of memory.
pub mod Codec
pub mod Compact
use somnium_db.Prelude.{
  ℕ, zero, suc, ◌+◌, ◌%◌, Bool, true, false, not, ◌||◌, ◌&&◌, Option, none, some, List, [], ◌∷◌,
  ◌++◌, length, get_elem?, take, drop, Bytes, bytes_Eq, ltb, leb, ◌==◌, if◌then◌else◌,
}
use somnium_db.Prelude.Int.{ℤ, to_u64, w64}
use somnium_db.Prelude.Map.{Map, find, put, erase}
use somnium_db.Word.{le_bytes, of_le, of_u64}
use somnium_db.Record.{Record, expired}
use somnium_db.Sketch
use somnium_db.Sketch.{CountMinSketch, estimate_frequency}
use somnium_db.Disk.{Disk}

-- `kHeader`
abbrev pub header_bytes : ℕ
header_bytes = 20

unfoldable pub encode : Record → Bytes
encode r =
    le_bytes 8 (to_u64 r.expire_at)
    ++ (le_bytes 8 r.timestamp_ms ++ (le_bytes 4 r.node_id ++ r.value))

unfoldable pub decode : Bytes → Record
decode raw = record {
  value = drop header_bytes raw;
  expire_at = of_u64 (of_le (take 8 raw));
  timestamp_ms = of_le (take 8 (drop 8 raw));
  node_id = of_le (take 4 (drop 16 raw));
}

pub record ColdRef : Type 0 where
  pub off : ℕ
  pub len : ℕ

-- The members of `EvictionManager`, with the contents of cold.bin.
pub record Cold : Type 0 where
  pub sketch : CountMinSketch
  pub index : Map Bytes (Map Bytes ColdRef)
  pub file : Bytes
  pub fd_open : Bool
  pub file_bytes : ℕ
  pub obsolete_bytes : ℕ
  pub max_keys : ℕ
  pub max_bytes : ℕ

unfoldable pub record_access : Bytes → Cold → Cold
record_access key c = record c { sketch = Sketch.record_access key c.sketch }

-- `resident` is `global_metrics.resident_bytes`.
unfoldable pub fits : ℕ → ℕ → Cold → Bool
fits resident extra c = c.max_bytes == 0 || leb ((resident + extra) % w64) c.max_bytes

-- index[room][key], where each may be absent.
unfoldable pub cold_ref : Bytes → Bytes → Map Bytes (Map Bytes ColdRef) → Option ColdRef
cold_ref room key index = elim (find room index) [ none ↦ none | some keys ↦ find key keys ]

-- The erasure of an entry, and of its room's map if that is empty then.
keep_room :
    Bytes → Map Bytes ColdRef → Map Bytes (Map Bytes ColdRef) → Map Bytes (Map Bytes ColdRef)
keep_room room [] index = erase room index
keep_room room (k ∷ ks) index = put room (k ∷ ks) index

unfoldable pub forget :
    Bytes → Bytes → Map Bytes (Map Bytes ColdRef) → Map Bytes (Map Bytes ColdRef)
unfolding keep_room
forget room key index = elim (find room index) [
  | none ↦ index
  | some keys ↦ keep_room room (erase key keys) index
]

-- index[room][key] = ref
unfoldable pub remember :
    Bytes → Bytes → ColdRef → Map Bytes (Map Bytes ColdRef) → Map Bytes (Map Bytes ColdRef)
remember room key ref index =
    put room (put key ref (elim (find room index) [ none ↦ [] | some keys ↦ keys ])) index

-- The part of `take` behind the lookup: a failed read leaves the entry where it is.
take_at : Bytes → Bytes → ColdRef → Option Bytes → Cold → Option Record × Cold
unfolding forget decode
take_at room key ref none c = (none, c)
take_at room key ref (some raw) c = (
  some (decode raw),
  record c { index = forget room key c.index; obsolete_bytes = (c.obsolete_bytes + ref.len) % w64 },
)

-- `take(room_name, key)`; `n` counts the calls of the disk.
unfoldable pub take_record : Disk → ℕ → Bytes → Bytes → Cold → Option Record × Cold
unfolding take_at cold_ref
take_record disk n room key c = elim (cold_ref room key c.index) [
  | none ↦ (none, c)
  | some ref ↦ take_at room key ref (disk.pread_all n c.file ref.len ref.off) c
]

-- The victim so far of the sampling in `evict_despised_keys`, the lowest frequency, and the random
-- numbers drawn. The hash table's buckets are not modelled: a draw picks any key of the room.
pub record Sample : Type 0 where
  pub victim : Option Bytes
  pub lowest : ℕ
  pub draws : ℕ

better : Option Bytes → Bytes → ℕ → Sample → Sample
better none key freq s = record s { victim = some key; lowest = freq }
better (some v) key freq s =
    if ltb freq s.lowest then record s { victim = some key; lowest = freq } else s

consider : CountMinSketch → Option (Bytes × Record) → Sample → Sample
unfolding better
consider sketch none s = s
consider sketch (some (key, r)) s = better s.victim key (estimate_frequency key sketch) s

unfoldable pub sample : (ℕ → ℕ) → CountMinSketch → Map Bytes Record → Sample → Sample
unfolding consider
sample draw sketch keys s =
    consider sketch (get_elem? keys (draw s.draws % length keys)) (record s { draws = s.draws + 1 })

unfoldable pub samples : ℕ → (ℕ → ℕ) → CountMinSketch → Map Bytes Record → Sample → Sample
unfolding sample
samples zero draw sketch keys s = s
samples (suc n) draw sketch keys s = samples n draw sketch keys (sample draw sketch keys s)

-- The loop that goes on while every key seen is hot.
unfoldable pub extra_samples : ℕ → (ℕ → ℕ) → CountMinSketch → Map Bytes Record → Sample → Sample
unfolding sample
extra_samples zero draw sketch keys s = s
extra_samples (suc n) draw sketch keys s =
    let more = extra_samples n draw sketch keys (sample draw sketch keys s) in
    if ltb 2 s.lowest then more else s

unfoldable pub choose : (ℕ → ℕ) → CountMinSketch → Map Bytes Record → ℕ → Sample
unfolding samples extra_samples
choose draw sketch keys draws =
    let s : Sample =
      samples 5 draw sketch keys (record { victim = none; lowest = 0xffff; draws = draws }) in
    if ltb 10 s.lowest then extra_samples 64 draw sketch keys s else s
