-- ===== src/Snapshot.antt =====
-- src/storage/snapshot_manager.cpp: the file format of a sleeping room, written by `hibernate_room`
-- and read by `wakeup_room`. What the system calls around it answer is in `World`.
pub mod Save
pub mod RoundTrip
use somnium_db.Prelude.{
  ℕ, zero, suc, ◌+◌, Bool, true, false, not, Option, none, some, List, [], ◌∷◌, ◌++◌, length, take,
  drop, Bytes, bytes_Eq, bytes_eq, codes, ltb, leb, ◌==◌, if◌then◌else◌,
}
use somnium_db.Prelude.Int.{ℤ, pos, to_u64}
use somnium_db.Prelude.Map.{Map, find, put}
use somnium_db.Word.{le_bytes, of_le, of_u64}
use somnium_db.Hlc.{normalize}
use somnium_db.Record.{Record}

abbrev pub magic : Bytes
magic = codes "RSNP"

abbrev pub version : ℕ
version = 2

-- What the writer feeds for one key.
unfoldable pub encode_entry : Bytes → Record → Bytes
encode_entry key r =
    le_bytes 8 (length key)
    ++ (key
        ++ (le_bytes 8 (length r.value)
            ++ (r.value
                ++ (le_bytes 8 (to_u64 r.expire_at)
                    ++ (le_bytes 8 r.timestamp_ms ++ le_bytes 4 r.node_id)))))

unfoldable pub encode_entries : Map Bytes Record → Bytes
encode_entries [] = []
encode_entries ((key, r) ∷ keys) = encode_entry key r ++ encode_entries keys

unfoldable pub encode : Map Bytes Record → Bytes
encode keys = magic ++ (le_bytes 4 version ++ (le_bytes 8 (length keys) ++ encode_entries keys))

infixl 5 ◌>>=◌
abbrev pub ◌>>=◌ {ℓ κ} : {A : Type ℓ} {B : Type κ} → Option A → (A → Option B) → Option B
none >>= f = none
some a >>= f = f a

-- `need(n)` and the read behind it: the next `n` bytes, and the rest; `none` is corrupt.
unfoldable pub read : ℕ → Bytes → Option (Bytes × Bytes)
read n text = if leb n (length text) then some (take n text, drop n text) else none

unfoldable pub read_number : ℕ → Bytes → Option (ℕ × Bytes)
unfolding read
read_number n text = do (bytes, rest) ← read n text; some (of_le bytes, rest)

-- The version fields, which format 1 lacks.
unfoldable pub read_version : Bool → Bytes → Option (ℕ × ℕ × Bytes)
unfolding read_number read
read_version false text = some (0, 1, text)
read_version true text = if ltb (length text) (8 + 4) then none else do
  (ts, rest) ← read_number 8 text
  (node, rest') ← read_number 4 rest
  some (ts, node, rest')

-- One round of the loop: a key with its record, and the rest.
unfoldable pub read_entry : Bool → Bytes → Option (Bytes × Record × Bytes)
read_entry is_v2 text = do
  (klen, t₁) ← read_number 8 text
  (key, t₂) ← read klen t₁
  (vlen, t₃) ← read_number 8 t₂
  (value, t₄) ← read vlen t₃
  (expire, t₅) ← read_number 8 t₄
  (ts, node, t₆) ← read_version is_v2 t₅
  some (
    key,
    record {
      value = value;
      expire_at = of_u64 expire;
      timestamp_ms = normalize ts;
      node_id = node;
    },
    t₆,
  )

-- The loop `while (loaded.size() < num_records)`. A round takes 24 bytes at least, so the length of
-- the file is fuel enough; a key that comes again replaces the record, and does not count.
unfoldable pub read_entries : ℕ → Bool → ℕ → Map Bytes Record → Bytes → Option (Map Bytes Record)
read_entries zero is_v2 num loaded text = if ltb (length loaded) num then none else some loaded
read_entries (suc fuel) is_v2 num loaded text =
    let more : Option (Map Bytes Record) = (do
      (key, r, rest) ← read_entry is_v2 text
      read_entries fuel is_v2 num (put key r loaded) rest) in
    if ltb (length loaded) num then more else some loaded

-- The number of records, and the loop.
unfoldable pub read_body : Bool → Bytes → ℕ → Option (Map Bytes Record)
read_body is_v2 text size = do
  (num, rest) ← read_number 8 text
  if ltb size num then none else read_entries size is_v2 num [] rest

-- `none` is a corrupt file, which is put aside.
unfoldable pub decode : Bytes → Option (Map Bytes Record)
decode text =
    if ltb (length text) 8
    then none
    else if bytes_eq (take 4 text) magic
    then (if of_le (take 4 (drop 4 text)) == version
        then read_body true (drop 8 text) (length text)
        else none)
    else read_body false text (length text)
