-- ===== src/Snapshot/RoundTrip.antt =====
-- src/storage/snapshot_manager.cpp: a room that is written to a snapshot is read back from it.
use somnium_db.Prelude.{
  ℕ, zero, suc, ◌+◌, ◌^◌, ◌≤◌, ◌<◌, ◌≡◌, refl, sym, ap, subst, true, false, none, some, [], ◌∷◌,
  ◌++◌, append_assoc, append-nil, length, length-append, take, drop, take-append, drop-append,
  Bytes, bytes_Eq, bytes_eq, bytes_eq_iff, bytes_eq_refl, arith, ltb,
}
use somnium_db.Prelude.Int.{to_u64, w64}
use somnium_db.Prelude.Map.{Map, IsMap, find, put}
use somnium_db.Word.{le_bytes, of_le, length-le_bytes, of_le-le_bytes, of_u64-to_u64, to_u64-lt}
use somnium_db.Hlc.{normalize}
use somnium_db.Record.{Record}
use somnium_db.Cold.Codec.{Fits}
use somnium_db.Snapshot.{
  magic, version, encode_entry, encode_entries, encode, read, read_number, read_version, read_entry,
  read_entries, read_body, decode,
}

read_written :
    (part rest : Bytes) (n : ℕ) → n ≡ length part → read n (part ++ rest) ≡ some (part, rest)
unfolding read
read_written part rest n e =
    rw e (ground (arith, length-append part rest, take-append part rest, drop-append part rest))

number_written :
    (k n : ℕ) (rest : Bytes) → n < 256 ^ k → read_number k (le_bytes k n ++ rest) ≡ some (n, rest)
unfolding read_number
number_written k n rest h =
    ground
      (arith, read_written (le_bytes k n) rest k (sym (length-le_bytes k n)), of_le-le_bytes k n h)

-- A key and its record as the snapshot can hold them: sizes and fields in their machine types, and a
-- timestamp that is already a hybrid version (or 0).
pub record FitsEntry (key : Bytes) (r : Record) : Type 0 where
  pub fields : Fits r
  pub key_size : length key < w64
  pub value_size : length r.value < w64
  pub hybrid : normalize r.timestamp_ms ≡ r.timestamp_ms

version_written :
    (ts node : ℕ) (rest : Bytes)
    → ts < w64
    → node < 2 ^ 32
    → read_version true (le_bytes 8 ts ++ (le_bytes 4 node ++ rest)) ≡ some (ts, node, rest)
unfolding read_version
version_written ts node rest h k = ground (
  arith,
  length-append (le_bytes 8 ts) (le_bytes 4 node ++ rest),
  length-append (le_bytes 4 node) rest,
  length-le_bytes 8 ts,
  length-le_bytes 4 node,
  number_written 8 ts (le_bytes 4 node ++ rest) h,
  number_written 4 node rest k,
)

entry_written :
    (key : Bytes) (r : Record) (rest : Bytes)
    → FitsEntry key r
    → read_entry true (encode_entry key r ++ rest) ≡ some (key, r, rest)
unfolding read_entry encode_entry
entry_written key r rest h =
    let r₅ : Bytes = le_bytes 8 r.timestamp_ms ++ (le_bytes 4 r.node_id ++ rest) in
    let r₄ : Bytes = le_bytes 8 (to_u64 r.expire_at) ++ r₅ in
    let r₃ : Bytes = r.value ++ r₄ in
    let r₂ : Bytes = le_bytes 8 (length r.value) ++ r₃ in
    let r₁ : Bytes = key ++ r₂ in
    let shape : encode_entry key r ++ rest ≡ le_bytes 8 (length key) ++ r₁ = simp append_assoc in
    rw
      (
        shape,
        number_written 8 (length key) r₁ h.key_size,
        read_written key r₂ (length key) refl,
        number_written 8 (length r.value) r₃ h.value_size,
        read_written r.value r₄ (length r.value) refl,
        number_written 8 (to_u64 r.expire_at) r₅ (to_u64-lt r.expire_at),
        version_written r.timestamp_ms r.node_id rest h.fields.timestamp h.fields.node,
        h.hybrid,
        of_u64-to_u64 r.expire_at h.fields.expire_low h.fields.expire_high,
      )
      refl

abbrev pub AllFit : Map Bytes Record → Type 0
AllFit [] = Unit
AllFit ((key, r) ∷ keys) = FitsEntry key r × AllFit keys

-- No key of the second map stands in the first.
abbrev Apart : Map Bytes Record → Map Bytes Record → Type 0
Apart loaded [] = Unit
Apart loaded ((key, r) ∷ keys) = (find key loaded ≡ none) × Apart loaded keys

put_fresh :
    (key : Bytes) (r : Record) (m : Map Bytes Record)
    → find key m ≡ none
    → put key r m ≡ m ++ (key, r) ∷ []
unfolding find put
put_fresh key r [] h = refl
put_fresh key r ((j, q) ∷ m) h = ground (arith, put_fresh key r m)

find-append_fresh :
    (j key : Bytes) (r : Record) (m : Map Bytes Record)
    → find j m ≡ none
    → bytes_eq key j ≡ false
    → find j (m ++ (key, r) ∷ []) ≡ none
unfolding find
find-append_fresh j key r [] h e = rw e
find-append_fresh j key r ((i, q) ∷ m) h e = ground (arith, find-append_fresh j key r m)

Apart-more :
    (key : Bytes) (r : Record) (loaded keys : Map Bytes Record)
    → Apart loaded keys
    → find key keys ≡ none
    → Apart (loaded ++ (key, r) ∷ []) keys
unfolding find
Apart-more key r loaded [] h k = tt
Apart-more key r loaded ((j, q) ∷ keys) h k = (
  find-append_fresh j key r loaded h.0 (ground (arith, bytes_eq_iff j key, bytes_eq_iff key j)),
  Apart-more key r loaded keys h.1 (ground arith),
)

entries_written :
    (fuel : ℕ) (loaded keys : Map Bytes Record)
    → length keys ≤ fuel
    → IsMap keys
    → AllFit keys
    → Apart loaded keys
    → read_entries fuel true (length loaded + length keys) loaded (encode_entries keys)
      ≡ some (loaded ++ keys)
unfolding read_entries encode_entries
entries_written zero loaded [] le is_map fit apart = ground (arith, append-nil loaded)
entries_written (suc fuel) loaded [] le is_map fit apart = ground (arith, append-nil loaded)
entries_written zero loaded ((key, r) ∷ keys) le is_map fit apart = absurd (omega arith)
entries_written (suc fuel) loaded ((key, r) ∷ keys) le is_map fit apart =
    let grown : put key r loaded ≡ loaded ++ (key, r) ∷ [] = put_fresh key r loaded apart.0 in
    let count : length (loaded ++ (key, r) ∷ []) ≡ length loaded + 1 =
      length-append loaded ((key, r) ∷ []) in
    let size : length loaded + suc (length keys) ≡ length (loaded ++ (key, r) ∷ []) + length keys =
      omega arith in
    let more : ltb (length loaded) (length loaded + suc (length keys)) ≡ true = ground arith in
    rw
      (
        more,
        entry_written key r (encode_entries keys) fit.0,
        grown,
        size,
        entries_written fuel (loaded ++ (key, r) ∷ []) keys (omega arith) is_map.1 fit.1
            (Apart-more key r loaded keys apart.1 is_map.0),
      )
      (ap (λ (m : Map Bytes Record). some m) (append_assoc loaded ((key, r) ∷ []) keys))

Apart-nil : (keys : Map Bytes Record) → Apart [] keys
unfolding find
Apart-nil [] = tt
Apart-nil ((key, r) ∷ keys) = (refl, Apart-nil keys)

length-encode_entry : (key : Bytes) (r : Record) → 1 ≤ length (encode_entry key r)
unfolding encode_entry
length-encode_entry key r =
    omega (arith, length-append (le_bytes 8 (length key)), length-le_bytes 8 (length key))

length-encode_entries : (keys : Map Bytes Record) → length keys ≤ length (encode_entries keys)
unfolding encode_entries
length-encode_entries [] = omega arith
length-encode_entries ((key, r) ∷ keys) = omega (
  arith,
  length-append (encode_entry key r) (encode_entries keys),
  length-encode_entry key r,
  length-encode_entries keys,
)

take-append_four : (rest : Bytes) → take 4 (le_bytes 4 version ++ rest) ≡ le_bytes 4 version
unfolding le_bytes
take-append_four rest = refl

drop-append_four : (rest : Bytes) → drop 4 (le_bytes 4 version ++ rest) ≡ rest
unfolding le_bytes
drop-append_four rest = refl

pub decode-encode_keys :
    (keys : Map Bytes Record)
    → IsMap keys
    → AllFit keys
    → length keys < w64
    → decode (encode keys) ≡ some keys
unfolding decode encode read_body
decode-encode_keys keys is_map fit small =
    let body : Bytes = encode_entries keys in
    let num : Bytes = le_bytes 8 (length keys) ++ body in
    let head : Bytes = le_bytes 4 version ++ num in
    let whole : length (magic ++ head) ≡ 16 + length body = omega (
      arith,
      length-append (le_bytes 4 version) num,
      length-append (le_bytes 8 (length keys)) body,
      length-le_bytes 4 version,
      length-le_bytes 8 (length keys),
    ) in
    let t₁ : take 4 (drop 4 (magic ++ head)) ≡ le_bytes 4 version = take-append_four num in
    let t₂ : drop 8 (magic ++ head) ≡ num = drop-append_four num in
    let v : of_le (le_bytes 4 version) ≡ version = of_le-le_bytes 4 version (omega arith) in
    let enough : length keys ≤ 16 + length body = omega (arith, length-encode_entries keys) in
    let all : read_entries (16 + length body) true (length keys) [] body ≡ some keys =
      subst (λ (n : ℕ). read_entries (16 + length body) true n [] body ≡ some keys) (omega arith)
        (entries_written (16 + length body) [] keys enough is_map fit (Apart-nil keys)) in
    ground (
      arith,
      bytes_eq_refl magic,
      whole,
      t₁,
      t₂,
      v,
      number_written 8 (length keys) body (omega arith),
      all,
    )
