-- ===== src/Cold/Codec.antt =====
-- src/storage/eviction_manager.cpp: a record that is written to cold storage is read back.
use somnium_db.Prelude.{
  ℕ, ◌^◌, ◌<◌, ◌≡◌, ◌++◌, append_assoc, length, length-append, take, drop, take-append,
  drop-append_at, Bytes, arith, sym,
}
use somnium_db.Prelude.Int.{to_u64, ◌≤ℤ◌, llong_max, llong_min, w64}
use somnium_db.Word.{le_bytes, length-le_bytes, of_le-le_bytes, of_u64-to_u64, to_u64-lt}
use somnium_db.Record.{Record}
use somnium_db.Cold.{header_bytes, encode, decode}

-- The fields of a record fit their machine types.
pub record Fits (r : Record) : Type 0 where
  pub expire_low : llong_min ≤ℤ r.expire_at
  pub expire_high : r.expire_at ≤ℤ llong_max
  pub timestamp : r.timestamp_ms < w64
  pub node : r.node_id < 2 ^ 32

-- `take` and `drop` at a part of known length.
take-append_at {ℓ} :
    {A : Type ℓ} (n : ℕ) (xs ys : _) → n ≡ length {A = A} xs → take n (xs ++ ys) ≡ xs
take-append_at n xs ys e = rw e (take-append xs ys)

abbrev expire_part : Record → Bytes
expire_part r = le_bytes 8 (to_u64 r.expire_at)

abbrev time_part : Record → Bytes
time_part r = le_bytes 8 r.timestamp_ms

abbrev node_part : Record → Bytes
node_part r = le_bytes 4 r.node_id

read_expire : (r : Record) → take 8 (encode r) ≡ expire_part r
unfolding encode
read_expire r = take-append_at 8 (expire_part r) _ (sym (length-le_bytes 8 _))

read_time : (r : Record) → take 8 (drop 8 (encode r)) ≡ time_part r
unfolding encode
read_time r =
    rw
      (drop-append_at 8 (expire_part r) (time_part r ++ (node_part r ++ r.value))
        (sym (length-le_bytes 8 _)))
      (take-append_at 8 (time_part r) _ (sym (length-le_bytes 8 _)))

read_node : (r : Record) → take 4 (drop 16 (encode r)) ≡ node_part r
unfolding encode
read_node r = rw (← append_assoc (expire_part r) (time_part r) (node_part r ++ r.value)) (
    rw
      (drop-append_at 16 (expire_part r ++ time_part r) (node_part r ++ r.value)
        (omega (arith, length-append (expire_part r) (time_part r), length-le_bytes)))
      (take-append_at 4 (node_part r) _ (sym (length-le_bytes 4 _))))

read_value : (r : Record) → drop header_bytes (encode r) ≡ r.value
unfolding encode
read_value r =
    rw
      (
        ← append_assoc (expire_part r) (time_part r) (node_part r ++ r.value),
        ← append_assoc (expire_part r ++ time_part r) (node_part r) r.value,
      )
      (drop-append_at header_bytes ((expire_part r ++ time_part r) ++ node_part r) r.value (
        omega (
          arith,
          length-append (expire_part r) (time_part r),
          length-append (expire_part r ++ time_part r) (node_part r),
          length-le_bytes,
        )))

-- A record whose fields fit their machine types is decoded from its encoding.
pub decode-encode : (r : Record) → Fits r → decode (encode r) ≡ r
unfolding decode
decode-encode r h = ground (
  arith,
  read_expire r,
  read_time r,
  read_node r,
  read_value r,
  of_le-le_bytes 8 (to_u64 r.expire_at) (to_u64-lt r.expire_at),
  of_le-le_bytes 8 r.timestamp_ms h.timestamp,
  of_le-le_bytes 4 r.node_id h.node,
  of_u64-to_u64 r.expire_at h.expire_low h.expire_high,
)
