-- ===== src/Aof/Records.antt =====
-- src/storage/aof_manager.cpp: a record that `encode_record` writes is parsed and built again.
use somnium_db.Prelude.{
  ℕ, zero, suc, ◌+◌, ◌-◌, ◌≤◌, ◌≡◌, refl, some, List, [], ◌∷◌, ◌++◌, length, length-append,
  get_elem?, take, drop, take-append, arith, ap, bytes_eq_refl,
}
use somnium_db.Prelude.Int.{◌≤ℤ◌, llong_max, llong_min}
use somnium_db.FsUtil.{to_string, to_string_ℤ, uint64_max, uint32_max}
use somnium_db.FsUtil.Decimal.{parse_u64-to_string, parse_i64-to_string_ℤ}
use somnium_db.Aof.{AofRecord, v3, meta_token, build_record, tokens_of}

-- A record whose fields fit their machine types.
pub record IsRecord (rec : AofRecord) : Type 0 where
  pub expire_low : llong_min ≤ℤ rec.expire_at
  pub expire_high : rec.expire_at ≤ℤ llong_max
  pub timestamp : rec.timestamp_ms ≤ uint64_max
  pub node : rec.node_id ≤ uint32_max

get_elem?-append {ℓ} :
    {A : Type ℓ} (xs ys : List A) (n i : ℕ)
    → n ≡ length xs + i
    → get_elem? (xs ++ ys) n ≡ get_elem? ys i
get_elem?-append [] ys n i e = rw e (ap (get_elem? ys) (omega arith))
get_elem?-append (x ∷ xs) ys zero i e = absurd (omega arith)
get_elem?-append (x ∷ xs) ys (suc n) i e = get_elem?-append xs ys n i (omega arith)

pub length-tokens_of : (rec : AofRecord) → length (tokens_of rec) ≡ length rec.args + 5
unfolding tokens_of
length-tokens_of rec = omega (arith, length-append rec.args)

-- The token at the end of `n` tokens, `k` places from the end.
token_at :
    (rec : AofRecord) (k i : ℕ)
    → k + i ≡ 4
    → get_elem? (tokens_of rec) (length rec.args + 5 - k)
      ≡ get_elem?
          (meta_token
            ∷ to_string_ℤ rec.expire_at
            ∷ to_string rec.timestamp_ms
            ∷ to_string rec.node_id
            ∷ [])
          i
unfolding tokens_of
token_at rec k i e =
    get_elem?-append (rec.room ∷ rec.args) _ (length rec.args + 5 - k) i (omega arith)

room_at : (rec : AofRecord) → get_elem? (tokens_of rec) 0 ≡ some rec.room
unfolding tokens_of
room_at rec = refl

args_at : (rec : AofRecord) → take (length rec.args + 5 - 5) (drop 1 (tokens_of rec)) ≡ rec.args
unfolding tokens_of
args_at rec =
    let e : length rec.args + 5 - 5 ≡ length rec.args = omega arith in rw e (take-append rec.args _)

-- The tokens of a record whose fields fit are built into that record.
pub build_record-tokens_of :
    (rec : AofRecord) → IsRecord rec → build_record v3 (tokens_of rec) ≡ some rec
unfolding build_record
build_record-tokens_of rec h = rw (length-tokens_of rec) (
    ground (
      arith,
      token_at rec 4 0 refl,
      token_at rec 3 1 refl,
      token_at rec 2 2 refl,
      token_at rec 1 3 refl,
      args_at rec,
      room_at rec,
      bytes_eq_refl meta_token,
      parse_i64-to_string_ℤ rec.expire_at h.expire_low h.expire_high,
      parse_u64-to_string rec.timestamp_ms h.timestamp,
      parse_u64-to_string rec.node_id (omega arith),
    ))
