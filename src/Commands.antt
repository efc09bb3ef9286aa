-- ===== src/Commands.antt =====
-- src/core/commands.cpp: the commands on keys. Each runs in the client's room, which is awake.
pub mod Options
pub mod Deadlines
use somnium_db.Prelude.{
  ℕ, zero, suc, ◌+◌, ◌-◌, ◌*◌, ◌/◌, ◌%◌, Bool, true, false, not, ◌||◌, ◌&&◌, Option, none, some,
  List, [], ◌∷◌, ◌++◌, length, Bytes, codes, crlf, line, upper, bytes_eq, max, ltb, leb, ◌==◌,
  if◌then◌else◌,
}
use somnium_db.Prelude.Int.{
  ℤ, pos, negsuc, ◌+ℤ◌, ◌-ℤ◌, ◌*ℤ◌, ltb_ℤ, leb_ℤ, eqb_ℤ, max_ℤ, div_ℤ, llong_max, llong_min,
}
use somnium_db.FsUtil.{parse_i64, to_string, to_string_ℤ}
use somnium_db.Resp.Encode.{bulk_string}
use somnium_db.Record.{Record}
use somnium_db.State.{
  Session, World, M, Version, Metrics, ◌>>=◌, ◌>>◌, pure, gets, with_db, with_metrics, add_u64,
  current_time_ms, nil,
}
use somnium_db.Access.{lookup, insert, set_value, stamp, erase_key}
use somnium_db.Tombstones.{tomb_ts, set_tomb, next_version}
use somnium_db.Writes.{record_access, append_aof, found_or_new}
use somnium_db.Aof.{AofRecord}
use Options.{
  SetOptions, Parsed, parsed, rejected, no_options, set_options, ExpireOptions, no_expire_options,
  expire_options, compatible, expire_deadline, stopped,
}

abbrev pub wrong_number : Bytes → Bytes
wrong_number name = codes "-ERR Wrong number of arguments for " ++ (name ++ crlf)

abbrev pub number : ℕ → Bytes
number n = b':' ∷ (to_string n ++ crlf)

-- The version that a write of this key overwrites: the record's or the tombstone's.
unfoldable pub version_under : Bytes → Bytes → Option Record → Session → ℕ
version_under room_name key none s = tomb_ts room_name key s.db
version_under room_name key (some r) s = r.timestamp_ms

-- GET key
get_found : Bytes → Option Record → M Bytes
unfolding nil record_access
get_found key none = nil
get_found key (some r) = do record_access key; pure (bulk_string r.value)

unfoldable pub handle_get : World → Bytes → List Bytes → M Bytes
unfolding get_found
handle_get w room_name (name ∷ key ∷ []) = do
  with_metrics (λ m. record m { total_gets = add_u64 m.total_gets 1 })
  r ← lookup w room_name key
  get_found key r
handle_get w room_name args = pure (wrong_number (codes "GET"))

-- The write behind SET and MSET: the value, the deadline and the local version.
unfoldable pub write_local : Bytes → Bytes → Bytes → ℤ → ℕ → Option Record → M (Unit {0})
unfolding found_or_new record_access
write_local room_name key value expire_at version r = do
  q ← found_or_new room_name key r
  q' ← set_value key q value
  local ← gets (λ s. s.db.local_node_id)
  stamp key q' expire_at version local
  record_access key

-- `aof.append(room_name, args, expire_at, version, local_node_id)`
unfoldable pub append_local : World → Bytes → List Bytes → ℤ → ℕ → M (Unit {0})
unfolding append_aof
append_local w room_name args expire_at version = do
  local ← gets (λ s. s.db.local_node_id)
  append_aof w (record {
    room = room_name;
    args = args;
    expire_at = expire_at;
    timestamp_ms = version;
    node_id = local;
  })

pub is_some : Option Record → Bool
is_some none = false
is_some (some r) = true

-- SET, once its options are read and the key is looked up.
unfoldable pub set_found :
    World → Bytes → List Bytes → Bytes → Bytes → ℤ → SetOptions → Option Record → M Bytes
unfolding is_some nil write_local append_local version_under next_version
set_found w room_name args key value now o r =
    if o.nx && is_some r || o.xx && not (is_some r) then nil else (do
      overwritten ← gets (version_under room_name key r)
      version ← next_version now overwritten
      write_local room_name key value o.expire_at version r
      append_local w room_name args o.expire_at version
      pure (line "+OK"))

unfoldable pub set_parsed :
    World → Bytes → List Bytes → Bytes → Bytes → ℤ → Parsed SetOptions → M Bytes
unfolding set_found
set_parsed w room_name args key value now (rejected reply) = pure reply
set_parsed w room_name args key value now (parsed o) = do
  with_metrics (λ m. record m { total_sets = add_u64 m.total_sets 1 })
  r ← lookup w room_name key
  set_found w room_name args key value now o r

-- SET key value [NX|XX] [EX seconds|PX milliseconds]
unfoldable pub handle_set : World → Bytes → List Bytes → M Bytes
unfolding set_parsed current_time_ms
handle_set w room_name (name ∷ key ∷ value ∷ opts) = do
  now ← current_time_ms w
  set_parsed w room_name (name ∷ key ∷ value ∷ opts) key value now (set_options now opts no_options)
handle_set w room_name args = pure (wrong_number (codes "SET"))

-- MSET: the first loop finds the newest version that is overwritten, the second writes.
unfoldable pub mset_overwritten : World → Bytes → List Bytes → ℕ → M ℕ
mset_overwritten w room_name (key ∷ value ∷ rest) so_far = do
  r ← lookup w room_name key
  under ← gets (version_under room_name key r)
  mset_overwritten w room_name rest (max so_far under)
mset_overwritten w room_name rest so_far = pure so_far

unfoldable pub mset_write : World → Bytes → ℕ → List Bytes → M (Unit {0})
mset_write w room_name version (key ∷ value ∷ rest) = do
  r ← lookup w room_name key
  write_local room_name key value (pos 0) version r
  mset_write w room_name version rest
mset_write w room_name version rest = pure tt

unfoldable pub handle_mset : World → Bytes → List Bytes → M Bytes
unfolding mset_overwritten mset_write append_local next_version current_time_ms
handle_mset w room_name [] = pure (wrong_number (codes "MSET"))
handle_mset w room_name (name ∷ pairs) =
    if ltb (length pairs + 1) 3 || (length pairs + 1) % 2 == 0
    then pure (wrong_number (codes "MSET"))
    else (do
      overwritten ← mset_overwritten w room_name pairs 0
      now ← current_time_ms w
      version ← next_version now overwritten
      mset_write w room_name version pairs
      with_metrics (λ m. record m { total_sets = add_u64 m.total_sets ((length pairs + 1) / 2) })
      append_local w room_name (name ∷ pairs) (pos 0) version
      pure (line "+OK"))
