-- ===== src/Keys.antt =====
-- src/core/commands.cpp, the other commands on keys: MGET, EXISTS, DEL, EXPIRE, TTL.
use somnium_db.Prelude.{
  ℕ, ◌+◌, ◌*◌, Bool, not, ◌||◌, ◌&&◌, Option, none, some, List, [], ◌∷◌, ◌++◌, length, Bytes, codes,
  crlf, line, ltb, ◌==◌, if◌then◌else◌,
}
use somnium_db.Prelude.Int.{ℤ, pos, ◌+ℤ◌, ◌-ℤ◌, leb_ℤ, eqb_ℤ, max_ℤ, div_ℤ}
use somnium_db.FsUtil.{parse_i64, to_string, to_string_ℤ}
use somnium_db.Resp.Encode.{bulk_string}
use somnium_db.Record.{Record}
use somnium_db.State.{
  World, M, ◌>>=◌, ◌>>◌, pure, gets, with_db, with_metrics, add_u64, current_time_ms, nil,
}
use somnium_db.Access.{lookup, stamp, erase_key}
use somnium_db.Tombstones.{set_tomb, next_version}
use somnium_db.Writes.{record_access}
use somnium_db.Commands.{wrong_number, number, append_local}
use somnium_db.Commands.Options.{
  Parsed, parsed, rejected, ExpireOptions, no_expire_options, expire_options, compatible,
  expire_deadline, stopped,
}

-- `Database::MAX_REPLY`
abbrev pub max_reply : ℕ
max_reply = 32 * 1024 * 1024

-- The loop of MGET, with the reply so far; it stops at a reply that would be too large.
mget_one : Bytes → Bytes → Option Record → M (Parsed Bytes)
unfolding nil record_access
mget_one key out none = do none_there ← nil; pure (parsed (out ++ none_there))
mget_one key out (some r) =
    if ltb max_reply (length out + length r.value)
    then pure (rejected (line "-ERR reply too large"))
    else (do record_access key; pure (parsed (out ++ bulk_string r.value)))

unfoldable pub mget_loop : World → Bytes → List Bytes → Bytes → M (Parsed Bytes)
unfolding mget_one
mget_loop w room_name [] out = pure (parsed out)
mget_loop w room_name (key ∷ keys) out = do
  r ← lookup w room_name key
  one ← mget_one key out r
  elim one [
    | rejected reply ↦ pure (rejected reply)
    | parsed out' ↦ mget_loop w room_name keys out'
  ]

mget_done : ℕ → Parsed Bytes → M Bytes
mget_done n (rejected reply) = pure reply
mget_done n (parsed out) = do
  with_metrics (λ m. record m { total_gets = add_u64 m.total_gets n })
  pure out

unfoldable pub handle_mget : World → Bytes → List Bytes → M Bytes
unfolding mget_loop mget_done
handle_mget w room_name (name ∷ key ∷ keys) = do
  out ← mget_loop w room_name (key ∷ keys) (b'*' ∷ (to_string (length (key ∷ keys)) ++ crlf))
  mget_done (length (key ∷ keys)) out
handle_mget w room_name args = pure (wrong_number (codes "MGET"))

found_one : Option Record → ℕ
found_one none = 0
found_one (some r) = 1

-- EXISTS: a key that is named twice counts twice.
unfoldable pub exists_loop : World → Bytes → List Bytes → ℕ → M ℕ
unfolding found_one
exists_loop w room_name [] found = pure found
exists_loop w room_name (key ∷ keys) found = do
  r ← lookup w room_name key
  exists_loop w room_name keys (found + found_one r)

unfoldable pub handle_exists : World → Bytes → List Bytes → M Bytes
unfolding exists_loop
handle_exists w room_name (name ∷ key ∷ keys) = do
  found ← exists_loop w room_name (key ∷ keys) 0
  pure (number found)
handle_exists w room_name args = pure (wrong_number (codes "EXISTS"))

-- DEL, one key: a versioned write over the record's version, a tombstone and an AOF record of its own.
unfoldable pub del_found : World → Bytes → Bytes → Option Record → M ℕ
unfolding append_local next_version current_time_ms
del_found w room_name key none = pure 0
del_found w room_name key (some r) = do
  now ← current_time_ms w
  ts ← next_version now r.timestamp_ms
  local ← gets (λ s. s.db.local_node_id)
  erase_key key r
  with_db (set_tomb room_name key (record { ts = ts; node = local }))
  append_local w room_name (codes "DEL" ∷ key ∷ []) (pos 0) ts
  pure 1

unfoldable pub del_loop : World → Bytes → List Bytes → ℕ → M ℕ
del_loop w room_name [] deleted = pure deleted
del_loop w room_name (key ∷ keys) deleted = do
  r ← lookup w room_name key
  one ← del_found w room_name key r
  del_loop w room_name keys (deleted + one)

unfoldable pub handle_del : World → Bytes → List Bytes → M Bytes
unfolding del_loop
handle_del w room_name (name ∷ key ∷ keys) = do
  deleted ← del_loop w room_name (key ∷ keys) 0
  pure (number deleted)
handle_del w room_name args = pure (wrong_number (codes "DEL"))

-- EXPIRE, PEXPIRE and PERSIST on a record, once the deadline is known; `scale` is 0 for PERSIST.
expire_found : World → Bytes → Bytes → ℕ → ExpireOptions → ℤ → ℤ → Option Record → M Bytes
unfolding append_local next_version current_time_ms
expire_found w room_name key scale o n expire_at none = pure (number 0)
expire_found w room_name key scale o n expire_at (some r) =
    if scale == 0 && eqb_ℤ r.expire_at (pos 0) || stopped o r.expire_at expire_at
    then pure (number 0)
    else if not (scale == 0) && leb_ℤ n (pos 0)
    then handle_del w room_name (codes "DEL" ∷ key ∷ [])
    else (do
      now ← current_time_ms w
      ts ← next_version now r.timestamp_ms
      local ← gets (λ s. s.db.local_node_id)
      stamp key r expire_at ts local
      append_local w room_name (codes "SET" ∷ key ∷ r.value ∷ []) expire_at ts
      pure (number 1))

-- The deadline is computed, or refused, before the key is looked up.
expire_at_deadline : World → Bytes → Bytes → ℕ → ExpireOptions → Option (ℤ × ℤ) → M Bytes
unfolding expire_found
expire_at_deadline w room_name key scale o none = pure (line "-ERR invalid expire time")
expire_at_deadline w room_name key scale o (some (n, expire_at)) = do
  r ← lookup w room_name key
  expire_found w room_name key scale o n expire_at r

expire_checked : World → Bytes → Bytes → Bytes → ℕ → Parsed ExpireOptions → M Bytes
unfolding expire_at_deadline current_time_ms
expire_checked w room_name key amount scale (rejected reply) = pure reply
expire_checked w room_name key amount scale (parsed o) = do
  now ← current_time_ms w
  expire_at_deadline w room_name key scale o (expire_deadline now scale (parse_i64 amount))

then_compatible : Parsed ExpireOptions → Parsed ExpireOptions
then_compatible (rejected reply) = rejected reply
then_compatible (parsed o) = compatible o

-- EXPIRE key seconds [NX|XX|GT|LT] with scale 1000, PEXPIRE key ms […] with scale 1.
unfoldable pub handle_expire : World → Bytes → List Bytes → ℕ → M Bytes
unfolding expire_checked then_compatible
handle_expire w room_name [] scale = pure (wrong_number [])
handle_expire w room_name (name ∷ []) scale = pure (wrong_number name)
handle_expire w room_name (name ∷ key ∷ []) scale =
    if scale == 0
    then expire_at_deadline w room_name key 0 no_expire_options (some (pos 0, pos 0))
    else pure (wrong_number name)
handle_expire w room_name (name ∷ key ∷ amount ∷ opts) scale =
    if scale == 0
    then pure (wrong_number name)
    else expire_checked w room_name key amount scale
        (then_compatible (expire_options opts no_expire_options))

-- TTL and PTTL.
ttl_found : World → Bool → Option Record → M Bytes
unfolding current_time_ms
ttl_found w millis none = pure (b':' ∷ line "-2")
ttl_found w millis (some r) = if eqb_ℤ r.expire_at (pos 0) then pure (b':' ∷ line "-1") else (do
  now ← current_time_ms w
  let left : ℤ = max_ℤ (pos 0) (r.expire_at -ℤ now)
  pure (b':' ∷ (to_string_ℤ (if millis then left else div_ℤ (left +ℤ pos 500) 1000) ++ crlf)))

unfoldable pub handle_ttl : World → Bytes → List Bytes → Bool → M Bytes
unfolding ttl_found
handle_ttl w room_name (name ∷ key ∷ []) millis = do
  r ← lookup w room_name key
  ttl_found w millis r
handle_ttl w room_name [] millis = pure (wrong_number [])
handle_ttl w room_name (name ∷ args) millis = pure (wrong_number name)
