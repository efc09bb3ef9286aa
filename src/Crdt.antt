-- ===== src/Crdt.antt =====
-- src/core/crdt.cpp: the commands that carry writes and deletions from other nodes.
pub mod Accounts
pub mod Merge
use somnium_db.Prelude.{
  ℕ, ◌||◌, Bool, true, false, Option, none, some, List, [], ◌∷◌, ◌++◌, Bytes, codes, crlf, line,
  max, ltb, nat_eq, if◌then◌else◌,
}
use somnium_db.Prelude.Int.{ℤ, pos, ltb_ℤ}
use somnium_db.Prelude.Map.{find, put}
use somnium_db.FsUtil.{parse_u64, parse_i64, uint32_max}
use somnium_db.Record.{Record}
use somnium_db.State.{
  Session, World, Db, Version, M, ◌>>=◌, ◌>>◌, pure, gets, with_db, current_time_ms,
}
use somnium_db.Access.{lookup, set_value, stamp, erase_key}
use somnium_db.Tombstones.{
  Incoming, version, refused, incoming_version, stale, set_tomb, collect_tombstones, next_version,
}
use somnium_db.Writes.{record_access, append_aof, found_or_new}
use somnium_db.Commands.{wrong_number}

abbrev pub ignored : Bytes
ignored = line "+OK (Ignored Stale Write)"

abbrev pub converged : Bytes
converged = line "+OK (State Converged)"

-- `if (r) erase(room, room.keys.find(key));`
unfoldable pub erase_found : Bytes → Option Record → M (Unit {0})
erase_found key none = pure tt
erase_found key (some r) = erase_key key r

-- CRDTDEL, once its version is read and the key is looked up.
unfoldable pub crdtdel_found :
    World → Bytes → List Bytes → Bytes → Version → Option Record → M Bytes
unfolding erase_found append_aof
crdtdel_found w room_name args key v r = do
  old ← gets (λ s. stale room_name key r v s.db)
  if old then pure ignored else (do
    erase_found key r
    with_db (set_tomb room_name key v)
    append_aof w (record {
      room = room_name;
      args = args;
      expire_at = pos 0;
      timestamp_ms = v.ts;
      node_id = v.node;
    })
    pure (line "+OK (Deleted)"))

crdtdel_version : World → Bytes → List Bytes → Bytes → Incoming → M Bytes
unfolding crdtdel_found
crdtdel_version w room_name args key (refused reply) = pure reply
crdtdel_version w room_name args key (version v) = do
  r ← lookup w room_name key
  crdtdel_found w room_name args key v r

-- CRDTDEL key timestamp node
unfoldable pub handle_crdtdel : World → Bytes → List Bytes → M Bytes
unfolding crdtdel_version
handle_crdtdel w room_name (name ∷ key ∷ ts ∷ node ∷ []) = do
  v ← incoming_version w ts node
  crdtdel_version w room_name (name ∷ key ∷ ts ∷ node ∷ []) key v
handle_crdtdel w room_name args = pure (wrong_number (codes "CRDTDEL"))

-- The deadline that a merge leaves: the one it carries, or else the record's own.
abbrev pub merged_expiry : Option ℤ → Record → ℤ
merged_expiry none r = r.expire_at
merged_expiry (some at) r = at

-- The write of a CRDTMERGE that is not stale.
unfoldable pub merge_write :
    World → Bytes → List Bytes → Bytes → Bytes → Option ℤ → Version → Option Record → M Bytes
unfolding append_aof record_access found_or_new
merge_write w room_name args key value expire v r = do
  q ← found_or_new room_name key r
  q' ← set_value key q value
  q'' ← stamp key q' (merged_expiry expire q') v.ts v.node
  record_access key
  append_aof w (record {
    room = room_name;
    args = args;
    expire_at = q''.expire_at;
    timestamp_ms = v.ts;
    node_id = v.node;
  })
  pure converged

-- CRDTMERGE, once its version is read and the key is looked up: only what is strictly newer changes
-- the state.
unfoldable pub merge_found :
    World → Bytes → List Bytes → Bytes → Bytes → Option ℤ → Version → Option Record → M Bytes
unfolding merge_write
merge_found w room_name args key value expire v r = do
  old ← gets (λ s. stale room_name key r v s.db)
  if old then pure ignored else merge_write w room_name args key value expire v r

unfoldable pub merge_version :
    World → Bytes → List Bytes → Bytes → Bytes → Option ℤ → Incoming → M Bytes
unfolding merge_found
merge_version w room_name args key value expire (refused reply) = pure reply
merge_version w room_name args key value expire (version v) = do
  r ← lookup w room_name key
  merge_found w room_name args key value expire v r

-- The optional deadline: absent, or a number that is not negative.
unfoldable pub merge_expiry :
    World → Bytes → List Bytes → Bytes → Bytes → Bytes → Bytes → Option ℤ → M Bytes
unfolding merge_version
merge_expiry w room_name args key value ts node none =
    pure (line "-ERR invalid expire time for CRDTMERGE")
merge_expiry w room_name args key value ts node (some at) =
    if ltb_ℤ at (pos 0)
    then pure (line "-ERR invalid expire time for CRDTMERGE")
    else (do v ← incoming_version w ts node; merge_version w room_name args key value (some at) v)

-- CRDTMERGE key value timestamp node [expire_at]
unfoldable pub handle_crdtmerge : World → Bytes → List Bytes → M Bytes
unfolding merge_version merge_expiry
handle_crdtmerge w room_name (name ∷ key ∷ value ∷ ts ∷ node ∷ []) = do
  v ← incoming_version w ts node
  merge_version w room_name (name ∷ key ∷ value ∷ ts ∷ node ∷ []) key value none v
handle_crdtmerge w room_name (name ∷ key ∷ value ∷ ts ∷ node ∷ at ∷ []) =
    merge_expiry w room_name (name ∷ key ∷ value ∷ ts ∷ node ∷ at ∷ []) key value ts node
      (parse_i64 at)
handle_crdtmerge w room_name args = pure (wrong_number (codes "CRDTMERGE"))

abbrev pub frontier_usage : Bytes
frontier_usage = line "-ERR usage: REPLFRONTIER node frontier"

-- `frontiers_[node]`, where an absent one is 0, rises to `f`.
unfoldable pub raise_frontier : ℕ → ℕ → Db → Db
raise_frontier node f db = record db {
  frontiers =
      put node (max (elim (find node db.frontiers) [ none ↦ 0 | some known ↦ known ]) f)
        db.frontiers;
}

frontier_numbers : World → Option ℕ → Option ℕ → M Bytes
unfolding current_time_ms next_version raise_frontier
frontier_numbers w (some node) (some f) = if ltb uint32_max node then pure frontier_usage else (do
  with_db (raise_frontier node f)
  now ← current_time_ms w
  v ← next_version now 0
  with_db (λ db. record db { frontier = v })
  with_db collect_tombstones
  pure (line "+OK"))
frontier_numbers w _ _ = pure frontier_usage

-- REPLFRONTIER node F
unfoldable pub handle_replfrontier : World → List Bytes → M Bytes
unfolding frontier_numbers
handle_replfrontier w (name ∷ node ∷ f ∷ []) = frontier_numbers w (parse_u64 node) (parse_u64 f)
handle_replfrontier w args = pure frontier_usage
