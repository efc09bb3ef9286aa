-- ===== src/Crdt/Accounts.antt =====
-- CRDTMERGE, src/core/crdt.cpp: the accounts survive it.
use somnium_db.Prelude.{ℕ, Option, none, some, List, [], ◌∷◌, Bytes, line}
use somnium_db.Prelude.Int.{ℤ, pos, ltb_ℤ}
use somnium_db.Record.{Record}
use somnium_db.FsUtil.{parse_i64}
use somnium_db.State.{Session, World, Version, ◌>>=◌, pure}
use somnium_db.Access.{lookup, set_value, stamp}
use somnium_db.Access.Accounts.{Accounted, Holds, set_value-Holds, stamp-Holds}
use somnium_db.Access.Lookup.{Accounted-then, Holds-then, lookup-Holds}
use somnium_db.Tombstones.{Incoming, version, refused, incoming_version, stale}
use somnium_db.Writes.{found_or_new}
use somnium_db.Crdt.{
  merge_write, merge_found, merge_version, merge_expiry, handle_crdtmerge, merged_expiry, ignored,
  converged,
}
use somnium_db.Triple.{Triple, Triple-if, Triple-bind}
use somnium_db.Writes.Frames.{
  record_access-Frames, append_aof-Frames, gets-Frames, incoming_version-Frames,
}
use somnium_db.Writes.Accounts.{found_or_new-Holds, reply, reply_held}

module _ (o k : ℕ) where
  merge_write-Accounted :
      (w : World) (room_name : Bytes) (args : List Bytes) (key value : Bytes) (at : Option ℤ)
      (v : Version) (r : Option Record)
      → Triple
          (Holds o k key r)
          (merge_write w room_name args key value at v r)
          (λ _. Accounted o k)
  unfolding merge_write
  merge_write-Accounted w room_name args key value at v r =
      Triple-bind (found_or_new room_name key r) _ (found_or_new-Holds o k room_name key r) λ q.
        Triple-bind (set_value key q value) _ (set_value-Holds o k key q value) λ q'.
          Triple-bind (stamp key q' (merged_expiry at q') v.ts v.node) _
            (stamp-Holds o k key q' (merged_expiry at q') v.ts v.node)
            λ q''. Holds-then o k _ _ (record_access-Frames key) key (some q'') λ _.
              Holds-then o k _ _
                (append_aof-Frames w (record {
                  room = room_name;
                  args = args;
                  expire_at = q''.expire_at;
                  timestamp_ms = v.ts;
                  node_id = v.node;
                }))
                key (some q'') λ _. reply_held o k key (some q'') converged

  merge_version-Accounted :
      (w : World) (room_name : Bytes) (args : List Bytes) (key value : Bytes) (at : Option ℤ)
      (i : Incoming)
      → Triple (Accounted o k) (merge_version w room_name args key value at i) (λ _. Accounted o k)
  unfolding merge_version merge_found
  merge_version-Accounted w room_name args key value at (refused bytes) = reply o k bytes
  merge_version-Accounted w room_name args key value at (version v) =
      Triple-bind (lookup w room_name key) _ (lookup-Holds o k w room_name key) λ r.
        Holds-then o k _ _ (gets-Frames (λ s. stale room_name key r v s.db)) key r λ old.
          Triple-if old (pure ignored) (merge_write w room_name args key value at v r)
            (λ _. reply_held o k key r ignored)
            λ _. merge_write-Accounted w room_name args key value at v r

  incoming-Accounted :
      (w : World) (ts node room_name : Bytes) (args : List Bytes) (key value : Bytes)
      (at : Option ℤ)
      → Triple
          (Accounted o k)
          (incoming_version w ts node >>= λ i. merge_version w room_name args key value at i)
          (λ _. Accounted o k)
  incoming-Accounted w ts node room_name args key value at =
      Accounted-then o k (incoming_version w ts node) _ (incoming_version-Frames w ts node)
        λ i. merge_version-Accounted w room_name args key value at i

  merge_expiry-Accounted :
      (w : World) (room_name : Bytes) (args : List Bytes) (key value ts node : Bytes)
      (at : Option ℤ)
      → Triple
          (Accounted o k)
          (merge_expiry w room_name args key value ts node at)
          (λ _. Accounted o k)
  unfolding merge_expiry
  merge_expiry-Accounted w room_name args key value ts node none = reply o k _
  merge_expiry-Accounted w room_name args key value ts node (some at) =
      Triple-if (ltb_ℤ at (pos 0)) _
        (incoming_version w ts node >>= λ i. merge_version w room_name args key value (some at) i)
        (λ _. reply o k (line "-ERR invalid expire time for CRDTMERGE"))
        λ _. incoming-Accounted w ts node room_name args key value (some at)

  handle_crdtmerge-Accounted :
      (w : World) (room_name : Bytes) (args : List Bytes)
      → Triple (Accounted o k) (handle_crdtmerge w room_name args) (λ _. Accounted o k)
  unfolding handle_crdtmerge
  handle_crdtmerge-Accounted w room_name (name ∷ key ∷ value ∷ ts ∷ node ∷ []) =
      incoming-Accounted w ts node room_name (name ∷ key ∷ value ∷ ts ∷ node ∷ []) key value none
  handle_crdtmerge-Accounted w room_name (name ∷ key ∷ value ∷ ts ∷ node ∷ at ∷ []) =
      merge_expiry-Accounted w room_name (name ∷ key ∷ value ∷ ts ∷ node ∷ at ∷ []) key value ts
        node (parse_i64 at)
  handle_crdtmerge-Accounted w room_name [] = reply o k _
  handle_crdtmerge-Accounted w room_name (a ∷ []) = reply o k _
  handle_crdtmerge-Accounted w room_name (a ∷ b ∷ []) = reply o k _
  handle_crdtmerge-Accounted w room_name (a ∷ b ∷ c ∷ []) = reply o k _
  handle_crdtmerge-Accounted w room_name (a ∷ b ∷ c ∷ d ∷ []) = reply o k _
  handle_crdtmerge-Accounted w room_name (a ∷ b ∷ c ∷ d ∷ e ∷ f ∷ g ∷ rest) = reply o k _

-- A room and the server whose accounts hold have accounts that hold behind every CRDTMERGE, malformed, stale or merged.
pub handle_crdtmerge-accounts :
    (o k : ℕ) (w : World) (room_name : Bytes) (args : List Bytes) (s : Session)
    → Accounted o k s
    → Accounted o k (handle_crdtmerge w room_name args s).1
handle_crdtmerge-accounts o k w room_name args s h =
    (handle_crdtmerge-Accounted o k w room_name args).at s h
