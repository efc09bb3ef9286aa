-- ===== src/Writes/Accounts.antt =====
-- SET and DEL, src/core/commands.cpp: the accounts survive them.
use somnium_db.Prelude.{
  ℕ, ◌+◌, refl, not, ◌||◌, ◌&&◌, Option, none, some, List, [], ◌∷◌, Bytes, line, codes,
}
use somnium_db.Prelude.Int.{ℤ, pos}
use somnium_db.Record.{Record}
use somnium_db.State.{Session, World, pure, with_metrics, add_u64, current_time_ms, nil}
use somnium_db.Access.{lookup, insert, set_value, stamp, erase_key}
use somnium_db.Access.Accounts.{
  Accounted, Holds, insert-Holds, set_value-Holds, stamp-Holds, erase_key-Holds,
}
use somnium_db.Access.Lookup.{
  Frames-Accounted, Frames-Holds, Accounted-then, Holds-then, lookup-Holds,
}
use somnium_db.Writes.{record_access, found_or_new}
use somnium_db.Commands.{
  is_some, number, write_local, version_under, set_found, set_parsed, handle_set,
}
use somnium_db.Commands.Options.{SetOptions, Parsed, parsed, rejected, set_options, no_options}
use somnium_db.Keys.{del_found, del_loop, handle_del}
use somnium_db.Triple.{Triple, Triple-pure, Triple-if, Triple-bind, Triple-weaken}
use somnium_db.Writes.Frames.{
  record_access-Frames, append_local-Frames, current_time_ms-Frames, next_version-Frames,
  gets-Frames, nil-Frames, set_tomb-Frames, clear_tomb-Frames,
}

module _ (o k : ℕ) where
  pub drop_pointer :
      (key : Bytes) (r : Option Record) (s : Session) → Holds o k key r s → Accounted o k s
  drop_pointer key r s h = h.accounts

  -- `found_or_new` gives the record that then stands under the key.
  pub found_or_new-Holds :
      (room_name key : Bytes) (r : Option Record)
      → Triple (Holds o k key r) (found_or_new room_name key r) (λ q. Holds o k key (some q))
  unfolding found_or_new
  found_or_new-Holds room_name key (some r) = Triple-pure r λ s h. h
  found_or_new-Holds room_name key none = Triple-bind (insert key) _ (insert-Holds o k key) λ r.
      Holds-then o k _ _ (clear_tomb-Frames room_name key) key (some r) λ _. Triple-pure r λ s h. h

  write_local-Accounted :
      (room_name key value : Bytes) (at : ℤ) (v : ℕ) (r : Option Record)
      → Triple (Holds o k key r) (write_local room_name key value at v r) (λ _. Accounted o k)
  unfolding write_local
  write_local-Accounted room_name key value at v r =
      Triple-bind (found_or_new room_name key r) _ (found_or_new-Holds room_name key r) λ q.
        Triple-bind (set_value key q value) _ (set_value-Holds o k key q value) λ q'.
          Holds-then o k _ _ (gets-Frames (λ s. s.db.local_node_id)) key (some q') λ local.
            Triple-bind (stamp key q' at v local) _ (stamp-Holds o k key q' at v local) λ q''.
              Triple-weaken (record_access key) (λ s h. h) (λ _. drop_pointer key (some q''))
                (Frames-Holds o k (record_access key) (record_access-Frames key) key (some q''))

  pub reply : (bytes : Bytes) → Triple (Accounted o k) (pure bytes) (λ _. Accounted o k)
  reply bytes = Triple-pure bytes λ s h. h

  pub reply_held :
      (key : Bytes) (r : Option Record) (bytes : Bytes)
      → Triple (Holds o k key r) (pure bytes) (λ _. Accounted o k)
  reply_held key r bytes = Triple-pure bytes λ s h. h.accounts

  set_found-Accounted :
      (w : World) (room_name : Bytes) (args : List Bytes) (key value : Bytes) (now : ℤ)
      (opts : SetOptions) (r : Option Record)
      → Triple
          (Holds o k key r)
          (set_found w room_name args key value now opts r)
          (λ _. Accounted o k)
  unfolding set_found
  set_found-Accounted w room_name args key value now opts r =
      Triple-if (opts.nx && is_some r || opts.xx && not (is_some r)) _ _
        (λ _.
          Triple-weaken nil (drop_pointer key r) (λ _ s h. h) (Frames-Accounted o k nil nil-Frames))
        λ _. Holds-then o k _ _ (gets-Frames (version_under room_name key r)) key r λ overwritten.
          Holds-then o k _ _ (next_version-Frames now overwritten) key r λ v.
            Triple-bind (write_local room_name key value opts.expire_at v r) _
              (write_local-Accounted room_name key value opts.expire_at v r)
              λ _.
                Accounted-then o k _ _ (append_local-Frames w room_name args opts.expire_at v)
                  λ _. reply (line "+OK")

  set_parsed-Accounted :
      (w : World) (room_name : Bytes) (args : List Bytes) (key value : Bytes) (now : ℤ)
      (p : Parsed SetOptions)
      → Triple (Accounted o k) (set_parsed w room_name args key value now p) (λ _. Accounted o k)
  unfolding set_parsed
  set_parsed-Accounted w room_name args key value now (rejected bytes) = reply bytes
  set_parsed-Accounted w room_name args key value now (parsed opts) =
      Accounted-then o k (with_metrics (λ m. record m { total_sets = add_u64 m.total_sets 1 })) _
        (record { room = λ s. refl; resident = λ s. refl; in_ram = λ s. refl })
        λ _.
          Triple-bind (lookup w room_name key) _ (lookup-Holds o k w room_name key)
            λ r. set_found-Accounted w room_name args key value now opts r

  handle_set-Accounted :
      (w : World) (room_name : Bytes) (args : List Bytes)
      → Triple (Accounted o k) (handle_set w room_name args) (λ _. Accounted o k)
  unfolding handle_set
  handle_set-Accounted w room_name [] = reply _
  handle_set-Accounted w room_name (name ∷ []) = reply _
  handle_set-Accounted w room_name (name ∷ key ∷ []) = reply _
  handle_set-Accounted w room_name (name ∷ key ∷ value ∷ opts) =
      Accounted-then o k (current_time_ms w) _ (current_time_ms-Frames w) λ now.
        set_parsed-Accounted w room_name (name ∷ key ∷ value ∷ opts) key value now
          (set_options now opts no_options)

  del_found-Accounted :
      (w : World) (room_name key : Bytes) (r : Option Record)
      → Triple (Holds o k key r) (del_found w room_name key r) (λ _. Accounted o k)
  unfolding del_found
  del_found-Accounted w room_name key none = Triple-pure 0 λ s h. h.accounts
  del_found-Accounted w room_name key (some r) =
      Holds-then o k _ _ (current_time_ms-Frames w) key (some r) λ now.
        Holds-then o k _ _ (next_version-Frames now r.timestamp_ms) key (some r) λ ts.
          Holds-then o k _ _ (gets-Frames (λ s. s.db.local_node_id)) key (some r) λ local.
            Triple-bind (erase_key key r) _ (erase_key-Holds o k key r) λ _.
              Triple-weaken _ (drop_pointer key none) (λ _ s h. h)
                (Accounted-then o k _ _
                  (set_tomb-Frames room_name key (record { ts = ts; node = local }))
                  λ _.
                    Accounted-then o k _ _
                      (append_local-Frames w room_name (codes "DEL" ∷ key ∷ []) (pos 0) ts)
                      λ _. Triple-pure 1 λ s h. h)

  del_loop-Accounted :
      (w : World) (room_name : Bytes) (keys : List Bytes) (deleted : ℕ)
      → Triple (Accounted o k) (del_loop w room_name keys deleted) (λ _. Accounted o k)
  unfolding del_loop
  del_loop-Accounted w room_name [] deleted = Triple-pure deleted λ s h. h
  del_loop-Accounted w room_name (key ∷ keys) deleted =
      Triple-bind (lookup w room_name key) _ (lookup-Holds o k w room_name key) λ r.
        Triple-bind (del_found w room_name key r) _ (del_found-Accounted w room_name key r)
          λ one. del_loop-Accounted w room_name keys (deleted + one)

  handle_del-Accounted :
      (w : World) (room_name : Bytes) (args : List Bytes)
      → Triple (Accounted o k) (handle_del w room_name args) (λ _. Accounted o k)
  unfolding handle_del
  handle_del-Accounted w room_name [] = reply _
  handle_del-Accounted w room_name (name ∷ []) = reply _
  handle_del-Accounted w room_name (name ∷ key ∷ keys) =
      Triple-bind (del_loop w room_name (key ∷ keys) 0) _
        (del_loop-Accounted w room_name (key ∷ keys) 0) λ deleted. reply (number deleted)

-- A room and the server whose accounts hold (the room's bytes, the resident bytes and the number of
-- keys in memory are, modulo 2 ^ 64, what the room holds on top of what the other rooms hold) have
-- accounts that hold behind every SET, whether it is refused, stopped by NX or XX, finds the key in
-- memory or in cold storage or makes it.
pub handle_set-accounts :
    (o k : ℕ) (w : World) (room_name : Bytes) (args : List Bytes) (s : Session)
    → Accounted o k s
    → Accounted o k (handle_set w room_name args s).1
handle_set-accounts o k w room_name args s h = (handle_set-Accounted o k w room_name args).at s h

-- The same accounts hold behind every DEL of any number of keys, present or not.
pub handle_del-accounts :
    (o k : ℕ) (w : World) (room_name : Bytes) (args : List Bytes) (s : Session)
    → Accounted o k s
    → Accounted o k (handle_del w room_name args s).1
handle_del-accounts o k w room_name args s h = (handle_del-Accounted o k w room_name args).at s h
