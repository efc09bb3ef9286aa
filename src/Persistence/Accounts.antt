-- ===== src/Persistence/Accounts.antt =====
-- src/core/persistence.cpp, `replay_record`: the accounts survive it, whatever the record.
use somnium_db.Prelude.{
  ℕ, refl, ◌^◌, ◌%◌, ◌&&◌, Option, none, some, List, [], ◌∷◌, length, Bytes, bytes_Eq, bytes_eq,
  codes, leb,
}
use somnium_db.Prelude.Int.{ℤ}
use somnium_db.Prelude.Map.{find}
use somnium_db.Hlc.{normalize}
use somnium_db.Record.{Record}
use somnium_db.Aof.{AofRecord}
use somnium_db.State.{Session, Version, pure}
use somnium_db.Access.{set_value, stamp, erase_key}
use somnium_db.Access.Accounts.{
  Accounted, Holds, insert-Holds, set_value-Holds, stamp-Holds, erase_key-Holds,
}
use somnium_db.Access.Lookup.{Frames, Frames-Accounted, Frames-Holds, Accounted-then}
use somnium_db.Crdt.{erase_found}
use somnium_db.Writes.Frames.{set_tomb-Frames}
use somnium_db.Writes.Accounts.{drop_pointer}
use somnium_db.Triple.{Triple, Triple-pure, Triple-if, Triple-bind, Triple-read, Triple-weaken}
use somnium_db.Persistence.{
  observe_clock, replay_found, put_found, replay_put, is_merge, merge_numbers, replay_set,
  replay_pairs, set_expiry, replay_expiry, delete_found, replay_delete, sets_expiry, deletes,
  replay_command,
}

observe_clock-Frames : (ts : ℕ) → Frames (observe_clock ts)
unfolding observe_clock
observe_clock-Frames ts = record { room = λ s. refl; resident = λ s. refl; in_ram = λ s. refl }

module _ (o k : ℕ) where
  replay_found-Holds :
      (key : Bytes) (r : Option Record)
      → Triple (Holds o k key r) (replay_found key r) (λ q. Holds o k key (some q))
  unfolding replay_found
  replay_found-Holds key none = insert-Holds o k key
  replay_found-Holds key (some r) = Triple-pure r λ s h. h

  put_found-Accounted :
      (key value : Bytes) (at : ℤ) (ts from : ℕ) (r : Option Record)
      → Triple (Holds o k key r) (put_found key value at ts from r) (λ _. Accounted o k)
  unfolding put_found
  put_found-Accounted key value at ts from r =
      Triple-bind (replay_found key r) _ (replay_found-Holds key r) λ q.
        Triple-bind (set_value key q value) _ (set_value-Holds o k key q value) λ q'.
          Triple-bind (stamp key q' at (normalize ts) (from % 2 ^ 32)) _
            (stamp-Holds o k key q' at _ _)
            λ q''.
              Triple-weaken (observe_clock (normalize ts)) (λ s h. h)
                (λ _. drop_pointer o k key (some q''))
                (Frames-Holds o k _ (observe_clock-Frames (normalize ts)) key (some q''))

  -- An action on the record that stands under a key.
  at_key :
      (key : Bytes) (m : Option Record → Session → Unit {0} × Session)
      → ((r : Option Record) → Triple (Holds o k key r) (m r) (λ _. Accounted o k))
      → Triple (Accounted o k) (λ s. m (find key s.room.keys) s) (λ _. Accounted o k)
  at_key key m h =
      Triple-read (λ s. find key s.room.keys) m
        λ r. Triple-weaken (m r) (λ s p. record { accounts = p.0; there = p.1 }) (λ _ s q. q) (h r)

  replay_put-Accounted :
      (key value : Bytes) (at : ℤ) (ts from : ℕ)
      → Triple (Accounted o k) (replay_put key value at ts from) (λ _. Accounted o k)
  unfolding replay_put
  replay_put-Accounted key value at ts from =
      at_key key (put_found key value at ts from) (put_found-Accounted key value at ts from)

  done : Triple (Accounted o k) (pure tt) (λ _. Accounted o k)
  done = Triple-pure tt λ s h. h

  replay_set-Accounted :
      (at : ℤ) (v : Option (ℕ × ℕ)) (args : List Bytes)
      → Triple (Accounted o k) (replay_set at v args) (λ _. Accounted o k)
  unfolding replay_set
  replay_set-Accounted at (some (ts, from)) (name ∷ key ∷ value ∷ rest) =
      replay_put-Accounted key value at ts from
  replay_set-Accounted at (some v) (name ∷ key ∷ []) = done
  replay_set-Accounted at (some v) (name ∷ []) = done
  replay_set-Accounted at (some v) [] = done
  replay_set-Accounted at none args = done

  replay_pairs-Accounted :
      (rec : AofRecord) (pairs : List Bytes)
      → Triple (Accounted o k) (replay_pairs rec pairs) (λ _. Accounted o k)
  unfolding replay_pairs
  replay_pairs-Accounted rec (key ∷ value ∷ rest) =
      Triple-bind (replay_put key value _ _ _) _ (replay_put-Accounted key value _ _ _)
        λ _. replay_pairs-Accounted rec rest
  replay_pairs-Accounted rec (key ∷ []) = done
  replay_pairs-Accounted rec [] = done

  set_expiry-Accounted :
      (key : Bytes) (at : ℤ) (r : Option Record)
      → Triple (Holds o k key r) (set_expiry key at r) (λ _. Accounted o k)
  unfolding set_expiry
  set_expiry-Accounted key at none = Triple-pure tt λ s h. h.accounts
  set_expiry-Accounted key at (some r) =
      Triple-bind (stamp key r at _ _) _ (stamp-Holds o k key r at _ _)
        λ q. Triple-pure tt λ s h. h.accounts

  erase_found-Accounted :
      (key : Bytes) (r : Option Record)
      → Triple (Holds o k key r) (erase_found key r) (λ _. Accounted o k)
  unfolding erase_found
  erase_found-Accounted key none = Triple-pure tt λ s h. h.accounts
  erase_found-Accounted key (some r) =
      Triple-weaken (erase_key key r) (λ s h. h) (λ _. drop_pointer o k key none)
        (erase_key-Holds o k key r)

  delete_found-Accounted :
      (room_name key : Bytes) (v : Version) (r : Option Record)
      → Triple (Holds o k key r) (delete_found room_name key v r) (λ _. Accounted o k)
  unfolding delete_found
  delete_found-Accounted room_name key v r =
      Triple-bind (erase_found key r) _ (erase_found-Accounted key r) λ _.
        Accounted-then o k _ _ (set_tomb-Frames room_name key v)
          λ _. Frames-Accounted o k _ (observe_clock-Frames v.ts)

  replay_expiry-Accounted :
      (at : ℤ) (args : List Bytes)
      → Triple (Accounted o k) (replay_expiry at args) (λ _. Accounted o k)
  unfolding replay_expiry
  replay_expiry-Accounted at (name ∷ key ∷ rest) =
      at_key key (set_expiry key at) (set_expiry-Accounted key at)
  replay_expiry-Accounted at (name ∷ []) = done
  replay_expiry-Accounted at [] = done

  replay_delete-Accounted :
      (rec : AofRecord) (args : List Bytes)
      → Triple (Accounted o k) (replay_delete rec args) (λ _. Accounted o k)
  unfolding replay_delete
  replay_delete-Accounted rec (name ∷ key ∷ rest) =
      at_key key (delete_found rec.room key _) (delete_found-Accounted rec.room key _)
  replay_delete-Accounted rec (name ∷ []) = done
  replay_delete-Accounted rec [] = done

  mset-Accounted :
      (rec : AofRecord) (args : List Bytes)
      → Triple
          (Accounted o k)
          (elim args [ [] ↦ pure tt | name ∷ pairs ↦ replay_pairs rec pairs ])
          (λ _. Accounted o k)
  mset-Accounted rec [] = done
  mset-Accounted rec (name ∷ pairs) = replay_pairs-Accounted rec pairs

  replay-Triple :
      (rec : AofRecord) (command : Bytes)
      → Triple (Accounted o k) (replay_command rec command) (λ _. Accounted o k)
  unfolding replay_command
  replay-Triple rec command =
      Triple-if (is_merge command rec.args) _ _
        (λ _. replay_set-Accounted rec.expire_at (merge_numbers rec.args) rec.args)
        λ _.
          Triple-if (bytes_eq command (codes "SET") && leb 3 (length rec.args)) _ _
            (λ _.
              replay_set-Accounted rec.expire_at (some (rec.timestamp_ms, rec.node_id)) rec.args)
            λ _.
              Triple-if (bytes_eq command (codes "MSET")) _ _ (λ _. mset-Accounted rec rec.args)
                λ _.
                  Triple-if (sets_expiry command && leb 2 (length rec.args)) _ _
                    (λ _. replay_expiry-Accounted rec.expire_at rec.args)
                    λ _.
                      Triple-if (deletes command rec.args) _ _
                        (λ _. replay_delete-Accounted rec rec.args) λ _. done

-- Replaying a record, of whatever command and with whatever arguments, keeps the room's bytes and the
-- server's totals equal to what the rooms hold.
pub replay_command-Accounted :
    (others other_keys : ℕ) (rec : AofRecord) (command : Bytes) (s : Session)
    → Accounted others other_keys s
    → Accounted others other_keys (replay_command rec command s).1
replay_command-Accounted others other_keys rec command s h =
    (replay-Triple others other_keys rec command).at s h
