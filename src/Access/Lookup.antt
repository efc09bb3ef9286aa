-- ===== src/Access/Lookup.antt =====
-- src/core/database.cpp, `lookup`: the accounts survive it, and it returns what then stands in memory.
use somnium_db.Prelude.{ℕ, ◌≡◌, refl, sym, subst, not, Option, none, some, Bytes, bytes_Eq}
use somnium_db.Prelude.Int.{ℤ}
use somnium_db.Prelude.Map.{IsMap, find}
use somnium_db.Record.{Record, expired}
use somnium_db.State.{Session, World, M, Room, ◌>>=◌, with_metrics, add_u64, current_time_ms}
use somnium_db.Access.{erase_key, take_cold, lookup_in, lookup}
use somnium_db.Access.Accounts.{Accounted, Holds, erase_key-Holds, take_cold-Holds, from_cold-Holds}
use somnium_db.Triple.{Triple, Triple-pure, Triple-if, Triple-bind, Triple-read, Triple-weaken}

-- What an action leaves alone when it does not touch the accounts.
pub record Frames {A : Type 0} (m : M A) : Type 0 where
  pub room : (s : Session) → (m s).1.room ≡ s.room
  pub resident : (s : Session) → (m s).1.db.metrics.resident_bytes ≡ s.db.metrics.resident_bytes
  pub in_ram : (s : Session) → (m s).1.db.metrics.keys_in_ram ≡ s.db.metrics.keys_in_ram

module _ (o k : ℕ) {A : Type 0} (m : M A) (same : Frames m) where
  pub Frames-Accounted : Triple (Accounted o k) m (λ _. Accounted o k)
  Frames-Accounted = record {
    at = λ s h. record {
      is_map = subst (λ (room : Room). IsMap room.keys) (sym (same.room s)) h.is_map;
      bytes = rw (same.room s, h.bytes);
      resident = rw (same.room s, same.resident s, h.resident);
      in_ram = rw (same.room s, same.in_ram s, h.in_ram);
    };
  }

  pub Frames-Holds :
      (key : Bytes) (r : Option Record) → Triple (Holds o k key r) m (λ _. Holds o k key r)
  Frames-Holds key r = record {
    at = λ s h. record {
      accounts = Frames-Accounted.at s h.accounts;
      there = rw (same.room s, h.there);
    };
  }

module _ (o k : ℕ) (w : World) (room_name key : Bytes) where
  lookup_in-Holds :
      (now : ℤ) (r : Option Record)
      → Triple (Holds o k key r) (lookup_in w room_name key now r) (λ q. Holds o k key q)
  unfolding lookup_in
  lookup_in-Holds now none =
      Triple-bind (with_metrics (λ m. record m { cache_misses = add_u64 m.cache_misses 1 })) _
        (Frames-Holds o k _ (record { room = λ s. refl; resident = λ s. refl; in_ram = λ s. refl })
          key none)
        λ _.
          Triple-bind (take_cold w room_name key) _ (take_cold-Holds o k key w room_name)
            λ found. from_cold-Holds o k key now found
  lookup_in-Holds now (some r) =
      Triple-if (not (expired r now)) _ _
        (λ _.
          Triple-bind (with_metrics (λ m. record m { cache_hits = add_u64 m.cache_hits 1 })) _
            (Frames-Holds o k _
              (record { room = λ s. refl; resident = λ s. refl; in_ram = λ s. refl }) key (some r))
            λ _. Triple-pure (some r) λ s h. h)
        (λ _.
          Triple-bind (erase_key key r) _ (erase_key-Holds o k key r)
            λ _. Triple-pure none λ s h. h)

  -- `lookup` keeps the accounts, and what it returns is what memory then holds under the key.
  pub lookup-Holds : Triple (Accounted o k) (lookup w room_name key) (λ r. Holds o k key r)
  unfolding lookup current_time_ms
  lookup-Holds =
      Triple-bind (current_time_ms w) _
        (Frames-Accounted o k _
          (record { room = λ s. refl; resident = λ s. refl; in_ram = λ s. refl }))
        λ now.
          Triple-read (λ s. find key s.room.keys) (λ r. lookup_in w room_name key now r)
            λ r.
              Triple-weaken (lookup_in w room_name key now r)
                (λ s p. record { accounts = p.0; there = p.1 }) (λ _ s h. h) (lookup_in-Holds now r)

module _ (o k : ℕ) {A B : Type 0} (m : M A) (f : A → M B) (same : Frames m)
    {Q : B → Session → Type 0} where
  pub Accounted-then :
      ((a : A) → Triple (Accounted o k) (f a) Q) → Triple (Accounted o k) (m >>= f) Q
  Accounted-then h = Triple-bind m f (Frames-Accounted o k m same) h

  pub Holds-then :
      (key : Bytes) (r : Option Record)
      → ((a : A) → Triple (Holds o k key r) (f a) Q)
      → Triple (Holds o k key r) (m >>= f) Q
  Holds-then key r h = Triple-bind m f (Frames-Holds o k m same key r) h
