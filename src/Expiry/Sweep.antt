-- ===== src/Expiry/Sweep.antt =====
-- src/core/commands.cpp: what the sweep over expired keys leaves, and that the accounts survive it.
use somnium_db.Prelude.{
  ℕ, ◌≡◌, refl, sym, ap, ◌∙◌, arith, true, false, Option, none, some, [], ◌∷◌, Bytes, bytes_Eq,
  bytes_eq_refl, bytes_eq, bytes_eq_iff, if◌then◌else◌, Bool-cases, inl, inr,
}
use somnium_db.Prelude.Int.{ℤ}
use somnium_db.Prelude.Map.{Map, IsMap, find, find-erase_ne, find-erase_self}
use somnium_db.Record.{Record, expired}
use somnium_db.State.{Session, pure}
use somnium_db.Access.{erase_key}
use somnium_db.Access.Accounts.{Accounted, erase_key-Holds}
use somnium_db.Triple.{Triple, Triple-pure, Triple-if, Triple-bind}
use somnium_db.Expiry.{sweep_expired, sweep_room}

-- The part of the entries that are not expired.
pub fresh : ℤ → Option Record → Option Record
fresh now none = none
fresh now (some r) = if expired r now then none else some r

-- The entries still to come stand in memory as they are, and every entry of memory that is not among
-- them is what `fresh` leaves of the map `m` at the start.
record Swept (o k : ℕ) (now : ℤ) (m rest : Map Bytes Record) (s : Session) : Type 0 where
  accounts : Accounted o k s
  unique : IsMap rest
  to_come :
      (key : Bytes) (r : Record)
      → find key rest ≡ some r
      → (find key s.room.keys ≡ some r) × (find key m ≡ some r)
  done : (key : Bytes) → find key rest ≡ none → find key s.room.keys ≡ fresh now (find key m)

module _ (o k : ℕ) (now : ℤ) (m : Map Bytes Record) where
  erased :
      (key : Bytes) (r : Record) (rest : Map Bytes Record)
      → expired r now ≡ true
      → Triple (Swept o k now m ((key, r) ∷ rest)) (erase_key key r) (λ _. Swept o k now m rest)
  unfolding erase_key find fresh
  erased key r rest gone = record {
    at = λ s h.
        let here = h.to_come key r (ground (arith, bytes_eq_refl key)) in
        record {
          accounts =
              ((erase_key-Holds o k key r).at s
                (record { accounts = h.accounts; there = here.0 })).accounts;
          unique = h.unique.1;
          to_come = λ j q e.
              let apart : bytes_eq key j ≡ false =
                ground (arith, h.unique.0, bytes_eq_iff key j, e) in
              let there = h.to_come j q (ground (arith, apart, e)) in
              (find-erase_ne key j s.room.keys apart ∙ there.0, there.1);
          done = λ j e. elim (Bool-cases (bytes_eq key j)) [
            | inl same ↦ ground (
              arith,
              here,
              gone,
              bytes_eq_iff key j,
              find-erase_self key s.room.keys h.accounts.is_map,
            )
            | inr apart ↦
                find-erase_ne key j s.room.keys apart ∙ h.done j (ground (arith, apart, e))
          ];
        };
  }

  kept_there :
      (key : Bytes) (r : Record) (rest : Map Bytes Record)
      → expired r now ≡ false
      → Triple (Swept o k now m ((key, r) ∷ rest)) (pure tt) (λ _. Swept o k now m rest)
  unfolding find fresh
  kept_there key r rest fresh_r = record {
    at = λ s h.
        let here = h.to_come key r (ground (arith, bytes_eq_refl key)) in
        record {
          accounts = h.accounts;
          unique = h.unique.1;
          to_come = λ j q e. h.to_come j q (ground (arith, h.unique.0, bytes_eq_iff key j, e));
          done = λ j e. elim (Bool-cases (bytes_eq key j)) [
            | inl same ↦ ground (arith, here, fresh_r, bytes_eq_iff key j)
            | inr apart ↦ h.done j (ground (arith, apart, e))
          ];
        };
  }

  drop_one :
      (key : Bytes) (r : Record) (rest : Map Bytes Record)
      → Triple
          (Swept o k now m ((key, r) ∷ rest))
          (if expired r now then erase_key key r else pure tt)
          (λ _. Swept o k now m rest)
  drop_one key r rest = Triple-if (expired r now) _ _ (erased key r rest) (kept_there key r rest)

  sweep_expired-Swept :
      (rest : Map Bytes Record)
      → Triple (Swept o k now m rest) (sweep_expired now rest) (λ _. Swept o k now m [])
  unfolding sweep_expired
  sweep_expired-Swept [] = Triple-pure tt λ s h. h
  sweep_expired-Swept ((key, r) ∷ rest) =
      Triple-bind _ _ (drop_one key r rest) λ _. sweep_expired-Swept rest

-- The sweep of a room keeps the accounts, and leaves exactly the keys that are not expired, each with
-- its record.
pub sweep_room-fresh :
    (o k : ℕ) (now : ℤ) (s : Session)
    → Accounted o k s
    → Accounted o k (sweep_room now s).1
      × ((key : Bytes) → find key (sweep_room now s).1.room.keys ≡ fresh now (find key s.room.keys))
unfolding sweep_room find fresh
sweep_room-fresh o k now s h =
    let swept : Swept o k now s.room.keys [] (sweep_room now s).1 =
      (sweep_expired-Swept o k now s.room.keys s.room.keys).at s (record {
        accounts = h;
        unique = h.is_map;
        to_come = λ key r e. (e, e);
        done = λ key e. e ∙ sym (ap (λ r. fresh now r) e);
      }) in
    (swept.accounts, λ key. swept.done key refl)
