-- ===== src/Access/Accounts.antt =====
-- src/core/database.cpp: the accounts of a room and of the server never part from what the room
-- holds. `others` and `other_keys` are what the other rooms account for.
use somnium_db.Prelude.{
  ℕ, ◌+◌, ◌-◌, ◌%◌, ◌≡◌, sym, ap, ◌∙◌, ◌≤◌, Option, none, some, length, Bytes, bytes_Eq,
  bytes_eq_refl, arith,
}
use somnium_db.Prelude.Int.{ℤ, pos, ◌-ℤ◌, to_u64, w64}
use somnium_db.Prelude.Map.{
  IsMap, find, put, total, put-IsMap, erase-IsMap, total-put_new, total-put_old, total-erase,
  find-put, find-erase_self,
}
use somnium_db.Record.{Record, new_record, expired, record_cost}
use somnium_db.State.{Session, World, keys_cost}
use somnium_db.Access.{adopt, insert, set_value, stamp, erase_key, take_cold, from_cold}
use somnium_db.Triple.{Triple, Triple-pure, Triple-if, Triple-bind}

-- One for each key.
abbrev pub one_each : Bytes → Record → ℕ
one_each key r = 1

pub record Accounted (others other_keys : ℕ) (s : Session) : Type 0 where
  pub is_map : IsMap s.room.keys
  pub bytes : s.room.bytes ≡ keys_cost s.room % w64
  pub resident : s.db.metrics.resident_bytes ≡ (others + keys_cost s.room) % w64
  pub in_ram : s.db.metrics.keys_in_ram ≡ (other_keys + total one_each s.room.keys) % w64

-- The accounts, and the record that a pointer stands for.
pub record Holds (o k : ℕ) (key : Bytes) (r : Option Record) (s : Session) : Type 0 where
  pub accounts : Accounted o k s
  pub there : find key s.room.keys ≡ r

-- A charge of `x - y` on a 64-bit account of the true amount `c` accounts for `c + x - y`.
pub charge_lem :
    (t c x y : ℕ)
    → t ≡ c % w64
    → y ≤ c + x
    → (t + to_u64 (pos x -ℤ pos y)) % w64 ≡ (c + x - y) % w64
unfolding ◌-ℤ◌
charge_lem t c x y h le = ground arith

module _ (o k : ℕ) (key : Bytes) where
  adopt-Holds :
      (r : Record) → Triple (Holds o k key none) (adopt key r) (λ _. Holds o k key (some r))
  unfolding adopt
  adopt-Holds r = record {
    at = λ s h. record {
      accounts = record {
        is_map = put-IsMap key r s.room.keys h.accounts.is_map;
        bytes =
            omega (arith, h.accounts.bytes, total-put_new record_cost key r s.room.keys h.there);
        resident =
            omega (arith, h.accounts.resident, total-put_new record_cost key r s.room.keys h.there);
        in_ram = omega (arith, h.accounts.in_ram, total-put_new one_each key r s.room.keys h.there);
      };
      there = ground (arith, find-put key key r s.room.keys, bytes_eq_refl key);
    };
  }

  pub insert-Holds : Triple (Holds o k key none) (insert key) (λ r. Holds o k key (some r))
  unfolding insert
  insert-Holds =
      Triple-bind (adopt key new_record) _ (adopt-Holds new_record)
        λ _. Triple-pure new_record λ s h. h

  -- A record that is replaced where it stands.
  cost_replaced :
      (r q : Record) (s : Session)
      → Holds o k key (some r) s
      → total record_cost (put key q s.room.keys) + record_cost key r
        ≡ keys_cost s.room + record_cost key q
  cost_replaced r q s h = total-put_old record_cost key q r s.room.keys h.there

  count_replaced :
      (r q : Record) (s : Session)
      → Holds o k key (some r) s
      → total one_each (put key q s.room.keys) ≡ total one_each s.room.keys
  count_replaced r q s h = omega (arith, total-put_old one_each key q r s.room.keys h.there)

  there_replaced : (q : Record) (s : Session) → find key (put key q s.room.keys) ≡ some q
  there_replaced q s = ground (arith, find-put key key q s.room.keys, bytes_eq_refl key)

  pub set_value-Holds :
      (r : Record) (value : Bytes)
      → Triple (Holds o k key (some r)) (set_value key r value) (λ q. Holds o k key (some q))
  unfolding set_value record_cost
  set_value-Holds r value = record {
    at = λ s h.
        let q : Record = record r { value = value } in
        let c = cost_replaced r q s h in
        record {
          accounts = record {
            is_map = put-IsMap key q s.room.keys h.accounts.is_map;
            bytes =
                charge_lem s.room.bytes (keys_cost s.room) (length value) (length r.value)
                  h.accounts.bytes (omega (arith, c))
                ∙ ap (λ (n : ℕ). n % w64) (omega (arith, c));
            resident =
                charge_lem s.db.metrics.resident_bytes (o + keys_cost s.room) (length value)
                  (length r.value) h.accounts.resident (omega (arith, c))
                ∙ ap (λ (n : ℕ). n % w64) (omega (arith, c));
            in_ram =
                h.accounts.in_ram ∙ ap (λ (n : ℕ). (k + n) % w64) (sym (count_replaced r q s h));
          };
          there = there_replaced q s;
        };
  }

  pub stamp-Holds :
      (r : Record) (at : ℤ) (ts node : ℕ)
      → Triple (Holds o k key (some r)) (stamp key r at ts node) (λ q. Holds o k key (some q))
  unfolding stamp record_cost
  stamp-Holds r at ts node = record {
    at = λ s h.
        let q : Record = record r { expire_at = at; timestamp_ms = ts; node_id = node } in
        let c = cost_replaced r q s h in
        record {
          accounts = record {
            is_map = put-IsMap key q s.room.keys h.accounts.is_map;
            bytes = h.accounts.bytes ∙ ap (λ (n : ℕ). n % w64) (omega (arith, c));
            resident = h.accounts.resident ∙ ap (λ (n : ℕ). n % w64) (omega (arith, c));
            in_ram =
                h.accounts.in_ram ∙ ap (λ (n : ℕ). (k + n) % w64) (sym (count_replaced r q s h));
          };
          there = there_replaced q s;
        };
  }

  pub erase_key-Holds :
      (r : Record) → Triple (Holds o k key (some r)) (erase_key key r) (λ _. Holds o k key none)
  unfolding erase_key
  erase_key-Holds r = record {
    at = λ s h.
        let c = total-erase record_cost key r s.room.keys h.there in
        let n = total-erase one_each key r s.room.keys h.there in
        record {
          accounts = record {
            is_map = erase-IsMap key s.room.keys h.accounts.is_map;
            bytes =
                charge_lem s.room.bytes (keys_cost s.room) 0 (record_cost key r) h.accounts.bytes
                  (omega (arith, c))
                ∙ ap (λ (n : ℕ). n % w64) (omega (arith, c));
            resident =
                charge_lem s.db.metrics.resident_bytes (o + keys_cost s.room) 0 (record_cost key r)
                  h.accounts.resident (omega (arith, c))
                ∙ ap (λ (n : ℕ). n % w64) (omega (arith, c));
            in_ram = omega (arith, h.accounts.in_ram, n);
          };
          there = find-erase_self key s.room.keys h.accounts.is_map;
        };
  }

  -- What leaves the room and the two counters alone keeps the accounts.
  pub from_cold-Holds :
      (now : ℤ) (found : Option Record)
      → Triple (Holds o k key none) (from_cold key now found) (λ r. Holds o k key r)
  unfolding from_cold
  from_cold-Holds now none = Triple-pure none λ s h. h
  from_cold-Holds now (some r) =
      Triple-if (expired r now) _ _ (λ _. Triple-pure none λ s h. h)
        (λ _. Triple-bind (adopt key r) _ (adopt-Holds r) λ _. Triple-pure (some r) λ s h. h)

  pub take_cold-Holds :
      (w : World) (room_name : Bytes)
      → Triple (Holds o k key none) (take_cold w room_name key) (λ _. Holds o k key none)
  unfolding take_cold
  take_cold-Holds w room_name = record {
    at = λ s h. record {
      accounts = record {
        is_map = h.accounts.is_map;
        bytes = h.accounts.bytes;
        resident = h.accounts.resident;
        in_ram = h.accounts.in_ram;
      };
      there = h.there;
    };
  }
