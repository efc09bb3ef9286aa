-- ===== src/Persistence/Replayed.antt =====
-- src/core/persistence.cpp, `replay_record`: what a SET and a DEL leave of the keys of the room.
use somnium_db.Prelude.{
  ℕ, ◌^◌, ◌%◌, ◌≤◌, ◌≡◌, ◌∙◌, refl, ap, subst, Option, none, some, [], ◌∷◌, Bytes, bytes_Eq,
  bytes_eq, bytes_eq_iff, codes, arith, if◌then◌else◌, inl, inr, Bool-cases,
}
use somnium_db.Prelude.Int.{ℤ}
use somnium_db.Prelude.Map.{
  Map, IsMap, find, put, erase, find-put, find-erase_self, find-erase_ne, put-IsMap, erase-IsMap,
}
use somnium_db.FsUtil.{uint32_max}
use somnium_db.Hlc.{normalize}
use somnium_db.Record.{Record}
use somnium_db.State.{Session, Version, charge}
use somnium_db.Access.{adopt, insert, set_value, stamp, erase_key}
use somnium_db.Crdt.{erase_found}
use somnium_db.Persistence.{
  observe_clock, replay_found, put_found, replay_put, is_merge, replay_set, delete_found,
  replay_delete, sets_expiry, deletes, replay_command,
}
use somnium_db.Persistence.Dump.{set_record, del_record}

-- A record whose version is as replay leaves it.
pub record IsNormal (r : Record) : Type 0 where
  pub timestamp : normalize r.timestamp_ms ≡ r.timestamp_ms
  pub node : r.node_id ≤ uint32_max

abbrev pub AreNormal : Map Bytes Record → Type 0
AreNormal [] = Unit
AreNormal ((key, r) ∷ keys) = IsNormal r × AreNormal keys

module _ (key j : Bytes) (q₁ q₂ q₃ : Record) (keys : Map Bytes Record) where
  put_twice :
      find j (put key q₃ (put key q₂ keys)) ≡ (if bytes_eq key j then some q₃ else find j keys)
  put_twice = ground (arith, find-put key j q₃ (put key q₂ keys), find-put key j q₂ keys)

  put_thrice :
      find j (put key q₃ (put key q₂ (put key q₁ keys)))
      ≡ (if bytes_eq key j then some q₃ else find j keys)
  put_thrice = ground (
    arith,
    find-put key j q₃ (put key q₂ (put key q₁ keys)),
    find-put key j q₂ (put key q₁ keys),
    find-put key j q₁ keys,
  )

-- The record that replay leaves under a key.
abbrev left : Bytes → ℤ → ℕ → ℕ → Record
left value at ts from = record {
  value = value;
  expire_at = at;
  timestamp_ms = normalize ts;
  node_id = from % 2 ^ 32;
}

left-IsNormal : (r : Record) → IsNormal r → left r.value r.expire_at r.timestamp_ms r.node_id ≡ r
left-IsNormal r n =
    let small : r.node_id % 2 ^ 32 ≡ r.node_id = omega (arith, n.node) in
    rw (n.timestamp, small) refl

put_found-find :
    (key value : Bytes) (at : ℤ) (ts from : ℕ) (r : Option Record) (j : Bytes) (s : Session)
    → find j (put_found key value at ts from r s).1.room.keys
      ≡ (if bytes_eq key j then some (left value at ts from) else find j s.room.keys)
unfolding put_found replay_found insert adopt set_value stamp charge observe_clock
put_found-find key value at ts from none j s =
    put_thrice key j _ _ (left value at ts from) s.room.keys
put_found-find key value at ts from (some r) j s =
    put_twice key j (left value at ts from) _ (left value at ts from) s.room.keys

put_found-IsMap :
    (key value : Bytes) (at : ℤ) (ts from : ℕ) (r : Option Record) (s : Session)
    → IsMap s.room.keys
    → IsMap (put_found key value at ts from r s).1.room.keys
unfolding put_found replay_found insert adopt set_value stamp charge observe_clock
put_found-IsMap key value at ts from none s h =
    put-IsMap key _ _ (put-IsMap key _ _ (put-IsMap key _ s.room.keys h))
put_found-IsMap key value at ts from (some r) s h =
    put-IsMap key _ _ (put-IsMap key _ s.room.keys h)

abbrev pub replayed_set : Bytes → Bytes → Record → Session → Session
replayed_set room key r s = (replay_command (set_record room key r) (codes "SET") s).1

pub replay-set_record :
    (room key : Bytes) (r : Record) (j : Bytes) (s : Session)
    → IsNormal r
    → find j (replayed_set room key r s).room.keys
      ≡ (if bytes_eq key j then some r else find j s.room.keys)
unfolding replay_command set_record is_merge replay_set replay_put bytes_eq
replay-set_record room key r j s n =
    put_found-find key r.value r.expire_at r.timestamp_ms r.node_id (find key s.room.keys) j s
    ∙ ap (λ q. if bytes_eq key j then some q else find j s.room.keys) (left-IsNormal r n)

pub replayed_set-IsMap :
    (room key : Bytes) (r : Record) (s : Session)
    → IsMap s.room.keys
    → IsMap (replayed_set room key r s).room.keys
unfolding replay_command set_record is_merge replay_set replay_put bytes_eq
replayed_set-IsMap room key r s h =
    put_found-IsMap key r.value r.expire_at r.timestamp_ms r.node_id (find key s.room.keys) s h

abbrev pub replayed_del : Bytes → Bytes → Version → Session → Session
replayed_del room key v s = (replay_command (del_record room key v) (codes "DEL") s).1

erase_found-find :
    (key j : Bytes) (r : Option Record) (s : Session)
    → IsMap s.room.keys
    → find key s.room.keys ≡ r
    → find j (erase_found key r s).1.room.keys
      ≡ (if bytes_eq key j then none else find j s.room.keys)
unfolding erase_found erase_key charge
erase_found-find key j none s h e = ground (arith, bytes_eq_iff key j)
erase_found-find key j (some r) s h e = elim (Bool-cases (bytes_eq key j)) [
  | inl same ↦ rw same (
      subst (λ i. find i (erase key s.room.keys) ≡ none) ((bytes_eq_iff key j).0 same)
        (find-erase_self key s.room.keys h))
  | inr other ↦ rw other (find-erase_ne key j s.room.keys other)
]

erase_found-IsMap :
    (key : Bytes) (r : Option Record) (s : Session)
    → IsMap s.room.keys
    → IsMap (erase_found key r s).1.room.keys
unfolding erase_found erase_key charge
erase_found-IsMap key none s h = h
erase_found-IsMap key (some r) s h = erase-IsMap key s.room.keys h

pub replay-del_record :
    (room key : Bytes) (v : Version) (j : Bytes) (s : Session)
    → IsMap s.room.keys
    → find j (replayed_del room key v s).room.keys
      ≡ (if bytes_eq key j then none else find j s.room.keys)
unfolding replay_command del_record is_merge replay_delete delete_found observe_clock sets_expiry
    deletes bytes_eq
replay-del_record room key v j s h = erase_found-find key j (find key s.room.keys) s h refl

pub replayed_del-IsMap :
    (room key : Bytes) (v : Version) (s : Session)
    → IsMap s.room.keys
    → IsMap (replayed_del room key v s).room.keys
unfolding replay_command del_record is_merge replay_delete delete_found observe_clock sets_expiry
    deletes bytes_eq
replayed_del-IsMap room key v s h = erase_found-IsMap key (find key s.room.keys) s h
