-- ===== src/Crdt/Merge.antt =====
-- CRDTMERGE of src/core/crdt.cpp: last writer wins, in whatever order the writes of other nodes come.
use somnium_db.Prelude.{
  ◌<◌, ◌≡◌, ◌≢◌, ◌⊎◌, inl, inr, refl, sym, ap, ◌∙◌, arith, Bool, true, false, Option, none, some,
  List, Bytes, bytes_Eq, if◌then◌else◌, Bool-cases,
}
use somnium_db.Prelude.Int.{ℤ}
use somnium_db.Prelude.Map.{find, find-put_self}
use somnium_db.Record.{Record}
use somnium_db.State.{Session, World, Db, Version, leb_version, M, pure}
use somnium_db.Access.{insert, adopt, set_value, stamp}
use somnium_db.Tombstones.{stale, find_tomb}
use somnium_db.Writes.{record_access, append_aof, found_or_new}
use somnium_db.Crdt.{merge_write, merge_found, ignored}

-- A write from another node, as CRDTMERGE carries it.
pub record Write : Type 0 where
  pub value : Bytes
  pub expire_at : ℤ
  pub version : Version

-- Its record, once it has won.
abbrev pub record_of : Write → Record
record_of m = record {
  value = m.value;
  expire_at = m.expire_at;
  timestamp_ms = m.version.ts;
  node_id = m.version.node;
}

-- `merge_found` on what stands in memory.
abbrev pub merge : World → Bytes → List Bytes → Bytes → Write → Session → Session
merge w room_name args key m s =
    (merge_found w room_name args key m.value (some m.expire_at) m.version (find key s.room.keys)
      s).1

Older : Version → Version → Type 0
Older a b = a.ts < b.ts ⊎ ((a.ts ≡ b.ts) × (a.node < b.node))

Older-cases : (a b : Version) → a.ts ≢ b.ts ⊎ a.node ≢ b.node → Older a b ⊎ Older b a
unfolding Older
Older-cases a b h = ground arith

module _ (room_name key : Bytes) where
  -- What is newer than a write that is not stale is not stale either.
  stale_mono :
      (r : Option Record) (a b : Version) (db : Db)
      → Older a b
      → stale room_name key r a db ≡ false
      → stale room_name key r b db ≡ false
  unfolding stale leb_version Older find_tomb
  stale_mono (some r) a b db lt h = ground arith
  stale_mono none a b db lt h = ground arith

  newer_wins :
      (a b : Write) (db : Db)
      → Older a.version b.version
      → stale room_name key (some (record_of a)) b.version db ≡ false
  unfolding stale leb_version Older
  newer_wins a b db lt = ground arith

  Older-loses :
      (a b : Write) (db : Db)
      → Older a.version b.version
      → stale room_name key (some (record_of b)) a.version db ≡ true
  unfolding stale leb_version Older
  Older-loses a b db lt = ground arith

module _ (w : World) (room_name : Bytes) (args : List Bytes) (key : Bytes) where
  -- What a write that is not stale leaves under its key.
  written :
      (m : Write) (r : Option Record) (s : Session)
      → find key
          (merge_write w room_name args key m.value (some m.expire_at) m.version r s).1.room.keys
        ≡ some (record_of m)
  unfolding merge_write found_or_new insert adopt set_value stamp record_access append_aof
  written m none s = find-put_self key (record_of m) _
  written m (some r) s = find-put_self key (record_of m) _

  write : Write → Session → M Bytes
  write m s =
      merge_write w room_name args key m.value (some m.expire_at) m.version (find key s.room.keys)

  merge-unless :
      (m : Write) (s : Session) (old : Bool)
      → stale room_name key (find key s.room.keys) m.version s.db ≡ old
      → merge w room_name args key m s ≡ (if old then s else (write m s s).1)
  unfolding merge_found write
  merge-unless m s true h = ap (λ b. (if◌then◌else◌ b (pure ignored) (write m s) s).1) h
  merge-unless m s false h = ap (λ b. (if◌then◌else◌ b (pure ignored) (write m s) s).1) h

  -- A merge leaves the record that stood, if the write is stale against it, or else the write's own.
  find-merge :
      (m : Write) (s : Session) (old : Bool)
      → stale room_name key (find key s.room.keys) m.version s.db ≡ old
      → find key (merge w room_name args key m s).room.keys
        ≡ (if old then find key s.room.keys else some (record_of m))
  unfolding write
  find-merge m s true h = ap (λ (t : Session). find key t.room.keys) (merge-unless m s true h)
  find-merge m s false h =
      ap (λ (t : Session). find key t.room.keys) (merge-unless m s false h)
      ∙ written m (find key s.room.keys) s

  -- What stands once the older write and then the newer one came.
  in_order :
      (a b : Write) (s : Session) (old : Bool)
      → Older a.version b.version
      → stale room_name key (find key s.room.keys) b.version s.db ≡ old
      → find key (merge w room_name args key b (merge w room_name args key a s)).room.keys
        ≡ (if old then find key s.room.keys else some (record_of b))
  in_order a b s old lt h =
      elim (Bool-cases (stale room_name key (find key s.room.keys) a.version s.db)) [
        | inl ha ↦
            ap (λ t. find key (merge w room_name args key b t).room.keys) (merge-unless a s true ha)
            ∙ find-merge b s old h
        | inr ha ↦
            let t : Session = merge w room_name args key a s in
            find-merge b t false (
              ap (λ r. stale room_name key r b.version t.db) (find-merge a s false ha)
              ∙ newer_wins room_name key a b t.db lt)
            ∙ ap (λ b'. if b' then find key s.room.keys else some (record_of b))
                (sym
                    (stale_mono room_name key (find key s.room.keys) a.version b.version s.db lt ha)
                  ∙ h)
      ]

  -- What stands once they came the other way round.
  out_of_order :
      (a b : Write) (s : Session) (old : Bool)
      → Older a.version b.version
      → stale room_name key (find key s.room.keys) b.version s.db ≡ old
      → find key (merge w room_name args key a (merge w room_name args key b s)).room.keys
        ≡ (if old then find key s.room.keys else some (record_of b))
  out_of_order a b s true lt h =
      ap (λ t. find key (merge w room_name args key a t).room.keys) (merge-unless b s true h)
      ∙ find-merge a s true (
          ground
            (arith, stale_mono room_name key (find key s.room.keys) a.version b.version s.db lt))
  out_of_order a b s false lt h =
      let t : Session = merge w room_name args key b s in
      find-merge a t true (
        ap (λ r. stale room_name key r a.version t.db) (find-merge b s false h)
        ∙ Older-loses room_name key a b t.db lt)
      ∙ find-merge b s false h

  -- Two writes of one key from other nodes, each with its deadline and with different versions, merged
  -- one after the other into what stands in memory as `lookup` has left it, whether or not that has
  -- expired: they leave the same record under the key whichever is merged first. Nothing is said of a
  -- write without a deadline, which keeps the record's own, nor of the lookups between the merges.
  pub merges_commute :
      (a b : Write) (s : Session)
      → a.version.ts ≢ b.version.ts ⊎ a.version.node ≢ b.version.node
      → find key (merge w room_name args key b (merge w room_name args key a s)).room.keys
        ≡ find key (merge w room_name args key a (merge w room_name args key b s)).room.keys
  merges_commute a b s h = elim (Older-cases a.version b.version h) [
    | inl lt ↦ in_order a b s _ lt refl ∙ sym (out_of_order a b s _ lt refl)
    | inr gt ↦ out_of_order b a s _ gt refl ∙ sym (in_order b a s _ gt refl)
  ]
