-- ===== src/Rooms/Budget.antt =====
-- src/core/rooms.cpp: the budget of active rooms, and what sleep and waking do to a room's keys.
use somnium_db.Prelude.{
  ℕ, ◌+◌, ◌≤◌, ◌<◌, ◌≡◌, ◌⊎◌, inl, inr, refl, ap, ◌∙◌, arith, Bool, true, false, not, ◌&&◌, some,
  [], length, Bytes, bytes_Eq, leb, if◌then◌else◌, Bool-cases, Option-cases, Option, none,
}
use somnium_db.Prelude.Int.{w64}
use somnium_db.Prelude.Map.{Map, IsMap, find, find-put_self}
use somnium_db.Record.{Record}
use somnium_db.Snapshot
use somnium_db.Snapshot.RoundTrip
use somnium_db.Snapshot.Save.{save, save-encode}
use somnium_db.Snapshot.RoundTrip.{AllFit}
use somnium_db.Cold.{fits}
use somnium_db.State.{
  Session, World, loading, hibernating, keys_cost, M, pure, gets, with_db, with_room, add_u64,
  charge, current_time_ms,
}
use somnium_db.Triple.{Triple, Triple-pure, Triple-if, Triple-bind}
use somnium_db.Rooms.{
  max_active_rooms, is_active, is_sleeping, set_state, load_file, wakeup_room, load_readable,
  saved_as, load_room, activate, save_room, hibernate, settle, put_to_sleep, give_back, take_in,
  reserve,
}

-- So many places are taken.
abbrev Places : ℕ → Session → Type 0
Places p s = s.db.active_rooms ≡ p

-- The places behind an attempt to wake a room: one more if it worked, and as many as before if not.
abbrev pub One : ℕ → Bool → Session → Type 0
One p ok s = s.db.active_rooms ≡ (if ok then p + 1 else p)

-- What an attempt within the budget leaves of `p` places.
abbrev Budgeted : ℕ → Bool → Session → Type 0
Budgeted p ok s = (s.db.active_rooms ≤ max_active_rooms) × (ok ≡ false → s.db.active_rooms ≡ p)

one_lem :
    (p : ℕ) (ok : Bool) (s : Session) → p + 1 ≤ max_active_rooms → One p ok s → Budgeted p ok s
one_lem p true s below h = (omega (arith, below, h), λ e. ground arith)
one_lem p false s below h = (omega (arith, below, h), λ e. h)

module _ (w : World) (p : ℕ) (small : p + 1 < w64) where
  wakeup_room-Places : Triple (Places (p + 1)) (wakeup_room w) (λ _. Places (p + 1))
  unfolding wakeup_room load_file
  wakeup_room-Places = record { at = λ s h. ground (arith, h) }

  give_back-One : Triple (Places (p + 1)) give_back (One p)
  unfolding give_back
  give_back-One = record { at = λ s h. omega (arith, h, small) }

  take_in-One : (cost : ℕ) → Triple (Places (p + 1)) (take_in cost) (One p)
  unfolding take_in charge
  take_in-One cost = record { at = λ s h. h }

  load_room-One : (over_budget : Bool) → Triple (Places (p + 1)) (load_room w over_budget) (One p)
  unfolding load_room
  load_room-One over_budget =
      Triple-bind (set_state loading) _ (record { at = λ s h. h })
        λ _. Triple-bind (wakeup_room w) _ wakeup_room-Places λ _.
          Triple-bind (gets (λ s. keys_cost s.room)) _ (record { at = λ s h. h })
            λ cost.
              Triple-bind (gets (λ s. fits s.db.metrics.resident_bytes cost s.db.cold)) _
                (record { at = λ s h. h })
                λ left.
                  Triple-if (not over_budget && not left) give_back (take_in cost)
                    (λ _. give_back-One) λ _. take_in-One cost

  reserve-One : (over_budget : Bool) → Triple (Places p) (reserve w over_budget) (One p)
  unfolding reserve
  reserve-One over_budget =
      Triple-bind (with_db (λ db. record db { active_rooms = add_u64 db.active_rooms 1 })) _
        (record { at = λ s h. omega (arith, h, small) }) λ _. load_room-One over_budget

activate-Budgeted :
    (w : World) (p : ℕ) → p ≤ max_active_rooms → Triple (Places p) (activate w false) (Budgeted p)
unfolding activate current_time_ms
activate-Budgeted w p le = Triple-bind (current_time_ms w) _ now_Places λ now.
    Triple-bind (with_room (λ room. record room { last_access_time = now })) _
      (record { at = λ s h. h })
      λ _.
        Triple-bind (gets (λ s. is_active s.room.state)) _ (record { at = λ s h. h })
          λ awake.
            Triple-bind {Q = λ full s. Places p s × (full ≡ (leb max_active_rooms p && true))}
              (gets (λ s. leb max_active_rooms s.db.active_rooms && true)) _
              (record { at = λ s h. (h, ap (λ n. leb max_active_rooms n && true) h) })
              λ full.
                Triple-if awake (pure true) (if full then pure false else reserve w false)
                  (λ _. Triple-pure true λ s h. (omega (arith, h.0, le), λ e. h.0))
                  λ _.
                    Triple-if full (pure false) (reserve w false)
                      (λ _. Triple-pure false λ s h. (omega (arith, h.0, le), λ e. h.0))
                      λ empty. record {
                        at = λ s h.
                            let below : p + 1 ≤ max_active_rooms = ground (arith, h.1, empty) in
                            one_lem p (reserve w false s).0 (reserve w false s).1 below
                              ((reserve-One w p (omega (arith, below)) false).at s h.0);
                      }
  where
    now_Places : Triple (Places p) (current_time_ms w) (λ _. Places p)
    now_Places = record { at = λ s h. h }

-- From any number of places that a room may take within the budget of three, an attempt to wake the
-- room within the budget ends with at most three places taken; a refused attempt leaves their number
-- as it was.
pub activate-places :
    (w : World) (s : Session)
    → s.db.active_rooms ≤ max_active_rooms
    → ((activate w false s).1.db.active_rooms ≤ max_active_rooms)
      × ((activate w false s).0 ≡ true ⊎ (activate w false s).1.db.active_rooms ≡ s.db.active_rooms)
activate-places w s h =
    let ended = (activate-Budgeted w s.db.active_rooms h).at s refl in
    (
      ended.0,
      elim (Bool-cases (activate w false s).0) [
        | inl woke ↦ inl woke
        | inr refused ↦ inr (ended.1 refused)
      ],
    )

-- What `hibernate` does once the snapshot is saved or not.
after : Option Bytes → Session → Bool × Session
after saved s =
    let t : Bool × Session =
      saved_as saved (record s { room = record s.room { state = hibernating } }) in
    settle (length s.room.keys) (keys_cost s.room) t.0 t.1

hibernate-after :
    (w : World) (s : Session) (saved : Option Bytes)
    → is_sleeping s.room.state ≡ false
    → save (w.save_io s.db.calls) s.room.keys ≡ saved
    → hibernate w s ≡ after saved s
unfolding hibernate put_to_sleep save_room after
hibernate-after w s saved awake e =
    ap (λ a. (if◌then◌else◌ {A = M Bool} a (pure true) (put_to_sleep w)) s) awake
    ∙ ap (λ f. after f s) e

wakeup_room-loads :
    (w : World) (s : Session) (file : Bytes) (keys : Map Bytes Record)
    → find s.room.name s.db.snapshots ≡ some file
    → w.read_ok s.db.calls ≡ true
    → Snapshot.decode file ≡ some keys
    → (wakeup_room w s).1.room.keys ≡ keys
unfolding wakeup_room load_readable load_file
wakeup_room-loads w s file keys there readable decoded = ground (arith, there, readable, decoded)

-- The keys of a room that hibernates come back when its snapshot is read, in the same order, where the
-- save goes through and the file can be read, and where they are a well-formed map whose records fit the
-- format and bear versions that `normalize` leaves as they are.
pub wakeup_room-hibernate :
    (w : World) (s : Session)
    → is_sleeping s.room.state ≡ false
    → (hibernate w s).0 ≡ true
    → IsMap s.room.keys
    → AllFit s.room.keys
    → length s.room.keys < w64
    → w.read_ok (hibernate w s).1.db.calls ≡ true
    → ((hibernate w s).1.room.keys ≡ [])
      × ((wakeup_room w (hibernate w s).1).1.room.keys ≡ s.room.keys)
unfolding after saved_as settle charge
wakeup_room-hibernate w s awake slept is_map fit small readable =
    elim (Option-cases (save (w.save_io s.db.calls) s.room.keys)) [
      | inl failed ↦
          let stayed : (hibernate w s).0 ≡ false =
            ap (λ (t : Bool × Session). t.0) (hibernate-after w s none awake failed) in
          absurd (cc (slept, stayed))
      | inr (file, saved) ↦
          let e = hibernate-after w s (some file) awake saved in
          (
            ap (λ (t : Bool × Session). t.1.room.keys) e,
            wakeup_room-loads w (hibernate w s).1 file s.room.keys
                (ap (λ (t : Bool × Session). find t.1.room.name t.1.db.snapshots) e
                  ∙ find-put_self s.room.name file s.db.snapshots)
                readable
                (ap Snapshot.decode (save-encode (w.save_io s.db.calls) s.room.keys file saved)
                  ∙ Snapshot.RoundTrip.decode-encode_keys s.room.keys is_map fit small),
          )
    ]
