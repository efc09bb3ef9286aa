-- ===== src/Evict/Limits.antt =====
-- src/storage/eviction_manager.cpp: the eviction loop ends by its own test or by a failed write.
use somnium_db.Prelude.{
  ℕ, zero, suc, ◌+◌, ◌≤◌, ◌≡◌, ◌⊎◌, inl, inr, refl, ap, ◌∙◌, arith, Bool, true, false, not, Option,
  none, some, [], ◌∷◌, length, Bytes, bytes_Eq, if◌then◌else◌,
}
use somnium_db.Prelude.Map.{Map, find, erase}
use somnium_db.Record.{Record}
use somnium_db.Cold
use somnium_db.Cold.{fits, remember, choose, Sample}
use somnium_db.State.{Session, World, ◌>>=◌, pure, charge}
use somnium_db.Triple.{Triple, Triple-pure, Triple-if, Triple-bind}
use somnium_db.Evict.{
  over_limits, move_out, write_cold, evict_record, evict_found, evict_victim, evict_one,
  evict_rounds, evict_despised_keys,
}

length-erase :
    (key : Bytes) (r : Record) (m : Map Bytes Record)
    → find key m ≡ some r
    → length (erase key m) + 1 ≡ length m
unfolding find erase
length-erase key r [] h = ground arith
length-erase key r ((j, q) ∷ m) h = ground (arith, length-erase key r m)

-- The round went on only if there is one key less than in `m`.
OneLess : Map Bytes Record → Bool → Session → Type 0
OneLess m went_on s = went_on ≡ true → length s.room.keys + 1 ≡ length m

module _ (w : World) (m : Map Bytes Record) where
  write_cold-keys :
      (text : Bytes) → Triple (λ s. s.room.keys ≡ m) (write_cold w text) (λ _ s. s.room.keys ≡ m)
  unfolding write_cold
  write_cold-keys text = record { at = λ s h. ground (arith, h) }

  move_out-keys :
      (key : Bytes) (r : Record)
      → Triple (λ s. s.room.keys ≡ m) (move_out key r) (λ _ s. s.room.keys ≡ erase key m)
  unfolding move_out charge
  move_out-keys key r = record { at = λ s h. ap (λ (n : Map Bytes Record). erase key n) h }

  evict_record-OneLess :
      (key : Bytes) (r : Record)
      → find key m ≡ some r
      → Triple (λ s. s.room.keys ≡ m) (evict_record w key r) (OneLess m)
  unfolding evict_record OneLess
  evict_record-OneLess key r there =
      Triple-bind (write_cold w (Cold.encode r)) _ (write_cold-keys (Cold.encode r)) λ ok.
        Triple-if (not ok) _ (move_out key r >>= λ _. pure true)
          (λ _. Triple-pure false λ s h e. ground arith)
          λ _. Triple-bind (move_out key r) _ (move_out-keys key r) λ _.
            Triple-pure true
              λ s h e. ap (λ (n : Map Bytes Record). length n + 1) h ∙ length-erase key r m there

  evict_found-OneLess :
      (key : Bytes) (r : Option Record)
      → find key m ≡ r
      → Triple (λ s. s.room.keys ≡ m) (evict_found w key r) (OneLess m)
  unfolding evict_found OneLess
  evict_found-OneLess key none there = Triple-pure false λ s h e. ground arith
  evict_found-OneLess key (some r) there = evict_record-OneLess key r there

evict_victim-OneLess :
    (w : World) (victim : Option Bytes) (s : Session)
    → OneLess s.room.keys (evict_victim w victim s).0 (evict_victim w victim s).1
unfolding evict_victim OneLess
evict_victim-OneLess w none s = λ e. ground arith
evict_victim-OneLess w (some key) s =
    (evict_found-OneLess w s.room.keys key (find key s.room.keys) refl).at s refl

evict_one-OneLess :
    (w : World) (s : Session) → OneLess s.room.keys (evict_one w s).0 (evict_one w s).1
unfolding evict_one
evict_one-OneLess w s =
    let chosen : Sample = choose w.draw s.db.cold.sketch s.room.keys s.db.calls in
    evict_victim-OneLess w chosen.victim (record s { db = record s.db { calls = chosen.draws } })

-- The states that the loop passes through: each but the last is over a limit, and each round that went
-- on left one key less in memory.
pub data Rounds (w : World) : Session → Session → Type 0 where
  within : {s : Session} → over_limits s ≡ false → Rounds w s s
  gave_up :
      {s : Session}
      → over_limits s ≡ true
      → (evict_one w s).0 ≡ false
      → Rounds w s (evict_one w s).1
  round :
      {s t : Session}
      → over_limits s ≡ true
      → (evict_one w s).0 ≡ true
      → length (evict_one w s).1.room.keys + 1 ≡ length s.room.keys
      → Rounds w (evict_one w s).1 t
      → Rounds w s t

over_limits-empty : (s : Session) → length s.room.keys ≡ 0 → over_limits s ≡ false
unfolding over_limits
over_limits-empty s h = ground (arith, h)

one_round :
    (w : World) (s : Session) (rest : Unit {0} × Session) (over went_on : Bool)
    → over_limits s ≡ over
    → (evict_one w s).0 ≡ went_on
    → (went_on ≡ true
        → (length (evict_one w s).1.room.keys + 1 ≡ length s.room.keys)
          × Rounds w (evict_one w s).1 rest.1)
    → Rounds w s
        (if◌then◌else◌ {A = Unit {0} × Session}
          (not over)
          (tt, s)
          (if went_on then rest else (tt, (evict_one w s).1))).1
one_round w s rest false went_on under e h = within under
one_round w s rest true false over e h = gave_up over e
one_round w s rest true true over e h = let (less, on) = h refl in round over e less on

-- The loop ends from every session, within as many rounds as the room has keys: either no limit is
-- exceeded, or a round found no victim or could not write it.
evict_rounds-Rounds :
    (w : World) (fuel : ℕ) (s : Session)
    → length s.room.keys ≤ fuel
    → Rounds w s (evict_rounds w fuel s).1
unfolding evict_rounds OneLess
evict_rounds-Rounds w zero s enough = within (over_limits-empty s (omega (arith, enough)))
evict_rounds-Rounds w (suc fuel) s enough =
    one_round w s (evict_rounds w fuel (evict_one w s).1) (over_limits s) (evict_one w s).0 refl
      refl λ e. (evict_one-OneLess w s e, evict_rounds-Rounds w fuel (evict_one w s).1 (fewer e))
  where
    fewer : (evict_one w s).0 ≡ true → length (evict_one w s).1.room.keys ≤ fuel
    fewer e = omega (arith, enough, evict_one-OneLess w s e)

-- `evict_despised_keys` ends from every session: a round runs only while a limit is exceeded, each that
-- goes on leaves one key less in memory, and the loop ends under the limits or at a round that gave up.
pub evict_despised_keys-Rounds : (w : World) (s : Session) → Rounds w s (evict_despised_keys w s).1
unfolding evict_despised_keys
evict_despised_keys-Rounds w s = evict_rounds-Rounds w (length s.room.keys) s (omega arith)

-- Whatever stays over a limit is a failed round: a session behind the loop that is over a limit is one
-- that some round with a false result left.
pub Rounds-end :
    (w : World) {s t : Session}
    → Rounds w s t
    → over_limits t ≡ false
      ⊎ ((u : Session) × ((evict_one w u).0 ≡ false) × ((evict_one w u).1 ≡ t))
Rounds-end w (within under) = inl under
Rounds-end w (gave_up {s} over e) = inr (s, e, refl)
Rounds-end w (round over e less rest) = Rounds-end w rest
