-- ===== src/Persistence/Dump/Simulates.antt =====
-- src/core/persistence.cpp, `dump_state`: which records it writes does not depend on where to.
use somnium_db.Prelude.{
  ℕ, ◌+◌, ◌≡◌, refl, ap, subst, Bool, true, false, ◌&&◌, List, [], ◌∷◌, ◌++◌, Bytes, bytes_Eq,
  if◌then◌else◌, inl, inr, Bool-cases, Option-cases,
}
use somnium_db.Prelude.Int.{ℤ, ◌+ℤ◌}
use somnium_db.Prelude.Map.{Map}
use somnium_db.Record.{Record, expired}
use somnium_db.Disk.{Disk}
use somnium_db.Cold.{ColdRef, decode}
use somnium_db.Aof.{AofRecord}
use somnium_db.State.{World, Db, Room, Version}
use somnium_db.Persistence.Dump.{
  set_record, del_record, emit, emit_keys, each_ref, for_each, emit_tombs, emit_all_tombs,
  dumped_keys, dump_rooms, dump_rest, dump_state,
}

-- A `write` that only notes the records, and never fails.
abbrev pub note : AofRecord → List AofRecord → Bool × List AofRecord
note rec recs = (true, recs ++ rec ∷ [])

-- What a dump onto a list of records notes.
unfoldable pub dumped : World → Db → List AofRecord
unfolding dump_state
dumped w db = (dump_state note w (db, [])).1.1

-- `R` ties the records so far to what `write` has made of them; it survives every write that works.
module _ {A : Type 0} (write : AofRecord → A → Bool × A) (R : List AofRecord → A → Type 0)
    (keeps : (rec : AofRecord) (recs : List AofRecord) (a : A)
      → R recs a
      → (write rec a).0 ≡ true
      → R (recs ++ rec ∷ []) (write rec a).1) where
  -- The noted run goes well wherever the other one does, and then they are tied.
  abbrev Tied : Bool × List AofRecord → Bool × A → Type 0
  Tied (noted, recs) (false, a) = Unit
  Tied (noted, recs) (true, a) = (noted ≡ true) × R recs a

  written-Tied :
      (rec : AofRecord) (recs : List AofRecord) (a : A)
      → R recs a
      → Tied (note rec recs) (write rec a)
  written-Tied rec recs a r = go (write rec a) refl
    where
      go : (m : Bool × A) → write rec a ≡ m → Tied (note rec recs) m
      go (false, b) e = tt
      go (true, b) e = (
        refl,
        subst (λ (m : Bool × A). R (recs ++ rec ∷ []) m.1) e
            (keeps rec recs a r (ap (λ (m : Bool × A). m.0) e)),
      )

  emit-Tied :
      (now : ℤ) (room key : Bytes) (r : Record) (x : Bool × List AofRecord) (y : Bool × A)
      → Tied x y
      → Tied (emit note now room key r x) (emit write now room key r y)
  unfolding emit
  emit-Tied now room key r (noted, recs) (false, a) h = tt
  emit-Tied now room key r (noted, recs) (true, a) (e, h) = elim (Bool-cases (expired r now)) [
    | inl old ↦ rw (e, old) (refl, h)
    | inr live ↦ rw (e, live) (written-Tied (set_record room key r) recs a h)
  ]

  emit_keys-Tied :
      (now : ℤ) (room : Bytes) (keys : Map Bytes Record) (x : Bool × List AofRecord) (y : Bool × A)
      → Tied x y
      → Tied (emit_keys note now room keys x) (emit_keys write now room keys y)
  unfolding emit_keys
  emit_keys-Tied now room [] x y h = h
  emit_keys-Tied now room ((key, r) ∷ keys) x y h =
      emit_keys-Tied now room keys _ _ (emit-Tied now room key r x y h)

  emit_tombs-Tied :
      (room : Bytes) (keys : Map Bytes Version) (x : Bool × List AofRecord) (y : Bool × A)
      → Tied x y
      → Tied (emit_tombs note room keys x) (emit_tombs write room keys y)
  unfolding emit_tombs
  emit_tombs-Tied room [] x y h = h
  emit_tombs-Tied room ((key, v) ∷ keys) (noted, recs) (false, a) h =
      emit_tombs-Tied room keys _ (false, a) tt
  emit_tombs-Tied room ((key, v) ∷ keys) (noted, recs) (true, a) (e, h) =
      emit_tombs-Tied room keys _ _ (rw e (written-Tied (del_record room key v) recs a h))

  emit_all_tombs-Tied :
      (tombs : Map Bytes (Map Bytes Version)) (x : Bool × List AofRecord) (y : Bool × A)
      → Tied x y
      → Tied (emit_all_tombs note tombs x) (emit_all_tombs write tombs y)
  unfolding emit_all_tombs
  emit_all_tombs-Tied [] x y h = h
  emit_all_tombs-Tied ((room, keys) ∷ rest) x y h =
      emit_all_tombs-Tied rest _ _ (emit_tombs-Tied room keys x y h)

  -- Both runs make the same calls of the disk, with the same answers.
  abbrev TiedCalls : Bool × (ℕ × (Bool × List AofRecord)) → Bool × (ℕ × (Bool × A)) → Type 0
  TiedCalls (p, (n, x)) (q, (m, y)) = (p ≡ q) × (n ≡ m) × Tied x y

  each_ref-Tied :
      (disk : Disk) (now : ℤ) (file room : Bytes) (refs : Map Bytes ColdRef) (n : ℕ)
      (x : Bool × List AofRecord) (y : Bool × A)
      → Tied x y
      → TiedCalls
          (each_ref note disk now file room refs (n, x))
          (each_ref write disk now file room refs (n, y))
  unfolding each_ref
  each_ref-Tied disk now file room [] n x y h = (refl, refl, h)
  each_ref-Tied disk now file room ((key, ref) ∷ refs) n x y h =
      elim (Option-cases (disk.pread_all n file ref.len ref.off)) [
        | inl bad ↦ rw (each_ref, bad) (refl, refl, h)
        | inr (raw, good) ↦
            rw (each_ref, good)
              (each_ref-Tied disk now file room refs (n + 1) _ _
                (emit-Tied now room key (decode raw) x y h))
      ]

  calls_then :
      (f : ℕ × (Bool × List AofRecord) → Bool × (ℕ × (Bool × List AofRecord)))
      (g : ℕ × (Bool × A) → Bool × (ℕ × (Bool × A))) (x : Bool × (ℕ × (Bool × List AofRecord)))
      (y : Bool × (ℕ × (Bool × A)))
      → TiedCalls x y
      → ((n : ℕ) (u : Bool × List AofRecord) (v : Bool × A)
          → Tied u v
          → TiedCalls (f (n, u)) (g (n, v)))
      → TiedCalls (if x.0 then f x.1 else (false, x.1)) (if y.0 then g y.1 else (false, y.1))
  calls_then f g (true, (n, u)) (true, (m, v)) (e, i, h) k =
      subst (λ m. TiedCalls (f (n, u)) (g (m, v))) i (k n u v h)
  calls_then f g (false, (n, u)) (false, (m, v)) (e, i, h) k = (refl, i, h)
  calls_then f g (true, x) (false, y) (e, i, h) k = absurd (cc e)
  calls_then f g (false, x) (true, y) (e, i, h) k = absurd (cc e)

  for_each-Tied :
      (disk : Disk) (now : ℤ) (file : Bytes) (index : Map Bytes (Map Bytes ColdRef)) (n : ℕ)
      (x : Bool × List AofRecord) (y : Bool × A)
      → Tied x y
      → TiedCalls
          (for_each note disk now file index (n, x))
          (for_each write disk now file index (n, y))
  unfolding for_each
  for_each-Tied disk now file [] n x y h = (refl, refl, h)
  for_each-Tied disk now file ((room, refs) ∷ index) n x y h =
      calls_then (for_each note disk now file index) (for_each write disk now file index) _ _
        (each_ref-Tied disk now file room refs n x y h) (for_each-Tied disk now file index)

  -- The results of the whole: where the dump works, the noted one has worked, on the same database.
  abbrev TiedOut : Bool × (Db × List AofRecord) → Bool × (Db × A) → Type 0
  TiedOut x (false, (db, a)) = Unit
  TiedOut (noted, (db, recs)) (true, (db', a)) = (noted ≡ true) × (db ≡ db') × R recs a

  rooms_then :
      (f : Db × List AofRecord → Bool × (Db × List AofRecord)) (g : Db × A → Bool × (Db × A))
      (db : Db)
      → ((recs : List AofRecord) (a : A) → R recs a → TiedOut (f (db, recs)) (g (db, a)))
      → (x : Bool × List AofRecord) (y : Bool × A) → Tied x y
      → TiedOut
          (if x.0 then f (db, x.1) else (false, (db, x.1)))
          (if y.0 then g (db, y.1) else (false, (db, y.1)))
  rooms_then f g db k (noted, recs) (false, b) h = tt
  rooms_then f g db k (noted, recs) (true, b) (e, h) = rw e (k recs b h)

  dump_rooms-Tied :
      (w : World) (now : ℤ) (rooms : Map Bytes Room) (db : Db) (recs : List AofRecord) (a : A)
      → R recs a
      → TiedOut (dump_rooms note w now rooms (db, recs)) (dump_rooms write w now rooms (db, a))
  unfolding dump_rooms
  dump_rooms-Tied w now [] db recs a r = (refl, refl, r)
  dump_rooms-Tied w now ((name, room) ∷ rooms) db recs a r =
      elim (Option-cases (dumped_keys w name room db).0) [
        | inl bad ↦ rw (dump_rooms, bad) tt
        | inr (found, good) ↦
            rw (dump_rooms, good)
              (rooms_then (dump_rooms note w now rooms) (dump_rooms write w now rooms)
                (dumped_keys w name room db).1
                (dump_rooms-Tied w now rooms (dumped_keys w name room db).1)
                (emit_keys note now name found (true, recs))
                (emit_keys write now name found (true, a))
                (emit_keys-Tied now name found (true, recs) (true, a) (refl, r)))
      ]

  dump_rest-Tied :
      (w : World) (now : ℤ) (db : Db) (recs : List AofRecord) (a : A)
      → R recs a
      → TiedOut (dump_rest note w now (db, recs)) (dump_rest write w now (db, a))
  unfolding dump_rest
  dump_rest-Tied w now db recs a r = after _ _ (
      for_each-Tied w.disk now db.cold.file db.cold.index db.calls (true, recs) (true, a) (refl, r))
    where
      close :
          (n m : ℕ) (x : Bool × List AofRecord) (y : Bool × A)
          → n ≡ m
          → Tied x y
          → TiedOut (x.0, (record db { calls = n }, x.1)) (y.0, (record db { calls = m }, y.1))
      close n m (noted, recs') (false, b) i h = tt
      close n m (noted, recs') (true, b) i (e, h) =
          (e, ap (λ (c : ℕ). record db { calls = c }) i, h)

      after :
          (x : Bool × (ℕ × (Bool × List AofRecord))) (y : Bool × (ℕ × (Bool × A)))
          → TiedCalls x y
          → TiedOut
              (let (done, c) = emit_all_tombs note db.tombstones (x.0 && x.1.1.0, x.1.1.1) in
                (done, (record db { calls = x.1.0 }, c)))
              (let (done, c) = emit_all_tombs write db.tombstones (y.0 && y.1.1.0, y.1.1.1) in
                (done, (record db { calls = y.1.0 }, c)))
      after (p, (n, (noted, recs'))) (q, (m, (ok, b))) (e, i, h) = close n m _ _ i (
          emit_all_tombs-Tied db.tombstones (p && noted, recs') (q && ok, b)
            (both p q noted ok recs' b e h))
        where
          both :
              (p q noted ok : Bool) (recs' : List AofRecord) (b : A)
              → p ≡ q
              → Tied (noted, recs') (ok, b)
              → Tied (p && noted, recs') (q && ok, b)
          both p false noted ok recs' b e h = tt
          both p true noted false recs' b e h = tt
          both p true noted true recs' b e (k, h) = (rw (e, k) refl, h)

  dump_state-Tied :
      (w : World) (db : Db) (recs : List AofRecord) (a : A)
      → R recs a
      → TiedOut (dump_state note w (db, recs)) (dump_state write w (db, a))
  unfolding dump_state
  dump_state-Tied w db recs a r =
      after _ _ (dump_rooms-Tied w now db.rooms (record db { calls = db.calls + 1 }) recs a r)
    where
      now : ℤ
      now = w.wall db.calls +ℤ db.clock_offset_ms

      after :
          (x : Bool × (Db × List AofRecord)) (y : Bool × (Db × A))
          → TiedOut x y
          → TiedOut
              (if x.0 then dump_rest note w now x.1 else (false, x.1))
              (if y.0 then dump_rest write w now y.1 else (false, y.1))
      after x (false, (d, b)) h = tt
      after (noted, (c, recs')) (true, (d, b)) (e, i, h) = rw e (
          subst (λ d'. TiedOut (dump_rest note w now (c, recs')) (dump_rest write w now (d', b))) i
            (dump_rest-Tied w now c recs' b h))

  tied_result :
      (x : Bool × (Db × List AofRecord)) (y : Bool × (Db × A))
      → TiedOut x y
      → y.0 ≡ true
      → R x.1.1 y.1.1
  tied_result x (false, y) h e = absurd (cc e)
  tied_result (noted, (c, recs)) (true, (d, a)) h e = h.2

  tied_worked :
      (x : Bool × (Db × List AofRecord)) (y : Bool × (Db × A))
      → TiedOut x y
      → y.0 ≡ true
      → x.0 ≡ true
  tied_worked x (false, y) h e = absurd (cc e)
  tied_worked (noted, c) (true, (d, a)) h e = h.0

  -- Where the dump works, so does the one that only notes the records.
  pub dump_state-noted :
      (w : World) (db : Db) (a : A)
      → R [] a
      → (dump_state write w (db, a)).0 ≡ true
      → (dump_state note w (db, [])).0 ≡ true
  dump_state-noted w db a r ok =
      tied_worked _ (dump_state write w (db, a)) (dump_state-Tied w db [] a r) ok

  -- Where the dump works, what it has written is tied to what the one onto a list has noted.
  pub dump_state-simulates :
      (w : World) (db : Db) (a : A)
      → R [] a
      → (dump_state write w (db, a)).0 ≡ true
      → R (dumped w db) (dump_state write w (db, a)).1.1
  unfolding dumped
  dump_state-simulates w db a r ok =
      tied_result _ (dump_state write w (db, a)) (dump_state-Tied w db [] a r) ok
