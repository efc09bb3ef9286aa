-- ===== src/Tombstones/Watermark.antt =====
-- `collect_tombstones` of src/core/crdt.cpp: forgetting a tombstone lets no old write back in.
use somnium_db.Prelude.{
  ℕ, ◌+◌, ◌≤◌, ◌≡◌, ◌≢◌, refl, ap, ◌∙◌, arith, true, false, Option, none, some, [], ◌∷◌, Bytes,
  bytes_Eq, bytes_eq, bytes_eq_iff, ltb, if◌then◌else◌, Bool-cases, inl, inr, ◌⊎◌, nat_eq,
}
use somnium_db.Prelude.Map.{Map, IsMap, find}
use somnium_db.State.{Db, Version, leb_version}
use somnium_db.Tombstones.{
  heard_low, sweep_keys, sweep_rooms, add_room, collect_tombstones, stale, find_tomb, uint64_max,
}

-- A tombstone that the sweep keeps.
kept : ℕ → Option Version → Option Version
kept watermark none = none
kept watermark (some v) = if ltb watermark v.ts then some v else none

find-sweep_none :
    (watermark : ℕ) (key : Bytes) (m : Map Bytes Version)
    → find key m ≡ none
    → find key (sweep_keys watermark m).0 ≡ none
unfolding sweep_keys find
find-sweep_none watermark key [] h = refl
find-sweep_none watermark key ((j, v) ∷ m) h = ground (arith, find-sweep_none watermark key m)

find-sweep_keys :
    (watermark : ℕ) (key : Bytes) (m : Map Bytes Version)
    → IsMap m
    → find key (sweep_keys watermark m).0 ≡ kept watermark (find key m)
unfolding sweep_keys find kept
find-sweep_keys watermark key [] h = refl
find-sweep_keys watermark key ((j, v) ∷ m) h = ground (
  arith,
  h.0,
  h.1,
  find-sweep_none watermark key m,
  find-sweep_keys watermark key m,
  bytes_eq_iff j key,
)

-- The tombstones of the server: no room and no key stands twice.
abbrev pub AreTombs : Map Bytes (Map Bytes Version) → Type 0
AreTombs [] = Unit
AreTombs ((name, keys) ∷ rest) = (find name rest ≡ none) × IsMap keys × AreTombs rest

find_in : Bytes → Bytes → Map Bytes (Map Bytes Version) → Option Version
find_in room key m = elim (find room m) [ none ↦ none | some keys ↦ find key keys ]

find_in-add_room :
    (room key name : Bytes) (keys : Map Bytes Version) (m : Map Bytes (Map Bytes Version))
    → find name m ≡ none
    → find_in room key (add_room name keys m)
      ≡ (if bytes_eq name room then find key keys else find_in room key m)
unfolding find_in find add_room
find_in-add_room room key name [] m h = ground (arith, bytes_eq_iff name room)
find_in-add_room room key name (t ∷ ts) m h = ground (arith, bytes_eq_iff name room)

find-add_room-none :
    (room name : Bytes) (keys : Map Bytes Version) (m : Map Bytes (Map Bytes Version))
    → bytes_eq name room ≡ false
    → find room m ≡ none
    → find room (add_room name keys m) ≡ none
unfolding find add_room
find-add_room-none room name [] m h hm = hm
find-add_room-none room name (t ∷ ts) m h hm = ground arith

find-sweep_rooms-none :
    (watermark : ℕ) (room : Bytes) (m : Map Bytes (Map Bytes Version))
    → find room m ≡ none
    → find room (sweep_rooms watermark m).0 ≡ none
unfolding sweep_rooms find
find-sweep_rooms-none watermark room [] h = refl
find-sweep_rooms-none watermark room ((name, keys) ∷ m) h =
    find-add_room-none room name (sweep_keys watermark keys).0 (sweep_rooms watermark m).0
      (ground arith) (find-sweep_rooms-none watermark room m (ground arith))

find_in-sweep_rooms :
    (watermark : ℕ) (room key : Bytes) (m : Map Bytes (Map Bytes Version))
    → AreTombs m
    → find_in room key (sweep_rooms watermark m).0 ≡ kept watermark (find_in room key m)
unfolding sweep_rooms find_in find kept
find_in-sweep_rooms watermark room key [] h = refl
find_in-sweep_rooms watermark room key ((name, keys) ∷ m) h =
    find_in-add_room room key name (sweep_keys watermark keys).0 (sweep_rooms watermark m).0
      (find-sweep_rooms-none watermark name m h.0)
    ∙ elim (Bool-cases (bytes_eq name room)) [
      | inl e ↦
          ap (λ b. if b then here else there) e
          ∙ find-sweep_keys watermark key keys h.1
          ∙ ground arith
      | inr e ↦
          ap (λ b. if b then here else there) e
          ∙ find_in-sweep_rooms watermark room key m h.2
          ∙ ground arith
    ]
  where
    here : Option Version
    here = find key (sweep_keys watermark keys).0

    there : Option Version
    there = find_in room key (sweep_rooms watermark m).0

-- No frontier of another node lies below the lowest one.
heard_low-le : (local : ℕ) (m : Map ℕ ℕ) (heard low : ℕ) → (heard_low local m (heard, low)).1 ≤ low
unfolding heard_low
heard_low-le local [] heard low = omega arith
heard_low-le local ((n, g) ∷ m) heard low = ground (
  arith,
  heard_low-le local m heard low,
  heard_low-le local m (heard + 1) (if ltb g low then g else low),
)

heard_low-lower :
    (local node f : ℕ) (m : Map ℕ ℕ) (heard low : ℕ)
    → find node m ≡ some f
    → node ≢ local
    → (heard_low local m (heard, low)).1 ≤ f
unfolding heard_low find
heard_low-lower local node f [] heard low h ne = ground arith
heard_low-lower local node f ((n, g) ∷ m) heard low h ne = ground (
  arith,
  heard_low-le local m heard low,
  heard_low-le local m (heard + 1) (if ltb g low then g else low),
  heard_low-lower local node f m heard low,
  heard_low-lower local node f m (heard + 1) (if ltb g low then g else low),
)

-- The collection moves the watermark, if it does, up to a version that no heard frontier of another
-- node lies below; it never moves it down.
pub collect_tombstones-watermark :
    (db : Db) (node f : ℕ)
    → find node db.frontiers ≡ some f
    → node ≢ db.local_node_id
    → (db.watermark ≤ (collect_tombstones db).watermark)
      × ((collect_tombstones db).watermark ≡ db.watermark ⊎ (collect_tombstones db).watermark ≤ f)
unfolding collect_tombstones
collect_tombstones-watermark db node f h ne =
    ground (arith, heard_low-lower db.local_node_id node f db.frontiers 0 uint64_max h ne)

-- On a server whose tombstones are well formed, a write to an absent key that is stale stays so after
-- tombstones are collected: forgetting them lets no deleted key come back.
pub collect_tombstones-stale :
    (db : Db) (room key : Bytes) (v : Version)
    → AreTombs db.tombstones
    → stale room key none v db ≡ true
    → stale room key none v (collect_tombstones db) ≡ true
unfolding collect_tombstones stale find_tomb find_in kept leb_version
collect_tombstones-stale db room key v h old = ground (
  arith,
  find_in-sweep_rooms (heard_low db.local_node_id db.frontiers (0, uint64_max)).1 room key
      db.tombstones h,
)
