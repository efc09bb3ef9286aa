-- ===== src/Tombstones.antt =====
-- src/core/crdt.cpp: versions, tombstones, frontiers and the watermark.
pub mod Watermark
use somnium_db.Prelude.{
  ℕ, zero, suc, ◌+◌, ◌-◌, ◌*◌, ◌^◌, Bool, true, false, not, ◌||◌, ◌&&◌, Option, none, some, List,
  [], ◌∷◌, length, Bytes, bytes_Eq, nat_eq, line, ltb, leb, ◌==◌, if◌then◌else◌,
}
use somnium_db.Prelude.Int.{ℤ, pos, ltb_ℤ, ◌+ℤ◌, w64}
use somnium_db.Prelude.Map.{Map, find, put, erase}
use somnium_db.FsUtil.{parse_u64, uint32_max}
use somnium_db.Hlc
use somnium_db.Hlc.{normalize, physical_ms, observe}
use somnium_db.Record.{Record}
use somnium_db.State.{
  Session, World, Db, Version, leb_version, max_version, M, Metrics, ◌>>=◌, ◌>>◌, pure, gets,
  with_db, with_metrics, add_u64, current_time_ms,
}

unfoldable pub find_tomb : Bytes → Bytes → Db → Option Version
find_tomb room_name key db = elim (find room_name db.tombstones) [
  | none ↦ none
  | some keys ↦ find key keys
]

unfoldable pub tomb_ts : Bytes → Bytes → Db → ℕ
unfolding find_tomb
tomb_ts room_name key db = elim (find_tomb room_name key db) [ none ↦ 0 | some t ↦ t.ts ]

-- `Database::stale`: an incoming write loses to the record, to the tombstone, or to the watermark.
unfoldable pub stale : Bytes → Bytes → Option Record → Version → Db → Bool
unfolding find_tomb leb_version
stale room_name key (some r) v db = leb_version v (record { ts = r.timestamp_ms; node = r.node_id })
stale room_name key none v db = elim (find_tomb room_name key db) [
  | some t ↦ leb_version v t
  | none ↦ leb v.ts db.watermark
]

-- tombstones_[room], which is made if it is absent.
tombs_of : Bytes → Db → Map Bytes Version
tombs_of room_name db = elim (find room_name db.tombstones) [ none ↦ [] | some keys ↦ keys ]

unfoldable pub count_tombs : ℕ → Db → Db
count_tombs delta db = record db {
  metrics = record db.metrics { tombstones = add_u64 db.metrics.tombstones delta };
}

unfoldable pub put_tomb : Bytes → Bytes → Version → Db → Db
unfolding tombs_of
put_tomb room_name key v db = record db {
  tombstones = put room_name (put key v (tombs_of room_name db)) db.tombstones;
}

-- `Database::set_tomb`: `try_emplace`, or the greater of the two versions.
unfoldable pub set_tomb : Bytes → Bytes → Version → Db → Db
unfolding find_tomb put_tomb count_tombs max_version
set_tomb room_name key v db =
    if db.peer_count == 0 || leb v.ts db.watermark then db else elim (find_tomb room_name key db) [
      | none ↦ count_tombs 1 (put_tomb room_name key v db)
      | some t ↦ put_tomb room_name key (max_version t v) db
    ]

-- A room's tombstones go back, or the room goes once it has none.
settle_tombs :
    Bytes → Map Bytes Version → Map Bytes (Map Bytes Version) → Map Bytes (Map Bytes Version)
settle_tombs room_name [] m = erase room_name m
settle_tombs room_name (t ∷ ts) m = put room_name (t ∷ ts) m

unfoldable pub clear_tomb : Bytes → Bytes → Db → Db
unfolding find_tomb tombs_of count_tombs settle_tombs
clear_tomb room_name key db = elim (find_tomb room_name key db) [
  | none ↦ db
  | some t ↦ count_tombs (w64 - 1) (record db {
    tombstones = settle_tombs room_name (erase key (tombs_of room_name db)) db.tombstones;
  })
]

-- The first loop of `collect_tombstones`: how many peers were heard, and the lowest frontier.
unfoldable pub heard_low : ℕ → Map ℕ ℕ → ℕ × ℕ → ℕ × ℕ
heard_low local [] acc = acc
heard_low local ((node, f) ∷ rest) (heard, low) =
    heard_low local rest
      (if node == local then (heard, low) else (heard + 1, if ltb f low then f else low))

-- The tombstones above the watermark, and how many were not.
unfoldable pub sweep_keys : ℕ → Map Bytes Version → Map Bytes Version × ℕ
sweep_keys watermark [] = ([], 0)
sweep_keys watermark ((key, v) ∷ rest) =
    let (kept, gone) = sweep_keys watermark rest in
    if ltb watermark v.ts then ((key, v) ∷ kept, gone) else (kept, gone + 1)

add_room : Bytes → Map Bytes Version → Map Bytes (Map Bytes Version) → Map Bytes (Map Bytes Version)
add_room name [] m = m
add_room name (t ∷ ts) m = (name, t ∷ ts) ∷ m

unfoldable pub sweep_rooms : ℕ → Map Bytes (Map Bytes Version) → Map Bytes (Map Bytes Version) × ℕ
unfolding sweep_keys add_room
sweep_rooms watermark [] = ([], 0)
sweep_rooms watermark ((name, keys) ∷ rest) =
    let (kept, gone) = sweep_rooms watermark rest in
    let (keys', gone') = sweep_keys watermark keys in (add_room name keys' kept, gone + gone')

-- `UINT64_MAX`
abbrev pub uint64_max : ℕ
uint64_max = 2 ^ 64 - 1

unfoldable pub collect_tombstones : Db → Db
unfolding heard_low sweep_rooms
collect_tombstones db =
    let (heard, low) = heard_low db.local_node_id db.frontiers (0, uint64_max) in
    if db.peer_count == 0 || ltb heard db.peer_count || leb low db.watermark
    then db
    else let (kept, gone) = sweep_rooms low db.tombstones in
      record db {
        watermark = low;
        tombstones = kept;
        metrics = record db.metrics {
          tombstones = add_u64 db.metrics.tombstones (w64 * gone - gone);
        };
      }

-- `clock_.next(now, overwritten)`
unfoldable pub next_version : ℤ → ℕ → M ℕ
next_version now overwritten s =
    let (v, clock) = Hlc.next s.db.clock now overwritten in
    (v, record s { db = record s.db { clock = clock } })

-- The version of an incoming write, or the reply that refuses it.
pub data Incoming : Type 0 where
  version : Version → Incoming
  refused : Bytes → Incoming

abbrev pub bad_version : Bytes
bad_version = line "-ERR invalid timestamp or node id"

abbrev pub far_future : Bytes
far_future = line "-ERR timestamp too far in the future (SOMNIUM_MAX_CLOCK_OFFSET_MS)"

-- Behind the parsing: the guard against the future, and the clock that sees the version. The
-- physical part is below 2 ^ 48, so the cast to `long long` keeps it.
unfoldable pub accept_version : World → ℕ → ℕ → M Incoming
unfolding current_time_ms
accept_version w ts node = do
  now ← current_time_ms w
  λ s.
      if ltb_ℤ (now +ℤ s.db.max_clock_offset_ms) (pos (physical_ms ts))
      then (refused far_future, s)
      else (
        version (record { ts = ts; node = node }),
        record s { db = record s.db { clock = observe s.db.clock ts } },
      )

unfoldable pub incoming_numbers : World → Option ℕ → Option ℕ → M Incoming
unfolding accept_version
incoming_numbers w (some ts) (some node) =
    if ltb uint32_max node then pure (refused bad_version) else accept_version w (normalize ts) node
incoming_numbers w _ _ = pure (refused bad_version)

-- `Database::incoming_version`
unfoldable pub incoming_version : World → Bytes → Bytes → M Incoming
unfolding incoming_numbers
incoming_version w ts_arg node_arg = incoming_numbers w (parse_u64 ts_arg) (parse_u64 node_arg)
