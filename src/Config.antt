-- ===== src/Config.antt =====
-- src/config.{h,cpp}: the configuration from the environment. `getenv`, `stoi`, `atoi` and `inet_pton` are
-- parameters; the messages on invalid values are not modelled.
pub mod Guard
use somnium_db.Prelude.{
  ℕ, zero, suc, ◌+◌, ◌*◌, ◌/◌, ◌^◌, Bool, true, false, not, ◌&&◌, ◌||◌, Option, none, some, List,
  [], ◌∷◌, length, Bytes, codes, bytes_eq, ltb, leb, ◌==◌, if◌then◌else◌,
}
use somnium_db.Prelude.Int.{ℤ, pos, negsuc, ltb_ℤ}
use somnium_db.FsUtil.{parse_u64, parse_i64, uint32_max}
use somnium_db.Aof.{AofSync, always, everysec, off}

-- The C library: `getenv`, `std::stoi` (`none` where it throws), `atoi`, and the address that
-- `inet_pton` reads, in the order of the host.
pub record Libc : Type 0 where
  pub getenv : Bytes → Option Bytes
  pub stoi : Bytes → Option ℤ
  pub atoi : Bytes → ℤ
  pub inet_pton : Bytes → Option ℕ

pub record Config : Type 0 where
  pub port : ℤ
  pub bind : Bytes
  pub password : Bytes
  pub maxclients : ℕ
  pub max_client_buffers : ℕ
  pub tls_cert : Option Bytes
  pub tls_key : Option Bytes
  pub metrics : Bool
  pub metrics_bind : Bytes
  pub trace_fd : ℤ
  pub node_id : ℕ
  pub peers : List (Bytes × Bytes)
  pub max_rooms : ℕ
  pub max_clock_offset_ms : ℤ
  pub clock_offset_ms : ℤ
  pub max_keys : ℕ
  pub maxmemory : ℕ
  pub aof_sync : AofSync
  pub aof_rewrite_min_bytes : ℕ
  pub aof_sync_interval_ms : ℤ
  pub aof_sync_delay_ms : ℤ
  pub snapshot_delay_ms : ℤ

infixl 5 ◌>>=◌
abbrev pub ◌>>=◌ {ℓ κ} : {A : Type ℓ} {B : Type κ} → Option A → (A → Option B) → Option B
none >>= f = none
some a >>= f = f a

-- A text, or what stands where the variable is not set.
abbrev text_or : Bytes → Option Bytes → Bytes
text_or default none = default
text_or default (some v) = v

-- An invalid number leaves the default.
unfoldable pub u64_or : ℕ → Option Bytes → ℕ
u64_or default none = default
u64_or default (some v) = elim (parse_u64 v) [ none ↦ default | some n ↦ n ]

unfoldable pub i64_or : ℤ → Option Bytes → ℤ
i64_or default none = default
i64_or default (some v) = elim (parse_i64 v) [ none ↦ default | some n ↦ n ]

-- An invalid number refuses the start.
unfoldable pub u64_required : ℕ → Option Bytes → Option ℕ
u64_required default none = some default
u64_required default (some v) = parse_u64 v

unfoldable pub read_port : Libc → Option Bytes → Option ℤ
read_port libc none = some (pos 6379)
read_port libc (some v) = libc.stoi v

unfoldable pub read_maxclients : Option Bytes → Option ℕ
read_maxclients none = some 10000
read_maxclients (some v) = elim (parse_u64 v) [
  | none ↦ none
  | some n ↦ if n == 0 then none else some n
]

unfoldable pub read_trace_fd : Libc → Option Bytes → ℤ
read_trace_fd libc none = negsuc 0
read_trace_fd libc (some v) = libc.atoi v

unfoldable pub read_node_id : Option Bytes → ℕ
read_node_id none = 1
read_node_id (some v) = elim (parse_u64 v) [
  | none ↦ 1
  | some id ↦ if leb 1 id && leb id uint32_max then id else 1
]

-- `rfind(':')`: what stands before and behind the last colon.
unfoldable pub at_last_colon : Bytes → Option (Bytes × Bytes)
at_last_colon [] = none
at_last_colon (c ∷ s) = elim (at_last_colon s) [
  | some (host, port) ↦ some (c ∷ host, port)
  | none ↦ if c == b':' then some ([], s) else none
]

-- An entry without a host or without a port is passed over.
unfoldable pub peer_of : Bytes → Option (Bytes × Bytes)
unfolding at_last_colon
peer_of item = elim (at_last_colon item) [
  | none ↦ none
  | some (host, port) ↦ if length host == 0 || length port == 0 then none else some (host, port)
]

unfoldable pub add_peer : Option (Bytes × Bytes) → List (Bytes × Bytes) → List (Bytes × Bytes)
add_peer none peers = peers
add_peer (some peer) peers = peer ∷ peers

-- The first item, up to a comma, and what is behind that.
unfoldable pub first_item : Bytes → Bytes × Bytes
first_item [] = ([], [])
first_item (c ∷ s) =
    let (item, rest) = first_item s in if c == b',' then ([], s) else (c ∷ item, rest)

-- The loop over the list; every item takes a byte at least.
unfoldable pub read_peers : ℕ → Bytes → List (Bytes × Bytes)
unfolding peer_of first_item add_peer
read_peers zero list = []
read_peers (suc fuel) [] = []
read_peers (suc fuel) (c ∷ s) =
    let (item, rest) = first_item (c ∷ s) in add_peer (peer_of item) (read_peers fuel rest)

unfoldable pub read_aof_sync : Option Bytes → AofSync
read_aof_sync none = everysec
read_aof_sync (some v) =
    if bytes_eq v (codes "always")
    then always
    else if bytes_eq v (codes "no") || (bytes_eq v (codes "none") || bytes_eq v (codes "off"))
    then off
    else everysec

-- `std::clamp(n, 1, 60000)`
unfoldable pub clamp_interval : ℤ → ℤ
clamp_interval n = if ltb_ℤ n (pos 1) then pos 1 else if ltb_ℤ (pos 60000) n then pos 60000 else n

-- A delay of the tests outside 0 to 60000 is 0.
unfoldable pub delay_within : ℤ → ℤ
delay_within n = if ltb_ℤ n (pos 0) || ltb_ℤ (pos 60000) n then pos 0 else n

-- Outside 127.0.0.0/8 there must be a password.
unfoldable pub exposed : ℕ → Bytes → Bool
exposed addr password = not (addr / 2 ^ 24 == 127) && length password == 0

-- `load_config`; `none` is `std::nullopt`.
unfoldable pub load_config : Libc → Option Config
unfolding u64_or i64_or u64_required read_port read_maxclients read_trace_fd read_node_id read_peers
    read_aof_sync clamp_interval delay_within exposed
load_config libc = do
  port ← read_port libc (libc.getenv (codes "REDIS_PORT"))
  maxclients ← read_maxclients (libc.getenv (codes "SOMNIUM_MAXCLIENTS"))
  max_client_buffers ← u64_required (2 ^ 30) (libc.getenv (codes "SOMNIUM_MAX_CLIENT_BUFFERS"))
  let bind : Bytes = text_or (codes "127.0.0.1") (libc.getenv (codes "SOMNIUM_BIND"))
  addr ← libc.inet_pton bind
  let password : Bytes = text_or [] (libc.getenv (codes "SOMNIUM_PASSWORD"))
  let list : Bytes = text_or [] (libc.getenv (codes "SOMNIUM_PEERS"))
  if exposed addr password
      then none
      else some (record {
        port = port;
        bind = bind;
        password = password;
        maxclients = maxclients;
        max_client_buffers = max_client_buffers;
        tls_cert = libc.getenv (codes "SOMNIUM_TLS_CERT");
        tls_key = libc.getenv (codes "SOMNIUM_TLS_KEY");
        metrics = elim (libc.getenv (codes "SOMNIUM_NO_METRICS")) [ none ↦ true | some v ↦ false ];
        metrics_bind = text_or (codes "127.0.0.1") (libc.getenv (codes "SOMNIUM_METRICS_BIND"));
        trace_fd = read_trace_fd libc (libc.getenv (codes "SOMNIUM_TRACE_FD"));
        node_id = read_node_id (libc.getenv (codes "SOMNIUM_NODE_ID"));
        peers = read_peers (length list) list;
        max_rooms = u64_or 10000 (libc.getenv (codes "SOMNIUM_MAX_ROOMS"));
        max_clock_offset_ms =
            i64_or (pos 600000) (libc.getenv (codes "SOMNIUM_MAX_CLOCK_OFFSET_MS"));
        clock_offset_ms = i64_or (pos 0) (libc.getenv (codes "SOMNIUM_CLOCK_OFFSET_MS"));
        max_keys = u64_or 1000000 (libc.getenv (codes "SOMNIUM_MAX_KEYS"));
        maxmemory = u64_or 0 (libc.getenv (codes "SOMNIUM_MAXMEMORY"));
        aof_sync = read_aof_sync (libc.getenv (codes "SOMNIUM_AOF_SYNC"));
        aof_rewrite_min_bytes =
            u64_or (64 * 2 ^ 20) (libc.getenv (codes "SOMNIUM_AOF_REWRITE_MIN_BYTES"));
        aof_sync_interval_ms =
            clamp_interval (i64_or (pos 1000) (libc.getenv (codes "SOMNIUM_AOF_SYNC_INTERVAL_MS")));
        aof_sync_delay_ms =
            delay_within (i64_or (pos 0) (libc.getenv (codes "SOMNIUM_AOF_SYNC_DELAY_MS")));
        snapshot_delay_ms =
            delay_within (i64_or (pos 0) (libc.getenv (codes "SOMNIUM_SNAPSHOT_DELAY_MS")));
      })
