-- ===== src/Examples/Network.antt =====
-- A client and the configuration on small inputs: src/net/connection.cpp, src/config.cpp.
use somnium_db.Prelude.{
  ℕ, suc, ◌/◌, ◌^◌, ◌+◌, ◌*◌, ◌<◌, ◌≡◌, ◌⊎◌, refl, false, Bool, none, some, List, [], ◌∷◌, ◌++◌,
  length, Bytes, codes, line, bytes_eq, upper, if◌then◌else◌,
}
use somnium_db.Prelude.Int.{pos}
use somnium_db.FsUtil.{parse_u64}
use somnium_db.Resp.{parse, until_crlf}
use somnium_db.Connection.{Net, moved, process_buffered}
use somnium_db.Connection.Gate.{process_buffered-unauthenticated}
use somnium_db.Config.{Libc, Config, load_config}
use somnium_db.Config.Guard.{load_config-guarded}

-- A stranger who sends a command.
abbrev stranger : Net
stranger = record {
  client = record {
    login = record { fd = 7; authenticated = false; resp3 = false; auth_failures = 0 };
    in_buf = line "*1" ++ line "$4" ++ line "INFO";
    out_buf = [];
    out_off = 0;
    closed = false;
    held = 25;
  };
  client_buffers = 25;
  max_client_buffers = 1000000;
  password = codes "secret";
}

-- The database counts the commands that reach it.
abbrev counting : ℕ → List Bytes → Bool → ℕ → Bytes × ℕ
counting fd args resp3 n = (line "+OK", suc n)

stays_out :
    (process_buffered counting (moved 100 ∷ []) stranger 0).1.0.client.login.authenticated ≡ false
unfolding process_buffered parse until_crlf parse_u64 bytes_eq upper
stays_out = refl

process_buffered-unauthenticated_example :
    (stranger.client.login.authenticated ≡ false)
    × ((process_buffered counting (moved 100 ∷ []) stranger 0).1.1 ≡ 0)
process_buffered-unauthenticated_example =
    process_buffered-unauthenticated counting (moved 100 ∷ []) stranger 0 stays_out

-- An environment that binds to the network, with a password.
abbrev libc : Libc
libc = record {
  getenv = λ name.
      if bytes_eq name (codes "SOMNIUM_BIND")
      then some (codes "10.0.0.1")
      else if bytes_eq name (codes "SOMNIUM_PASSWORD")
      then some (codes "secret")
      else none;
  stoi = λ text. none;
  atoi = λ text. pos 0;
  inet_pton = λ text. if bytes_eq text (codes "10.0.0.1") then some (10 * 2 ^ 24 + 1) else none;
}

accepted : (c : Config) × (load_config libc ≡ some c)
unfolding load_config bytes_eq
accepted = (_, refl)

load_config-guarded_example :
    (addr : ℕ) × (libc.inet_pton accepted.0.bind ≡ some addr)
    × ((addr / 2 ^ 24 ≡ 127) ⊎ (0 < length accepted.0.password))
    × (0 < accepted.0.maxclients)
load_config-guarded_example = load_config-guarded libc accepted.0 accepted.1
