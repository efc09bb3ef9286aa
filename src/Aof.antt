-- ===== src/Aof.antt =====
-- src/storage/aof_manager.{h,cpp}: the records of the append-only file and `append`.
pub mod Records
pub mod Append
pub mod Recovery
pub mod Rewrite
pub mod Sync
use somnium_db.Prelude.{
  ℕ, zero, suc, ◌+◌, ◌-◌, ◌*◌, ◌%◌, Bool, true, false, not, ◌||◌, ◌&&◌, Option, none, some, List,
  [], ◌∷◌, ◌++◌, length, get_elem?, take, drop, Bytes, codes, crlf, bytes_eq, ltb, leb, ◌==◌,
  if◌then◌else◌,
}
use somnium_db.Prelude.Int.{ℤ, pos, w64}
use somnium_db.FsUtil.{parse_u64, parse_i64, to_string, to_string_ℤ, uint32_max}
use somnium_db.Resp.Encode.{bulk_string, bulk_strings, encode}

-- `AofRecord`
pub record AofRecord : Type 0 where
  pub room : Bytes
  pub args : List Bytes
  pub expire_at : ℤ
  pub timestamp_ms : ℕ
  pub node_id : ℕ

abbrev pub magic_token : Bytes
magic_token = codes "SOMNIUM-AOF"

abbrev pub meta_token : Bytes
meta_token = codes "SOMNIUM-META"

abbrev pub aof_header : Bytes
aof_header =
    codes "*2"
    ++ crlf
    ++ codes "$11"
    ++ crlf
    ++ codes "SOMNIUM-AOF"
    ++ crlf
    ++ codes "$1"
    ++ crlf
    ++ codes "3"
    ++ crlf

unfoldable pub is_write_cmd : Bytes → Bool
is_write_cmd c =
    bytes_eq c (codes "SET") || bytes_eq c (codes "DEL") || bytes_eq c (codes "CRDTMERGE")

-- `Fmt`, once it is detected.
pub data Fmt : Type 0 where
  v3 v2 v1 : Fmt

infixl 5 ◌>>=◌
abbrev ◌>>=◌ {ℓ κ} : {A : Type ℓ} {B : Type κ} → Option A → (A → Option B) → Option B
none >>= f = none
some a >>= f = f a

-- The branch V3, `n` being `tokens.size()`.
build_v3 : List Bytes → ℕ → Option AofRecord
build_v3 tokens n = if ltb n 5 then none else do
  meta ← get_elem? tokens (n - 4)
  if not (bytes_eq meta meta_token) then none else do
    expire ← get_elem? tokens (n - 3)
    expire_at ← parse_i64 expire
    ts ← get_elem? tokens (n - 2)
    timestamp_ms ← parse_u64 ts
    last ← get_elem? tokens (n - 1)
    node ← parse_u64 last
    if ltb uint32_max node then none else do
      room ← get_elem? tokens 0
      some (record {
        room = room;
        args = take (n - 5) (drop 1 tokens);
        expire_at = expire_at;
        timestamp_ms = timestamp_ms;
        node_id = node;
      })

-- `none` is the result false.
unfoldable pub build_record : Fmt → List Bytes → Option AofRecord
unfolding build_v3
build_record v3 tokens = build_v3 tokens (length tokens)
build_record v2 [] = none
build_record v2 (room ∷ args) =
    some (record { room = room; args = args; expire_at = pos 0; timestamp_ms = 0; node_id = 1 })
build_record v1 tokens = some (record {
  room = codes "default";
  args = tokens;
  expire_at = pos 0;
  timestamp_ms = 0;
  node_id = 1;
})

-- The tokens of a record, room first and the meta last.
unfoldable pub tokens_of : AofRecord → List Bytes
tokens_of rec =
    rec.room
    ∷ (rec.args
        ++ meta_token
          ∷ to_string_ℤ rec.expire_at
          ∷ to_string rec.timestamp_ms
          ∷ to_string rec.node_id
          ∷ [])

-- `AOFManager::encode_record`: the count is written ahead of the bulks.
unfoldable pub encode_record : AofRecord → Bytes
unfolding tokens_of
encode_record rec =
    b'*' ∷ (to_string (length rec.args + 5) ++ (crlf ++ bulk_strings (tokens_of rec)))

-- `AofSync`
pub data AofSync : Type 0 where
  always everysec off : AofSync

-- The members of `AOFManager`, beside the contents of the file and, while `rewrite_fd_` is open, of
-- the temporary one (`draft`). What only feeds the metrics (the times of the last sync and of the
-- lock) is left out.
pub record Aof : Type 0 where
  pub file : Bytes
  pub fd_open : Bool
  pub policy : AofSync
  pub healthy : Bool
  pub torn : Bool
  pub replaying : Bool
  pub size : ℕ
  pub synced : ℕ
  pub base_size : ℕ
  pub generation : ℕ
  pub rewrite_min : ℕ
  pub needs_rewrite : Bool
  pub rewrite_open : Bool
  pub draft : Bytes
  pub last_tail : ℕ

-- What the system calls of one `append` come to: whether `open` succeeds, how many bytes
-- `write_all` gets into the file (all of them if at least as many), whether the cut by `fstat` and
-- `ftruncate` works, and whether `fdatasync` does.
pub record AppendIo : Type 0 where
  pub open_ok : Bool
  pub written : ℕ
  pub cut_ok : Bool
  pub sync_ok : Bool

-- `fd_ < 0`: the file is opened again.
unfoldable pub reopen : AppendIo → Aof → Aof
reopen io a =
    if a.fd_open
    then a
    else if io.open_ok
    then record a { fd_open = true; generation = a.generation + 1; synced = 0; healthy = true }
    else record a { healthy = false }

-- The write fell short: the part that was written is cut off, or the file is marked as torn.
unfoldable pub write_failed : AppendIo → Bytes → Aof → Aof
write_failed io text a =
    let part : Bytes = take io.written text in
    let cut : Bool = ltb 0 io.written && not io.cut_ok in
    record a {
      file = if cut then a.file ++ part else a.file;
      torn = if cut then true else a.torn;
      healthy = false;
      fd_open = false;
      generation = a.generation + 1;
    }

-- `sync_locked` on the open file.
unfoldable pub sync_locked : AppendIo → Aof → Bool × Aof
sync_locked io a =
    if io.sync_ok
    then (true, record a { synced = a.size })
    else (false, record a { healthy = false })

-- The write went through: the sync policy decides the rest.
after_write : AppendIo → AofSync → Aof → Bool × Aof
unfolding sync_locked
after_write io always a = sync_locked io a
after_write io everysec a = (true, a)
after_write io off a = (true, a)

write_text : AppendIo → Bytes → Aof → Bool × Aof
unfolding after_write write_failed
write_text io text a =
    if not a.fd_open
    then (false, a)
    else if ltb io.written (length text)
    then (false, write_failed io text a)
    else after_write io a.policy
        (record a { file = a.file ++ text; size = (a.size + length text) % w64 })

unfoldable pub append : AppendIo → AofRecord → Aof → Bool × Aof
unfolding write_text reopen
append io rec a =
    if a.replaying || a.torn then (false, a) else write_text io (encode_record rec) (reopen io a)

unfoldable pub rewrite_due : Aof → Bool
rewrite_due a = leb a.rewrite_min a.size && leb (2 * a.base_size % w64) a.size
