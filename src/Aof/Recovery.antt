-- ===== src/Aof/Recovery.antt =====
-- src/storage/aof_manager.cpp, `recover`: the file is read in chunks and its records are replayed.
-- What the callback receives is the list `replayed`. What `open`, `rename` and `ftruncate` come to is
-- given. The messages and the name of the file set aside are not modelled.
pub mod Shift
pub mod Reads
pub mod Chunks
pub mod Whole
pub mod Crash
use somnium_db.Prelude.{
  ℕ, zero, suc, ◌+◌, ◌-◌, ◌*◌, ◌^◌, Bool, true, false, not, ◌||◌, Option, none, some, List, [], ◌∷◌,
  ◌++◌, length, get_elem?, take, drop, Bytes, bytes_eq, ltb, leb, ◌==◌, if◌then◌else◌,
}
use somnium_db.FsUtil.{parse_u64}
use somnium_db.Resp.{Status, complete, need_more, malformed, parse}
use somnium_db.Aof.{AofRecord, Aof, Fmt, v1, v2, v3, magic_token, is_write_cmd, build_record}

-- The locals `buf`, `pos` and `compacted`, and what of the file is not read yet.
pub record Reader : Type 0 where
  pub buf : Bytes
  pub pos : ℕ
  pub compacted : ℕ
  pub left : Bytes

abbrev pub chunk_size : ℕ
chunk_size = 2 ^ 16

-- The first part of the lambda `fill`: what is consumed leaves the buffer.
unfoldable pub compact : Reader → Reader
compact r = record r { buf = drop r.pos r.buf; compacted = r.compacted + r.pos; pos = 0 }

-- `file.read` into the chunk: what it brings, and what is left.
unfoldable pub read_chunk : Bytes → Bytes × Bytes
read_chunk left = (take chunk_size left, drop chunk_size left)

-- The lambda `fill`.
unfoldable pub fill : Reader → Bool × Reader
unfolding compact read_chunk
fill r =
    let (got, left) = read_chunk r.left in
    let s : Reader = compact r in
    if length got == 0 then (false, s) else (true, record s { buf = s.buf ++ got; left = left })

-- The inner loop: parse, and fill the buffer while more is needed.
unfoldable pub read_record : ℕ → Reader → Status (ℕ × List Bytes) × Reader
unfolding fill read_chunk
read_record zero r = (need_more, r)
read_record (suc fuel) r = elim (parse r.buf r.pos) [
  | complete a ↦ (complete a, r)
  | malformed ↦ (malformed, r)
  | need_more ↦
      let rest = read_record fuel (fill r).1 in if (fill r).0 then rest else (need_more, (fill r).1)
]

-- The locals `fmt` and `replayed`, and the member `needs_rewrite_`.
pub record Log : Type 0 where
  pub fmt : Option Fmt
  pub needs_rewrite : Bool
  pub replayed : List AofRecord

unfoldable pub replay_as : Fmt → List Bytes → Log → Option Log
replay_as f tokens log = elim (build_record f tokens) [
  | none ↦ none
  | some rec ↦ some (record log { fmt = some f; replayed = log.replayed ++ rec ∷ [] })
]

abbrev pub aof_version : ℕ
aof_version = 3

-- A first record of two tokens that begins with the magic one.
unfoldable pub is_header : List Bytes → Bool
is_header (magic ∷ ver ∷ []) = bytes_eq magic magic_token
is_header _ = false

unfoldable pub header_version : List Bytes → Option ℕ
header_version (magic ∷ ver ∷ []) = parse_u64 ver
header_version _ = none

-- A file without a header: its first record tells the old formats apart.
unfoldable pub old_format : List Bytes → Fmt
old_format (a ∷ command ∷ rest) = if is_write_cmd command then v2 else v1
old_format _ = v1

-- The rest of a round once the record is parsed; `none` where the file is set aside as corrupt.
unfoldable pub consume : List Bytes → Log → Option Log
unfolding replay_as is_header header_version old_format
consume tokens log = elim log.fmt [
  | some f ↦ replay_as f tokens log
  | none ↦
      if is_header tokens
      then elim (header_version tokens) [
        | none ↦ none
        | some ver ↦ if not (ver == aof_version) then none else some (record log { fmt = some v3 })
      ]
      else replay_as (old_format tokens) tokens (record log { needs_rewrite = true })
]

-- How the loop ends: all was consumed, an incomplete tail begins at an offset, or the file is corrupt.
pub data Ending : Type 0 where
  at_end : Ending
  cut : ℕ → Ending
  corrupt : Ending

-- The loop.
unfoldable pub replay_all : ℕ → Reader → Log → Log × Ending
unfolding read_record consume
replay_all zero r log = (log, at_end)
replay_all (suc fuel) r log =
    let (st, s) = read_record (suc (length r.left)) r in
    elim st [
      | need_more ↦ (log, if ltb s.pos (length s.buf) then cut (s.compacted + s.pos) else at_end)
      | malformed ↦ (record log { needs_rewrite = true }, corrupt)
      | complete (rec_end, tokens) ↦ elim (consume tokens log) [
        | none ↦ (record log { needs_rewrite = true }, corrupt)
        | some next ↦ replay_all fuel (record s { pos = rec_end }) next
      ]
    ]

abbrev pub no_log : Log
no_log = record { fmt = none; needs_rewrite = false; replayed = [] }

-- What the loop comes to on a file.
unfoldable pub recover_file : Bytes → Log × Ending
unfolding replay_all
recover_file file =
    replay_all (suc (length file)) (record { buf = []; pos = 0; compacted = 0; left = file }) no_log

-- What the calls beside the reads come to: whether the file can be opened, set aside and cut.
pub record RecoverIo : Type 0 where
  pub readable : Bool
  pub rename_ok : Bool
  pub truncate_ok : Bool

-- What stands under the name of the file afterwards.
unfoldable pub file_after : RecoverIo → Ending → Bytes → Bytes
file_after io at_end file = file
file_after io (cut n) file = if io.truncate_ok then take n file else file
file_after io corrupt file = if io.rename_ok then [] else file

-- `recover`, with the records that it replays.
unfoldable pub recover : RecoverIo → Aof → List AofRecord × Aof
unfolding recover_file file_after
recover io a =
    if length a.file == 0 || not io.readable
    then ([], record a { replaying = false })
    else let (log, how) = recover_file a.file in
      (
        log.replayed,
        record a {
          file = file_after io how a.file;
          needs_rewrite = a.needs_rewrite || log.needs_rewrite;
          replaying = false;
        },
      )
