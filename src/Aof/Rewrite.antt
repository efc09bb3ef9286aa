-- ===== src/Aof/Rewrite.antt =====
-- src/storage/aof_manager.cpp: opening the file, and writing it anew beside the old one, which is
-- replaced at the end. What the system calls come to is given; `sync_dir` is not modelled.
pub mod Draft
use somnium_db.Prelude.{
  ℕ, zero, suc, ◌+◌, ◌-◌, ◌^◌, ◌%◌, Bool, true, false, not, ◌&&◌, ◌||◌, [], ◌++◌, length, take,
  drop, Bytes, ltb, leb, ◌==◌, if◌then◌else◌,
}
use somnium_db.Prelude.Int.{w64}
use somnium_db.Aof.{AofRecord, Aof, AofSync, off, aof_header, encode_record}

-- How many bytes a file takes before a write to it fails, beside what the other calls come to.
pub record OpenIo : Type 0 where
  pub open_ok : Bool
  pub stat_ok : Bool
  pub room : ℕ
  pub sync_ok : Bool
  pub truncate_ok : Bool

-- An empty file gets the header, or is left empty and closed.
unfoldable pub write_header : OpenIo → Aof → Bool × Aof
write_header io a =
    if ltb io.room (length aof_header)
    then (
      false,
      record a {
        file = if io.truncate_ok then [] else take io.room aof_header;
        size = 0;
        healthy = false;
        fd_open = false;
      },
    )
    else let b : Aof = record a { file = aof_header; size = length aof_header } in
      if not io.sync_ok
      then (false, record b { healthy = false; fd_open = false })
      else (true, record b { synced = length aof_header; base_size = length aof_header })

unfoldable pub open_file : OpenIo → Aof → Bool × Aof
unfolding write_header
open_file io a =
    if a.fd_open
    then (true, a)
    else if not io.open_ok
    then (false, record a { healthy = false })
    else let b : Aof = record a { fd_open = true; generation = a.generation + 1 } in
      if io.stat_ok && length a.file == 0
      then write_header io b
      else let n : ℕ = if io.stat_ok then length a.file else 0 in
        (true, record b { size = n; synced = n; base_size = n })

-- `open` and `write_all` into the temporary file.
unfoldable pub start_rewrite : OpenIo → Aof → Bool × Aof
start_rewrite io a =
    if a.rewrite_open
    then (true, a)
    else let b : Aof = record a { base_size = a.size } in
      if not io.open_ok
      then (false, b)
      else if ltb io.room (length aof_header)
      then (false, record b { draft = [] })
      else (true, record b { rewrite_open = true; draft = aof_header })

-- `room` is how many bytes more the temporary file takes.
unfoldable pub append_rewrite : ℕ → AofRecord → Aof → Bool × Aof
append_rewrite room rec a =
    let text : Bytes = encode_record rec in
    if not a.rewrite_open
    then (false, a)
    else if ltb room (length text)
    then (false, record a { draft = a.draft ++ take room text })
    else (true, record a { draft = a.draft ++ text })

unfoldable pub abort_locked : Aof → Aof
abort_locked a = record a { last_tail = 0; rewrite_open = false; draft = [] }

unfoldable pub abort_rewrite : Aof → Aof
unfolding abort_locked
abort_rewrite a = abort_locked a

abbrev pub piece : ℕ
piece = 2 ^ 16

-- The body of the loop: `pread_all` of `n` bytes, which fails at the end of the file, and
-- `write_all` of them.
unfoldable pub copy_piece : ℕ → ℕ → ℕ → Bytes → Bytes → Bool × Bytes
copy_piece n room from file draft =
    let text : Bytes = take n (drop from file) in
    if ltb (length text) n
    then (false, draft)
    else if ltb room n
    then (false, draft ++ take room text)
    else (true, draft ++ text)

-- `std::min(buf.size(), end - off)`
unfoldable pub piece_size : ℕ → ℕ → ℕ
piece_size from end = if ltb (end - from) piece then end - from else piece

-- The loop of `append_tail`, on `fuel` rounds.
unfoldable pub copy_tail : ℕ → ℕ → ℕ → ℕ → Bytes → Bytes → Bool × Bytes
unfolding copy_piece piece_size
copy_tail zero room from end file draft = (true, draft)
copy_tail (suc fuel) room from end file draft =
    if not (ltb from end)
    then (true, draft)
    else let n : ℕ = piece_size from end in
      let (ok, more) = copy_piece n room from file draft in
      let rest = copy_tail fuel (room - n) (from + n) end file more in
      if ok then rest else (false, more)

unfoldable pub append_tail : Bool → ℕ → ℕ → Aof → Bool × Aof
unfolding copy_tail
append_tail open_ok room from a =
    if not a.rewrite_open || not open_ok
    then (false, a)
    else let (ok, draft) = copy_tail (suc a.size) room from a.size a.file a.draft in
      (ok, record a { draft = draft; last_tail = if leb from a.size then a.size - from else 0 })

pub record CommitIo : Type 0 where
  pub stat_ok : Bool
  pub sync_ok : Bool
  pub close_ok : Bool
  pub rename_ok : Bool
  pub reopen_ok : Bool

-- `base_size_`: the new file without the tail, at least 1.
unfoldable pub snapshot_size : ℕ → ℕ → ℕ
snapshot_size written tail =
    let snapshot : ℕ = if leb tail written then written - tail else written in
    if snapshot == 0 then 1 else snapshot

-- The new file is in place: it is opened, and the counts begin anew.
unfoldable pub replaced : CommitIo → ℕ → Aof → Bool × Aof
unfolding snapshot_size
replaced io written a = (
  io.reopen_ok,
  record a {
    file = a.draft;
    draft = [];
    rewrite_open = false;
    fd_open = io.reopen_ok;
    generation = a.generation + 1;
    healthy = io.reopen_ok;
    torn = false;
    needs_rewrite = false;
    size = written;
    base_size = snapshot_size written a.last_tail;
    last_tail = 0;
    synced = if io.reopen_ok then written else 0;
  },
)

unfoldable pub commit_rewrite : CommitIo → Aof → Bool × Aof
unfolding replaced abort_locked
commit_rewrite io a =
    if not a.rewrite_open
    then (false, a)
    else if not io.sync_ok
    then (false, abort_locked a)
    else if not (io.close_ok && io.rename_ok)
    then (false, record a { healthy = false; rewrite_open = false; draft = [] })
    else replaced io (if io.stat_ok then length a.draft else 0) a
