-- ===== src/Connection.antt =====
-- src/net/connection.cpp: the buffers of a client, and what runs the commands in them. A client with
-- TLS is not modelled. What `send` and `read` answer is given; `D` is what the commands work on.
pub mod Gate
use somnium_db.Prelude.{
  ℕ, zero, suc, ◌+◌, ◌-◌, ◌*◌, ◌%◌, Bool, true, false, not, ◌&&◌, ◌||◌, List, [], ◌∷◌, ◌++◌, length,
  take, drop, Bytes, line, codes, ltb, leb, ◌==◌, if◌then◌else◌,
}
use somnium_db.Prelude.Int.{w64}
use somnium_db.Resp.{Status, complete, need_more, malformed}
use somnium_db.Resp.Inline.{parse_request}
use somnium_db.Auth.{Login, is_option, auth, hello}

abbrev pub read_chunk_size : ℕ
read_chunk_size = 16384

abbrev pub max_commands_per_turn : ℕ
max_commands_per_turn = 8192

abbrev pub max_input_buffer : ℕ
max_input_buffer = 128 * 1024 * 1024

abbrev pub max_unauth_buffer : ℕ
max_unauth_buffer = 16 * 1024

abbrev pub max_reply : ℕ
max_reply = 32 * 1024 * 1024

-- `Client`, with the fields of Login.
pub record Client : Type 0 where
  pub login : Login
  pub in_buf : Bytes
  pub out_buf : Bytes
  pub out_off : ℕ
  pub closed : Bool
  pub held : ℕ

-- The client with `g_client_buffers` and the part of `g_cfg` that is read here.
pub record Net : Type 0 where
  pub client : Client
  pub client_buffers : ℕ
  pub max_client_buffers : ℕ
  pub password : Bytes

unfoldable pub input_cap : Client → ℕ
input_cap c = if c.login.authenticated then max_input_buffer else max_unauth_buffer

unfoldable pub output_cap : Client → ℕ
output_cap c = if c.login.authenticated then max_reply else max_unauth_buffer

-- A `uint64_t` sum.
unfoldable pub over_buffer_budget : ℕ → Net → Bool
over_buffer_budget extra n = ltb n.max_client_buffers ((n.client_buffers + extra) % w64)

unfoldable pub track : Net → Net
track n =
    let c : Client = n.client in
    let now : ℕ = if c.closed then 0 else length c.in_buf + length c.out_buf in
    record n {
      client = record c { held = now };
      client_buffers = (n.client_buffers + (w64 - c.held % w64) + now) % w64;
    }

-- One answer of `send` or `read`: a count, EINTR, EAGAIN or another error.
pub data Answer : Type 0 where
  moved : ℕ → Answer
  interrupted would_block failed : Answer

pub data FlushResult : Type 0 where
  flush_complete flush_pending flush_dead : FlushResult

-- The loop of `flush_output`, over what the calls answer; behind these the socket is full.
unfoldable pub send_all : List Answer → Client → FlushResult × Client
send_all [] c = (if ltb c.out_off (length c.out_buf) then flush_pending else flush_complete, c)
send_all (a ∷ answers) c =
    let again = send_all answers c in
    let on : ℕ → FlushResult × Client =
      λ n. send_all answers (record c { out_off = c.out_off + n }) in
    if not (ltb c.out_off (length c.out_buf)) then (flush_complete, c) else elim a [
      | moved n ↦ if n == 0 then (flush_dead, c) else on n
      | interrupted ↦ again
      | would_block ↦ (flush_pending, c)
      | failed ↦ (flush_dead, c)
    ]

flushed : FlushResult → Net → FlushResult × Net
unfolding track
flushed flush_complete n =
    (flush_complete, track (record n { client = record n.client { out_buf = []; out_off = 0 } }))
flushed flush_pending n = (flush_pending, n)
flushed flush_dead n = (flush_dead, n)

unfoldable pub flush_output : List Answer → Net → FlushResult × Net
unfolding send_all flushed
flush_output answers n =
    let (how, c) = send_all answers n.client in flushed how (record n { client = c })

-- False where the client is to be closed.
unfoldable pub enqueue_output : Bytes → Net → Bool × Net
unfolding output_cap over_buffer_budget track
enqueue_output text n =
    let c : Client = n.client in
    if c.closed
    then (false, n)
    else if ltb (output_cap c) (length c.out_buf - c.out_off + length text)
    then (false, n)
    else if over_buffer_budget (length text) n
    then (false, n)
    else (true, track (record n { client = record c { out_buf = c.out_buf ++ text } }))

-- `strcasecmp(name, word) == 0`, the name being "" where there is none.
unfoldable pub named : List Bytes → Bytes → Bool
unfolding is_option
named [] word = false
named (name ∷ args) word = is_option name word

unfoldable pub is_quit : List Bytes → Bool
unfolding named
is_quit args = length args == 1 && named args (codes "QUIT")

-- How the loop over the commands ends: a cap was exceeded, or it stopped behind `pos`.
pub data Stop : Type 0 where
  dropped : Stop
  stopped : (quit protocol_error spent : Bool) (pos : ℕ) → Stop

-- `Step`
pub data Turn : Type 0 where
  turn_drop turn_done turn_more : Turn

unfoldable pub reply_with : Bytes → Net → Bool × Net
unfolding enqueue_output
reply_with [] n = (true, n)
reply_with (b ∷ text) n = enqueue_output (b ∷ text) n

-- Behind the loop: the input that was used goes, and the output is sent as far as it can be.
unfoldable pub finish_turn : List Answer → Stop → Net → Turn × Net
unfolding track flush_output enqueue_output
finish_turn answers dropped n = (turn_drop, n)
finish_turn answers (stopped quit protocol_error spent pos) n =
    let c : Client = n.client in
    let m : Net = track (record n { client = record c { in_buf = drop pos c.in_buf } }) in
    let (ok, last) = enqueue_output (if quit then line "+OK" else line "-ERR Protocol error") m in
    let (how, sent) = flush_output answers m in
    if quit || protocol_error
    then (turn_drop, if ok then (flush_output answers last).1 else last)
    else elim how [
      | flush_dead ↦ (turn_drop, sent)
      | flush_complete ↦
          (if spent && ltb 0 (length sent.client.in_buf) then turn_more else turn_done, sent)
      | flush_pending ↦
          (if spent && ltb 0 (length sent.client.in_buf) then turn_more else turn_done, sent)
    ]

module _ {D : Type 0} (execute : ℕ → List Bytes → Bool → D → Bytes × D) where
  -- The reply to one command, which AUTH and HELLO give without the database.
  unfoldable pub respond : Bytes → List Bytes → Login → D → Bytes × (Login × D)
  unfolding named auth hello
  respond password args c db =
      if named args (codes "AUTH")
      then (let (reply, c') = auth args password c in (reply, (c', db)))
      else if named args (codes "HELLO")
      then (let (reply, c') = hello args password c in (reply, (c', db)))
      else if not c.authenticated
      then (line "-NOAUTH Authentication required.", (c, db))
      else let (reply, db') = execute c.fd args c.resp3 db in (reply, (c, db'))

  -- One command: whether the client stays, and what is behind it.
  unfoldable pub serve_one : List Bytes → Net → D → Bool × (Net × D)
  unfolding respond reply_with
  serve_one args n db =
      let (reply, (login, db')) = respond n.password args n.client.login db in
      let (ok, n') = reply_with reply (record n { client = record n.client { login = login } }) in
      (ok, (n', db'))

  -- The loop, for `budget` commands more.
  unfoldable pub serve : ℕ → ℕ → Net → D → Stop × (Net × D)
  unfolding serve_one is_quit parse_request
  serve zero pos n db = (stopped false false true pos, (n, db))
  serve (suc budget) pos n db = elim (parse_request n.client.in_buf pos) [
    | need_more ↦ (stopped false false false pos, (n, db))
    | malformed ↦ (stopped false true false pos, (n, db))
    | complete (end, args) ↦
        let (ok, (n', db')) = serve_one args n db in
        let rest = serve budget end n' db' in
        if is_quit args
        then (stopped true false false end, (n, db))
        else if ok
        then rest
        else (dropped, (n', db'))
  ]

  unfoldable pub process_buffered : List Answer → Net → D → Turn × (Net × D)
  unfolding serve finish_turn
  process_buffered answers n db =
      let (stop, (n', db')) = serve max_commands_per_turn 0 n db in
      let (turn, n'') = finish_turn answers stop n' in (turn, (n'', db'))

-- `drain_read`, over what the calls of `read` bring: bytes, of which none at the end of the file, or
-- an error.
pub data Input : Type 0 where
  bytes : Bytes → Input
  read_interrupted read_would_block read_failed : Input

unfoldable pub drain_read : List Input → Net → Bool × Net
unfolding input_cap track over_buffer_budget
drain_read [] n = (true, n)
drain_read (i ∷ inputs) n =
    let again = drain_read inputs n in
    let taken : Bytes → Net =
      λ text. track (record n { client = record n.client { in_buf = n.client.in_buf ++ text } }) in
    let on : Bytes → Bool × Net = λ text. drain_read inputs (taken text) in
    if not (ltb (length n.client.in_buf) (input_cap n.client)) then (true, n) else elim i [
      | read_interrupted ↦ again
      | read_would_block ↦ (true, n)
      | read_failed ↦ (false, n)
      | bytes text ↦
          if length text == 0
          then (false, n)
          else if over_buffer_budget 0 (taken text)
          then (false, taken text)
          else if ltb (length text) read_chunk_size
          then (true, taken text)
          else on text
    ]
