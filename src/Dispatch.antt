-- ===== src/Dispatch.antt =====
-- `Database::execute`, `kCommands` and `execute_in_room` (src/core/database.cpp, src/core/commands.cpp):
-- which handler a command reaches, behind the end and the start of a background rewrite. The handlers of
-- INFO and COMPACT, and what the system answers to a rewrite, are the parameter `outside`.
pub mod Refusals
use somnium_db.Prelude.{
  ℕ, suc, ◌+◌, ◌-◌, Bool, true, false, not, ◌||◌, ◌&&◌, Option, none, some, List, [], ◌∷◌, ◌++◌,
  length, take, Bytes, bytes_Eq, nat_eq, bytes_eq, codes, crlf, line, upper, ltb, ◌==◌,
  if◌then◌else◌,
}
use somnium_db.Prelude.Int.{w64}
use somnium_db.Prelude.Map.{find, put}
use somnium_db.Resp.Encode.{bulk_string}
use somnium_db.PubSub.{PubSub, subscribe, unsubscribe, publish, is_subscribed}
use somnium_db.State.{Session, World, Db, Room, M, ◌>>=◌, ◌>>◌, pure, add_u64, Metrics}
use somnium_db.Rooms.{activate, in_room, new_room, rooms_full, handle_room}
use somnium_db.Rooms.Admin.{handle_room_admin}
use somnium_db.Evict.{evict_despised_keys}
use somnium_db.Commands.{handle_get, handle_set, handle_mset}
use somnium_db.Keys.{handle_mget, handle_exists, handle_del, handle_expire, handle_ttl}
use somnium_db.Aof.{rewrite_due}
use somnium_db.Aof.Rewrite.{CommitIo}
use somnium_db.Persistence.Rewriting.{ForkIo, start_background_rewrite, finish_background_rewrite}
use somnium_db.Crdt.{handle_crdtdel, handle_crdtmerge, handle_replfrontier}

-- A reply, the messages for other connections, and the database behind it.
pub record Outcome : Type 0 where
  pub reply : Bytes
  pub sent : List (ℕ × Bytes)
  pub db : Db

abbrev pub answer : Bytes × Db → Outcome
answer (reply, db) = record { reply = reply; sent = []; db = db }

-- What the system answers where a background rewrite is ended: to `waitpid` (whether the child has
-- ended, and gave its status), and to the calls on the files.
pub record FinishIo : Type 0 where
  pub exited : Bool
  pub reaped : Bool
  pub open_ok : Bool
  pub space : ℕ
  pub commit : CommitIo

-- The commands that are not modelled, INFO and COMPACT, and the answers to the rewrites of one command:
-- the one that ends, one that is due, and one that REWRITEAOF asks for.
pub record Outside : Type 0 where
  pub info : Db → Bytes × Db
  pub compact : Db → Bytes × Db
  pub finish : FinishIo
  pub due : ForkIo
  pub asked : ForkIo

-- `start_background_rewrite` on the members.
unfoldable pub start_rewriting : ForkIo → World → Db → Bytes × Db
start_rewriting io w db =
    let (reply, (b, d)) = start_background_rewrite io w (db.background, db) in
    (reply, record d { background = b })

unfoldable pub finish_rewriting : FinishIo → Db → Db
finish_rewriting io db =
    let (b, d) =
      finish_background_rewrite io.exited io.reaped io.open_ok io.space io.commit
        (db.background, db) in
    record d { background = b }

-- The first lines of `execute`: a rewrite whose child has ended is finished, and one that is due starts.
unfoldable pub tend_rewrite : World → Outside → Db → Db
unfolding start_rewriting finish_rewriting
tend_rewrite w outside db =
    let d : Db = finish_rewriting outside.finish db in
    if not d.background.running && rewrite_due d.aof then (start_rewriting outside.due w d).1 else d

-- `Command::scope` with `pubsub` and `run`.
pub data Command : Type 0 where
  pubsub_command : (Db → Outcome) → Command
  connection_command : (Db → Bytes × Db) → Command
  room_command : (Bytes → M Bytes) → Command

-- `handle_subscribe`, behind its test of the number of channels.
unfoldable pub subscribe_each : ℕ → List Bytes → Bytes → Bool → PubSub → Bytes × PubSub
subscribe_each fd [] replies resp3 ps = (replies, ps)
subscribe_each fd (channel ∷ channels) replies resp3 ps =
    let (reply, ps') = subscribe fd channel resp3 ps in
    subscribe_each fd channels (replies ++ reply) resp3 ps'

unfoldable pub handle_subscribe : ℕ → List Bytes → Db → Bytes × Db
unfolding subscribe_each
handle_subscribe fd (name ∷ channel ∷ channels) db =
    let (replies, ps) = subscribe_each fd (channel ∷ channels) [] db.resp3 db.pubsub in
    (replies, record db { pubsub = ps })
handle_subscribe fd args db = (line "-ERR Wrong number of arguments for SUBSCRIBE", db)

handle_unsubscribe : ℕ → List Bytes → Db → Bytes × Db
handle_unsubscribe fd [] db = ([], db)
handle_unsubscribe fd (name ∷ channels) db =
    let (replies, ps) = unsubscribe fd channels db.resp3 db.pubsub in
    (replies, record db { pubsub = ps })

first_or_empty : List Bytes → Bytes
first_or_empty [] = []
first_or_empty (arg ∷ args) = arg

unfoldable pub handle_ping : ℕ → List Bytes → Db → Bytes
unfolding first_or_empty
handle_ping fd args db =
    if ltb 2 (length args)
    then line "-ERR Wrong number of arguments for PING"
    else if not db.resp3 && is_subscribed fd db.pubsub
    then line "*2"
      ++ line "$4"
      ++ line "pong"
      ++ bulk_string (elim args [ [] ↦ [] | name ∷ rest ↦ first_or_empty rest ])
    else elim args [
      | [] ↦ line "+PONG"
      | name ∷ rest ↦ elim rest [ [] ↦ line "+PONG" | arg ∷ more ↦ bulk_string arg ]
    ]

pub handle_publish : List Bytes → Db → Outcome
handle_publish (name ∷ channel ∷ text ∷ rest) db =
    let (reply, sent) = publish channel text db.pubsub in
    record { reply = reply; sent = sent; db = db }
handle_publish args db = answer (line "-ERR Wrong number of arguments for PUBLISH", db)

handle_echo : List Bytes → Bytes
handle_echo (name ∷ text ∷ []) = bulk_string text
handle_echo args = line "-ERR Wrong number of arguments for ECHO"

abbrev pub unknown_command : Bytes
unknown_command = line "-ERR unknown command"

is_room_family : Bytes → Bool
is_room_family command = bytes_eq (take 5 command) (codes "ROOM.")

save_reply : Db → Bytes
save_reply db =
    if db.aof.healthy
    then line "+OK AOF is active and up to date"
    else line "-ERR AOF write error, persistenta suspecta"

module _ (w : World) (outside : Outside) (fd : ℕ) (command : Bytes) (args : List Bytes) where
  -- The handlers on the keys of the client's room; any other command is unknown.
  unfoldable pub room_handler : Bytes → M Bytes
  unfolding save_reply
  room_handler room =
      if bytes_eq command (codes "GET")
      then handle_get w room args
      else if bytes_eq command (codes "SET")
      then handle_set w room args
      else if bytes_eq command (codes "DEL")
      then handle_del w room args
      else if bytes_eq command (codes "CRDTMERGE")
      then handle_crdtmerge w room args
      else if bytes_eq command (codes "CRDTDEL")
      then handle_crdtdel w room args
      else if bytes_eq command (codes "MGET")
      then handle_mget w room args
      else if bytes_eq command (codes "MSET")
      then handle_mset w room args
      else if bytes_eq command (codes "EXISTS")
      then handle_exists w room args
      else if bytes_eq command (codes "EXPIRE")
      then handle_expire w room args 1000
      else if bytes_eq command (codes "PEXPIRE")
      then handle_expire w room args 1
      else if bytes_eq command (codes "PERSIST")
      then handle_expire w room args 0
      else if bytes_eq command (codes "TTL")
      then handle_ttl w room args false
      else if bytes_eq command (codes "PTTL")
      then handle_ttl w room args true
      else if bytes_eq command (codes "SAVE")
      then (λ s. (save_reply s.db, s))
      else pure unknown_command

  -- The entries of `kCommands` with `pubsub`.
  unfoldable pub find_pubsub : Option (Db → Outcome)
  unfolding handle_publish handle_unsubscribe handle_subscribe handle_ping
  find_pubsub =
      if bytes_eq command (codes "SUBSCRIBE")
      then some (λ db. answer (handle_subscribe fd args db))
      else if bytes_eq command (codes "UNSUBSCRIBE")
      then some (λ db. answer (handle_unsubscribe fd args db))
      else if bytes_eq command (codes "PING")
      then some (λ db. answer (handle_ping fd args db, db))
      else if bytes_eq command (codes "PUBLISH")
      then some (handle_publish args)
      else none

  -- The other entries with `Scope::Connection`.
  unfoldable pub find_connection : Option (Db → Bytes × Db)
  unfolding handle_echo is_room_family start_rewriting
  find_connection =
      if bytes_eq command (codes "COMMAND")
      then some (λ db. (line "*0", db))
      else if bytes_eq command (codes "ECHO")
      then some (λ db. (handle_echo args, db))
      else if bytes_eq command (codes "INFO")
      then some outside.info
      else if bytes_eq command (codes "ROOM")
      then some (handle_room w fd args)
      else if bytes_eq command (codes "ROOMS") || is_room_family command
      then some (handle_room_admin w command args)
      else if bytes_eq command (codes "REPLFRONTIER")
      then some (λ db.
        let (reply, s) = handle_replfrontier w args (record { room = new_room []; db = db }) in
        (reply, s.db))
      else if bytes_eq command (codes "REWRITEAOF")
      then some (start_rewriting outside.asked w)
      else if bytes_eq command (codes "COMPACT")
      then some outside.compact
      else none

  -- What `kCommands.find` leads to, or `unknown`.
  unfoldable pub command_of : Option (Db → Outcome) → Option (Db → Bytes × Db) → Command
  unfolding room_handler
  command_of (some run) c = pubsub_command run
  command_of none (some run) = connection_command run
  command_of none none = room_command room_handler

  unfoldable pub find_command : Command
  unfolding find_pubsub find_connection command_of
  find_command = command_of find_pubsub find_connection

-- `execute_in_room`, in the room: what the command brought into memory is evicted behind it.
run_awake : World → M Bytes → M Bytes
unfolding evict_despised_keys
run_awake w handler = do reply ← handler; evict_despised_keys w; pure reply

unfoldable pub execute_in_room : World → M Bytes → M Bytes
unfolding activate run_awake
execute_in_room w handler = do
  awake ← activate w false
  if not awake then pure rooms_full else run_awake w handler

-- `get_client_room`, which notes the default room for a new client.
unfoldable pub client_room : ℕ → Db → Bytes
client_room fd db = elim (find fd db.client_rooms) [ none ↦ codes "default" | some name ↦ name ]

abbrev pub count_command : Db → Db
count_command db = record db { total_commands = add_u64 db.total_commands 1 }

abbrev pub subscribed_error : Bytes
subscribed_error = line "-ERR Clientul este in mod SUBSCRIBE. Nu poti trimite comenzi de Database!"

-- On RESP2, a client with subscriptions may only use the commands of publish and subscribe.
unfoldable pub run_command : World → ℕ → Command → Bytes → Db → Outcome
unfolding execute_in_room in_room
run_command w fd (pubsub_command run) room db = run db
run_command w fd (connection_command run) room db =
    if not db.resp3 && is_subscribed fd db.pubsub
    then answer (subscribed_error, db)
    else answer (run (count_command db))
run_command w fd (room_command run) room db =
    if not db.resp3 && is_subscribed fd db.pubsub
    then answer (subscribed_error, db)
    else answer (in_room room (execute_in_room w (run room)) (count_command db))

unfoldable pub execute : World → Outside → ℕ → List Bytes → Bool → Db → Outcome
unfolding run_command find_command client_room tend_rewrite
execute w outside fd [] resp3 db = answer ([], db)
execute w outside fd (name ∷ args) resp3 db =
    let d : Db = tend_rewrite w outside (record db { resp3 = resp3 }) in
    let room : Bytes = client_room fd d in
    run_command w fd (find_command w outside fd (upper name) (name ∷ args)) room
      (record d { client_rooms = put fd room d.client_rooms })
