-- ===== src/Dispatch/Refusals.antt =====
-- src/core/database.cpp: what `execute` refuses to a client with subscriptions.
use somnium_db.Prelude.{
  ℕ, ◌≡◌, ◌∙◌, refl, sym, ap, subst, arith, Bool, true, false, not, ◌&&◌, line, ◌||◌, Option, none,
  some, List, ◌∷◌, Bytes, nat_eq, codes, upper, bytes_eq, if◌then◌else◌,
}
use somnium_db.Prelude.Map.{Map, put}
use somnium_db.PubSub.{is_subscribed}
use somnium_db.State.{World, Db, Background, M}
use somnium_db.Aof.{Aof, rewrite_due}
use somnium_db.Aof.Rewrite.{start_rewrite, abort_rewrite, append_tail, commit_rewrite}
use somnium_db.Persistence.Rewriting.{
  ForkIo, forked, discard_active_snapshots, start_background_rewrite, finish_background_rewrite,
}
use somnium_db.Dispatch.{
  Outside, FinishIo, start_rewriting, finish_rewriting, tend_rewrite, answer, Command,
  connection_command, room_command, find_command, command_of, find_pubsub, find_connection,
  run_command, execute, client_room, subscribed_error,
}

-- The commands of publish and subscribe.
unfoldable pub is_pubsub : Bytes → Bool
is_pubsub command =
    bytes_eq command (codes "SUBSCRIBE")
    || bytes_eq command (codes "UNSUBSCRIBE")
    || bytes_eq command (codes "PING")
    || bytes_eq command (codes "PUBLISH")

if_none :
    {A : Type 0} (b : Bool) (x : A) (y : Option A)
    → b ≡ false
    → y ≡ none
    → (if b then some x else y) ≡ none
if_none true x y h hy = ground (arith, h)
if_none false x y h hy = hy

find_pubsub-none :
    (w : World) (outside : Outside) (fd : ℕ) (command : Bytes) (args : List Bytes)
    → is_pubsub command ≡ false
    → find_pubsub w outside fd command args ≡ none
unfolding find_pubsub is_pubsub
find_pubsub-none w outside fd command args other =
    if_none (bytes_eq command (codes "SUBSCRIBE")) _ _ (ground (arith, other)) (
      if_none (bytes_eq command (codes "UNSUBSCRIBE")) _ _ (ground (arith, other)) (
        if_none (bytes_eq command (codes "PING")) _ _ (ground (arith, other))
          (if_none (bytes_eq command (codes "PUBLISH")) _ _ (ground (arith, other)) refl)))

module _ (w : World) (fd : ℕ) (room : Bytes) (db : Db) where
  Refused : Command → Type 0
  Refused cmd = run_command w fd cmd room db ≡ answer (subscribed_error, db)

  module _ (plain : db.resp3 ≡ false) (listens : is_subscribed fd db.pubsub ≡ true) where
    connection_Refused : (run : Db → Bytes × Db) → Refused (connection_command run)
    unfolding Refused run_command
    connection_Refused run = ground (arith, plain, listens)

    room_Refused : (run : Bytes → M Bytes) → Refused (room_command run)
    unfolding Refused run_command
    room_Refused run = ground (arith, plain, listens)

    command_of-Refused :
        (outside : Outside) (command : Bytes) (args : List Bytes) (c : Option (Db → Bytes × Db))
        → Refused (command_of w outside fd command args none c)
    unfolding command_of
    command_of-Refused outside command args none = room_Refused _
    command_of-Refused outside command args (some run) = connection_Refused run

    find_command-Refused :
        (outside : Outside) (command : Bytes) (args : List Bytes)
        → is_pubsub command ≡ false
        → Refused (find_command w outside fd command args)
    unfolding find_command
    find_command-Refused outside command args other =
        subst
          (λ p.
            Refused
              (command_of w outside fd command args p (find_connection w outside fd command args)))
          (sym (find_pubsub-none w outside fd command args other))
          (command_of-Refused outside command args (find_connection w outside fd command args))

-- What a rewrite in the background does not touch: all but the AOF, the snapshot files and the child.
abbrev pub Untouched : Db → Db → Type 0
Untouched db d = d ≡ record db { aof = d.aof; snapshots = d.snapshots; background = d.background }

either : {A : Type 0} (P : A → Type 0) (b : Bool) (x y : A) → P x → P y → P (if b then x else y)
either P true x y p q = p
either P false x y p q = q

with_child :
    (db : Db) (b : Background) (d : Db)
    → Untouched db d
    → Untouched db (record d { background = b })
with_child db b d h = ap (λ (e : Db). record e { background = b }) h

start_rewriting-Untouched :
    (io : ForkIo) (w : World) (db : Db) → Untouched db (start_rewriting io w db).1
unfolding start_rewriting start_background_rewrite forked discard_active_snapshots
start_rewriting-Untouched io w db =
    let kept : Bytes × (Background × Db) → Type 0 = λ y. Untouched db y.1.1 in
    let x : Bytes × (Background × Db) = start_background_rewrite io w (db.background, db) in
    let begun : Db = record db { aof = (start_rewrite io.start db.aof).1 } in
    let cleared : Db = discard_active_snapshots begun in
    let unforked : Bytes × (Background × Db) = (
      line "-ERR AOF rewrite failed (fork), previous AOF kept",
      (
        record db.background { from = cleared.aof.size },
        record cleared { aof = abort_rewrite cleared.aof },
      ),
    ) in
    let failed : Bytes × (Background × Db) =
      (line "-ERR AOF rewrite failed, previous AOF kept", (db.background, begun)) in
    let split : Bytes × (Background × Db) =
      if not io.fork_ok then unforked else forked io w cleared in
    let opened : Bytes × (Background × Db) =
      if not (start_rewrite io.start db.aof).0 then failed else split in
    with_child db x.1.0 x.1.1 (
      either kept db.background.running
        (line "-ERR AOF rewrite already in progress", (db.background, db)) opened refl
        (either kept (not (start_rewrite io.start db.aof).0) failed split refl
          (either kept (not io.fork_ok) unforked (forked io w cleared) refl refl)))

finish_rewriting-Untouched : (io : FinishIo) (db : Db) → Untouched db (finish_rewriting io db)
unfolding finish_rewriting finish_background_rewrite
finish_rewriting-Untouched io db =
    let kept : Background × Db → Type 0 = λ y. Untouched db y.1 in
    let b : Background = db.background in
    let x : Background × Db =
      finish_background_rewrite io.exited io.reaped io.open_ok io.space io.commit (b, db) in
    let (copied, tailed) = append_tail io.open_ok io.space b.from db.aof in
    let (done, a) = commit_rewrite io.commit tailed in
    let ended : Aof → Background × Db =
      λ a. (record b { running = false }, record db { aof = a }) in
    let committed : Background × Db = if not done then ended (abort_rewrite a) else ended a in
    let merged : Background × Db = if not copied then ended (abort_rewrite tailed) else committed in
    let reaped : Background × Db =
      if not (io.reaped && b.child_ok) then ended (abort_rewrite db.aof) else merged in
    with_child db x.0 x.1 (
      either kept (not b.running || not io.exited) (b, db) reaped refl
        (either kept (not (io.reaped && b.child_ok)) (ended (abort_rewrite db.aof)) merged refl (
          either kept (not copied) (ended (abort_rewrite tailed)) committed refl
            (either kept (not done) (ended (abort_rewrite a)) (ended a) refl refl))))

Untouched-trans : (a b c : Db) → Untouched a b → Untouched b c → Untouched a c
Untouched-trans a b c h k =
    k
    ∙ ap (λ (d : Db). record d { aof = c.aof; snapshots = c.snapshots; background = c.background })
        h

tend_rewrite-Untouched :
    (w : World) (outside : Outside) (db : Db) → Untouched db (tend_rewrite w outside db)
unfolding tend_rewrite
tend_rewrite-Untouched w outside db =
    let d : Db = finish_rewriting outside.finish db in
    let ended : Untouched db d = finish_rewriting-Untouched outside.finish db in
    either (Untouched db) (not d.background.running && rewrite_due d.aof)
      (start_rewriting outside.due w d).1 d
      (Untouched-trans db d (start_rewriting outside.due w d).1 ended
        (start_rewriting-Untouched outside.due w d))
      ended

-- On RESP2, `execute` answers a client that has a subscription with the error alone, for every command
-- but those of publish and subscribe. It ends and starts rewrites in the background as for any command,
-- notes the protocol and the client's room, and changes nothing else: what the rewrites leave differs
-- from the state before in the AOF, the snapshot files and the child alone.
pub execute-subscribed :
    (w : World) (outside : Outside) (fd : ℕ) (name : Bytes) (args : List Bytes) (db : Db)
    → is_subscribed fd db.pubsub ≡ true
    → is_pubsub (upper name) ≡ false
    → (d : Db) × (d ≡ tend_rewrite w outside (record db { resp3 = false }))
      × Untouched (record db { resp3 = false }) d
      × (execute w outside fd (name ∷ args) false db
          ≡ answer (
            subscribed_error,
            record d { client_rooms = put fd (client_room fd db) db.client_rooms },
          ))
unfolding execute Refused client_room
execute-subscribed w outside fd name args db listens other =
    let base : Db = record db { resp3 = false } in
    let d : Db = tend_rewrite w outside base in
    let kept : Untouched base d = tend_rewrite-Untouched w outside base in
    let clients : Map ℕ Bytes = put fd (client_room fd d) d.client_rooms in
    (
      d,
      refl,
      kept,
      find_command-Refused w fd (client_room fd d) (record d { client_rooms = clients })
            (ap (λ (e : Db). e.resp3) kept)
            (ap (λ (e : Db). is_subscribed fd e.pubsub) kept ∙ listens) outside (upper name)
            (name ∷ args) other
          ∙ ap
              (λ (e : Db). answer (
                subscribed_error,
                record d { client_rooms = put fd (client_room fd e) e.client_rooms },
              ))
              kept,
    )
