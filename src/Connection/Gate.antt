-- ===== src/Connection/Gate.antt =====
-- src/net/connection.cpp, `process_buffered`: without a login no command reaches the database.
use somnium_db.Prelude.{
  ℕ, zero, suc, ◌≡◌, ◌∙◌, refl, sym, ap, Bool, true, false, List, [], ◌∷◌, Bytes, line, codes, drop,
  ◌+◌, arith, if◌then◌else◌, ◌⊎◌, inl, inr, Bool-cases, subst,
}
use somnium_db.Resp.Inline.{parse_request}
use somnium_db.Resp.Stable.{Status-cases}
use somnium_db.Auth.{Login, auth, hello}
use somnium_db.Auth.Lasting.{auth_keeps, hello_keeps}
use somnium_db.Connection.{
  Client, Net, Answer, moved, interrupted, would_block, failed, Stop, dropped, stopped, track,
  send_all, flushed, flush_complete, flush_pending, flush_dead, FlushResult, flush_output,
  enqueue_output, named, is_quit, respond, reply_with, serve_one, serve, finish_turn,
  process_buffered, max_commands_per_turn,
}

enqueue_output-login :
    (text : Bytes) (n : Net) → (enqueue_output text n).1.client.login ≡ n.client.login
unfolding enqueue_output track
enqueue_output-login text n = ground arith

reply_with-login : (text : Bytes) (n : Net) → (reply_with text n).1.client.login ≡ n.client.login
unfolding reply_with
reply_with-login [] n = refl
reply_with-login (b ∷ text) n = enqueue_output-login (b ∷ text) n

send_all-login : (answers : List Answer) (c : Client) → (send_all answers c).1.login ≡ c.login
unfolding send_all
send_all-login [] c = refl
send_all-login (moved n ∷ answers) c =
    ground (arith, send_all-login answers (record c { out_off = c.out_off + n }))
send_all-login (interrupted ∷ answers) c = ground (arith, send_all-login answers c)
send_all-login (would_block ∷ answers) c = ground arith
send_all-login (failed ∷ answers) c = ground arith

flushed-login : (how : FlushResult) (n : Net) → (flushed how n).1.client.login ≡ n.client.login
unfolding flushed track
flushed-login flush_complete n = refl
flushed-login flush_pending n = refl
flushed-login flush_dead n = refl

flush_output-login :
    (answers : List Answer) (n : Net) → (flush_output answers n).1.client.login ≡ n.client.login
unfolding flush_output
flush_output-login answers n =
    flushed-login (send_all answers n.client).0 _ ∙ send_all-login answers n.client

finish_turn-login :
    (answers : List Answer) (stop : Stop) (n : Net)
    → (finish_turn answers stop n).1.client.login ≡ n.client.login
unfolding finish_turn track
finish_turn-login answers dropped n = refl
finish_turn-login answers (stopped quit protocol_error spent pos) n =
    let m : Net =
      track (record n { client = record n.client { in_buf = drop pos n.client.in_buf } }) in
    let said : Bytes = if quit then line "+OK" else line "-ERR Protocol error" in
    ground (
      arith,
      enqueue_output-login said m,
      flush_output-login answers m,
      flush_output-login answers (enqueue_output said m).1,
    )

module _ {D : Type 0} (execute : ℕ → List Bytes → Bool → D → Bytes × D) where
  -- A login at the end, or none before and the state as it was.
  abbrev Shut : Login → D → Login → D → Type 0
  Shut c db c' db' = (c'.authenticated ≡ true) ⊎ ((c.authenticated ≡ false) × (db' ≡ db))

  kept_or_Shut :
      (c c' : Login) (db : D) → (c.authenticated ≡ true → c'.authenticated ≡ true) → Shut c db c' db
  kept_or_Shut c c' db k = elim (Bool-cases c.authenticated) [
    | inl h ↦ inl (k h)
    | inr h ↦ inr (h, refl)
  ]

  respond-Shut :
      (password : Bytes) (args : List Bytes) (c : Login) (db : D)
      → Shut c db (respond execute password args c db).1.0 (respond execute password args c db).1.1
  unfolding respond
  respond-Shut password args c db = elim (Bool-cases (named args (codes "AUTH"))) [
    | inl a ↦
        rw (respond, a) (kept_or_Shut c (auth args password c).1 db (auth_keeps args password c))
    | inr a ↦ elim (Bool-cases (named args (codes "HELLO"))) [
      | inl b ↦
          rw (respond, a, b)
            (kept_or_Shut c (hello args password c).1 db (hello_keeps args password c))
      | inr b ↦ elim (Bool-cases c.authenticated) [
        | inl h ↦ rw (respond, a, b, h) (inl refl)
        | inr h ↦ rw (respond, a, b, h) (inr (refl, refl))
      ]
    ]
  ]

  serve_one-Shut :
      (args : List Bytes) (n : Net) (db : D)
      → Shut n.client.login db
          (serve_one execute args n db).1.0.client.login
          (serve_one execute args n db).1.1
  unfolding serve_one
  serve_one-Shut args n db =
      let r = respond execute n.password args n.client.login db in
      subst (λ c'. Shut n.client.login db c' r.1.1)
        (sym (reply_with-login r.0 (record n { client = record n.client { login = r.1.0 } })))
        (respond-Shut n.password args n.client.login db)

  Shut-trans :
      (a b c : Login) (x y z : D)
      → Shut a x b y
      → Shut b y c z
      → (b.authenticated ≡ true → c.authenticated ≡ true)
      → Shut a x c z
  Shut-trans a b c x y z (inl h) g k = inl (k h)
  Shut-trans a b c x y z (inr h) (inl g) k = inl g
  Shut-trans a b c x y z (inr h) (inr g) k = inr (h.0, g.1 ∙ h.1)

  lasts : (a b : Login) (x y : D) → Shut a x b y → a.authenticated ≡ true → b.authenticated ≡ true
  lasts a b x y (inl h) e = h
  lasts a b x y (inr h) e = absurd (cc (h.0, e))

  serve-Shut :
      (budget pos : ℕ) (n : Net) (db : D)
      → Shut n.client.login db
          (serve execute budget pos n db).1.0.client.login
          (serve execute budget pos n db).1.1
  unfolding serve
  serve-Shut zero pos n db = kept_or_Shut n.client.login n.client.login db λ h. h
  serve-Shut (suc budget) pos n db = elim (Status-cases (parse_request n.client.in_buf pos)) [
    | inr (inl w) ↦ rw (serve, w) (kept_or_Shut n.client.login n.client.login db λ h. h)
    | inr (inr w) ↦ rw (serve, w) (kept_or_Shut n.client.login n.client.login db λ h. h)
    | inl ((end, args), w) ↦
        let one = serve_one execute args n db in
        let first = serve_one-Shut args n db in
        let rest = serve-Shut budget end one.1.0 one.1.1 in
        let behind = (serve execute budget end one.1.0 one.1.1).1 in
        let both =
          Shut-trans n.client.login one.1.0.client.login behind.0.client.login db one.1.1 behind.1
            first rest (lasts one.1.0.client.login behind.0.client.login one.1.1 behind.1 rest) in
        elim (Bool-cases (is_quit args)) [
          | inl q ↦ rw (serve, w, q) (kept_or_Shut n.client.login n.client.login db λ h. h)
          | inr q ↦ elim (Bool-cases one.0) [
            | inl ok ↦ rw (serve, w, q, ok) both
            | inr bad ↦ rw (serve, w, q, bad) first
          ]
        ]
  ]

-- A turn of a client that has no login behind it: no command of it has reached the database, whatever
-- the bytes of its requests were and however they were cut into commands.
pub process_buffered-unauthenticated :
    {D : Type 0} (execute : ℕ → List Bytes → Bool → D → Bytes × D) (answers : List Answer) (n : Net)
    (db : D)
    → (process_buffered execute answers n db).1.0.client.login.authenticated ≡ false
    → (n.client.login.authenticated ≡ false) × ((process_buffered execute answers n db).1.1 ≡ db)
unfolding process_buffered
process_buffered-unauthenticated execute answers n db h =
    let served = serve execute max_commands_per_turn 0 n db in
    let same =
      ap (λ (c : Login). c.authenticated) (finish_turn-login answers served.0 served.1.0) in
    elim (serve-Shut execute max_commands_per_turn 0 n db) [
      | inl open_now ↦ absurd (cc (h, same, open_now))
      | inr shut ↦ shut
    ]
