-- ===== src/PubSub.antt =====
-- src/core/pubsub.{h,cpp}: who listens to which channel, kept in both directions.
pub mod Tables
pub mod Consistent
use somnium_db.Prelude.{
  ℕ, Bool, true, false, Option, none, some, List, [], ◌∷◌, ◌++◌, length, Bytes, bytes_Eq, nat_eq,
  codes, crlf, line, if◌then◌else◌,
}
use somnium_db.Prelude.Map.{Map, find, put, erase}
use somnium_db.Prelude.Set.{insert, remove}
use somnium_db.FsUtil.{to_string}
use somnium_db.Resp.Encode.{bulk_string}

-- `PubSubManager`; the mutex is held by each method from end to end.
pub record PubSub : Type 0 where
  pub channels : Map Bytes (List ℕ)
  pub clients : Map ℕ (List Bytes)

abbrev pub no_subscriptions : PubSub
no_subscriptions = record { channels = []; clients = [] }

-- What stands under a key, where `operator[]` makes an empty set.
unfoldable pub listeners : Bytes → PubSub → List ℕ
listeners channel ps = elim (find channel ps.channels) [ none ↦ [] | some s ↦ s ]

unfoldable pub subscriptions : ℕ → PubSub → List Bytes
subscriptions fd ps = elim (find fd ps.clients) [ none ↦ [] | some s ↦ s ]

-- The three-element confirmation: an array, or a push message in RESP3.
push_header : Bool → Bytes
push_header resp3 = if resp3 then line ">3" else line "*3"

abbrev number : ℕ → Bytes
number n = b':' ∷ (to_string n ++ crlf)

unfoldable pub subscribe : ℕ → Bytes → Bool → PubSub → Bytes × PubSub
unfolding listeners subscriptions push_header
subscribe fd channel resp3 ps =
    let mine : List Bytes = insert channel (subscriptions fd ps) in
    (
      push_header resp3
          ++ bulk_string (codes "subscribe")
          ++ bulk_string channel
          ++ number (length mine),
      record {
        channels = put channel (insert fd (listeners channel ps)) ps.channels;
        clients = put fd mine ps.clients;
      },
    )

abbrev message : Bytes → Bytes → Bytes
message channel text =
    line "*3" ++ bulk_string (codes "message") ++ bulk_string channel ++ bulk_string text

send_to : Bytes → List ℕ → List (ℕ × Bytes)
send_to msg [] = []
send_to msg (fd ∷ fds) = (fd, msg) ∷ send_to msg fds

-- The reply, and what is handed to the message sink, after the mutex is released.
unfoldable pub publish : Bytes → Bytes → PubSub → Bytes × List (ℕ × Bytes)
unfolding listeners send_to
publish channel text ps =
    let targets : List ℕ = listeners channel ps in
    (number (length targets), send_to (message channel text) targets)

-- An entry that is erased from a set, and the set from the map once it is empty.
put_or_erase : Bytes → List ℕ → Map Bytes (List ℕ) → Map Bytes (List ℕ)
put_or_erase channel [] m = erase channel m
put_or_erase channel (fd ∷ fds) m = put channel (fd ∷ fds) m

unfoldable pub leave : ℕ → Bytes → Map Bytes (List ℕ) → Map Bytes (List ℕ)
unfolding put_or_erase
leave fd channel m = elim (find channel m) [
  | none ↦ m
  | some s ↦ put_or_erase channel (remove fd s) m
]

-- The loop of `unsubscribe`: the replies, the channels' sets, and what is left of the client's.
unfoldable pub leave_each :
    ℕ
    → Bytes
    → List Bytes
    → Map Bytes (List ℕ)
    → List Bytes
    → Bytes × Map Bytes (List ℕ) × List Bytes
unfolding leave
leave_each fd header [] m mine = ([], m, mine)
leave_each fd header (channel ∷ rest) m mine =
    let left : List Bytes = remove channel mine in
    let (replies, m', mine') = leave_each fd header rest (leave fd channel m) left in
    (header ++ bulk_string channel ++ number (length left) ++ replies, m', mine')

-- The client's set goes back into the map, or its entry out of it once the set is empty. A client
-- with no entry stays without one.
unfoldable pub settle :
    ℕ → Option (List Bytes) → List Bytes → Map ℕ (List Bytes) → Map ℕ (List Bytes)
settle fd none left m = m
settle fd (some s) [] m = erase fd m
settle fd (some s) (c ∷ cs) m = put fd (c ∷ cs) m

unsubscribe_from : ℕ → Bool → List Bytes → PubSub → Bytes × PubSub
unfolding leave_each subscriptions push_header settle
unsubscribe_from fd resp3 [] ps = (
  push_header resp3
      ++ bulk_string (codes "unsubscribe")
      ++ (if resp3 then line "_" else line "$-1")
      ++ line ":0",
  ps,
)
unsubscribe_from fd resp3 (c ∷ cs) ps =
    let (replies, m, mine) =
      leave_each fd (push_header resp3 ++ bulk_string (codes "unsubscribe")) (c ∷ cs) ps.channels
        (subscriptions fd ps) in
    (replies, record { channels = m; clients = settle fd (find fd ps.clients) mine ps.clients })

-- No channel given: every channel of the client.
or_all : List Bytes → List Bytes → List Bytes
or_all [] mine = mine
or_all (c ∷ cs) mine = c ∷ cs

unfoldable pub unsubscribe : ℕ → List Bytes → Bool → PubSub → Bytes × PubSub
unfolding unsubscribe_from or_all
unsubscribe fd channels resp3 ps =
    unsubscribe_from fd resp3 (or_all channels (subscriptions fd ps)) ps

-- The loop of `remove_client`.
unfoldable pub leave_all : ℕ → List Bytes → Map Bytes (List ℕ) → Map Bytes (List ℕ)
unfolding leave
leave_all fd [] m = m
leave_all fd (channel ∷ rest) m = leave_all fd rest (leave fd channel m)

unfoldable pub remove_client : ℕ → PubSub → PubSub
unfolding leave_all
remove_client fd ps = elim (find fd ps.clients) [
  | none ↦ ps
  | some mine ↦ record { channels = leave_all fd mine ps.channels; clients = erase fd ps.clients }
]

unfoldable pub is_subscribed : ℕ → PubSub → Bool
is_subscribed fd ps = elim (find fd ps.clients) [ none ↦ false | some s ↦ true ]
