-- ===== src/PubSub/Consistent.antt =====
-- src/core/pubsub.cpp: the two directions of the subscription tables agree, after every operation.
use somnium_db.Prelude.{
  ℕ, ◌≡◌, ◌≢◌, inl, inr, refl, sym, ap, subst, ◌∙◌, Bool, false, not, ◌&&◌, none, some, List, [],
  ◌∷◌, Bytes, bytes_Eq, nat_eq, bytes_eq_iff, arith, Option-cases,
}
use somnium_db.Prelude.Map.{find, find-put, find-erase_self, put-IsMap}
use somnium_db.Prelude.Set.{member, insert, member-insert}
use somnium_db.PubSub.{
  PubSub, no_subscriptions, listeners, subscriptions, subscribe, leave_all, settle, unsubscribe,
  unsubscribe_from, remove_client, is_subscribed, or_all,
}
use somnium_db.PubSub.Tables.{
  Consistent, subscriptions-some, subscriptions-none, Consistent-left, leave_each-leave_all,
  member-leave_each,
}

insert-ne-nil : (x : ℕ) (s : List ℕ) → insert x s ≢ []
unfolding insert
insert-ne-nil x [] = λ e. cc
insert-ne-nil x (y ∷ s) = ground arith

insert-ne-nil_bytes : (x : Bytes) (s : List Bytes) → insert x s ≢ []
unfolding insert
insert-ne-nil_bytes x [] = λ e. cc
insert-ne-nil_bytes x (y ∷ s) = ground arith

-- Subscribing keeps the tables consistent.
pub subscribe-Consistent :
    (fd : ℕ) (channel : Bytes) (resp3 : Bool) (ps : PubSub)
    → Consistent ps
    → Consistent (subscribe fd channel resp3 ps).1
unfolding subscribe
subscribe-Consistent fd channel resp3 ps h = record {
  both_ways = λ f c. ground (
    arith,
    find-put channel c (insert fd (listeners channel ps)) ps.channels,
    find-put fd f (insert channel (subscriptions fd ps)) ps.clients,
    member-insert fd f (listeners channel ps),
    member-insert channel c (subscriptions fd ps),
    bytes_eq_iff channel c,
    h.both_ways f c,
  );
  channels_used = λ c. ground (
    arith,
    find-put channel c (insert fd (listeners channel ps)) ps.channels,
    insert-ne-nil fd (listeners channel ps),
    h.channels_used c,
  );
  clients_used = λ f. ground (
    arith,
    find-put fd f (insert channel (subscriptions fd ps)) ps.clients,
    insert-ne-nil_bytes channel (subscriptions fd ps),
    h.clients_used f,
  );
  channels_map = put-IsMap channel _ ps.channels h.channels_map;
  clients_map = put-IsMap fd _ ps.clients h.clients_map;
}

unsubscribe_from-Consistent :
    (fd : ℕ) (resp3 : Bool) (cs : List Bytes) (ps : PubSub)
    → Consistent ps
    → Consistent (unsubscribe_from fd resp3 cs ps).1
unfolding unsubscribe_from
unsubscribe_from-Consistent fd resp3 [] ps h = h
unsubscribe_from-Consistent fd resp3 (c ∷ cs) ps h =
    rw (leave_each-leave_all fd _ (c ∷ cs) ps.channels (subscriptions fd ps)) (
      Consistent-left fd (c ∷ cs) _ ps h
        (member-leave_each fd _ (c ∷ cs) ps.channels (subscriptions fd ps)))

-- Unsubscribing, from the channels given or from all of them, keeps the tables consistent.
pub unsubscribe-Consistent :
    (fd : ℕ) (channels : List Bytes) (resp3 : Bool) (ps : PubSub)
    → Consistent ps
    → Consistent (unsubscribe fd channels resp3 ps).1
unfolding unsubscribe
unsubscribe-Consistent fd channels resp3 ps h =
    unsubscribe_from-Consistent fd resp3 (or_all channels (subscriptions fd ps)) ps h

member-self_false : (c : Bytes) (s : List Bytes) → (not (member c s) && member c s) ≡ false
member-self_false c s = ground arith

remove_client-none : (fd : ℕ) (ps : PubSub) → find fd ps.clients ≡ none → remove_client fd ps ≡ ps
unfolding remove_client
remove_client-none fd ps e = rw (e, remove_client)

remove_client-some :
    (fd : ℕ) (ps : PubSub) (mine : List Bytes)
    → find fd ps.clients ≡ some mine
    → remove_client fd ps ≡ record {
      channels = leave_all fd mine ps.channels;
      clients = settle fd (some mine) [] ps.clients;
    }
unfolding remove_client settle
remove_client-some fd ps mine e = rw (e, remove_client)

-- Removing a client keeps the tables consistent.
pub remove_client-Consistent :
    (fd : ℕ) (ps : PubSub) → Consistent ps → Consistent (remove_client fd ps)
unfolding member
remove_client-Consistent fd ps h = elim (Option-cases (find fd ps.clients)) [
  | inl e ↦ rw (remove_client-none fd ps e) h
  | inr (mine, e) ↦ rw (remove_client-some fd ps mine e) (
      subst (λ m. Consistent (record { channels = leave_all fd mine ps.channels; clients = m }))
        (ap (λ o. settle fd o [] ps.clients) e)
        (Consistent-left fd mine [] ps h
          λ c. sym (rw (subscriptions-some fd ps mine e) (member-self_false c mine))))
]

find-remove_client :
    (fd : ℕ) (ps : PubSub) → Consistent ps → find fd (remove_client fd ps).clients ≡ none
find-remove_client fd ps h = elim (Option-cases (find fd ps.clients)) [
  | inl e ↦ rw (remove_client-none fd ps e) e
  | inr (mine, e) ↦
      rw (remove_client-some fd ps mine e)
        (unfold settle in find-erase_self fd ps.clients h.clients_map)
]

-- A removed client listens to no channel, and no channel has it among its listeners.
pub remove_client_gone :
    (fd : ℕ) (channel : Bytes) (ps : PubSub)
    → Consistent ps
    → (member fd (listeners channel (remove_client fd ps)) ≡ false)
      × (is_subscribed fd (remove_client fd ps) ≡ false)
remove_client_gone fd channel ps h =
    let after : PubSub = remove_client fd ps in
    let none_left = find-remove_client fd ps h in
    (
      (remove_client-Consistent fd ps h).both_ways fd channel
          ∙ rw (subscriptions-none fd after none_left) (unfold member in refl),
      unfold is_subscribed in ground (arith, none_left),
    )

-- The operations of the manager, with the state after each of them.
pub data Op : Type 0 where
  sub : ℕ → Bytes → Bool → Op
  unsub : ℕ → List Bytes → Bool → Op
  gone : ℕ → Op

abbrev pub step : Op → PubSub → PubSub
step (sub fd channel resp3) ps = (subscribe fd channel resp3 ps).1
step (unsub fd channels resp3) ps = (unsubscribe fd channels resp3 ps).1
step (gone fd) ps = remove_client fd ps

abbrev pub run : List Op → PubSub → PubSub
run [] ps = ps
run (op ∷ ops) ps = run ops (step op ps)

step-Consistent : (op : Op) (ps : PubSub) → Consistent ps → Consistent (step op ps)
step-Consistent (sub fd channel resp3) = subscribe-Consistent fd channel resp3
step-Consistent (unsub fd channels resp3) = unsubscribe-Consistent fd channels resp3
step-Consistent (gone fd) = remove_client-Consistent fd

no_subscriptions-Consistent : Consistent no_subscriptions
no_subscriptions-Consistent = record {
  both_ways = λ fd c. unfold listeners subscriptions find member in refl;
  channels_used = λ c. unfold find in λ e. cc;
  clients_used = λ f. unfold find in λ e. cc;
  channels_map = tt;
  clients_map = tt;
}

run-Consistent_from : (ops : List Op) (ps : PubSub) → Consistent ps → Consistent (run ops ps)
run-Consistent_from [] ps h = h
run-Consistent_from (op ∷ ops) ps h = run-Consistent_from ops (step op ps) (step-Consistent op ps h)

-- After any run of subscriptions, unsubscriptions and disconnections from the empty tables: a client
-- is among a channel's listeners exactly when the channel is among the client's subscriptions, no
-- table has an empty set, and no key stands twice.
pub run-Consistent : (ops : List Op) → Consistent (run ops no_subscriptions)
run-Consistent ops = run-Consistent_from ops no_subscriptions no_subscriptions-Consistent
