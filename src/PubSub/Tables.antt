-- ===== src/PubSub/Tables.antt =====
-- src/core/pubsub.cpp: the two subscription tables, and what a client's leaving does to them.
use somnium_db.Prelude.{
  ℕ, ◌≡◌, ◌≢◌, inl, inr, refl, ◌∙◌, false, not, ◌&&◌, Option, none, some, List, [], ◌∷◌, Bytes,
  bytes_Eq, nat_eq, bytes_eq, bytes_eq_iff, ◌==◌, arith, if◌then◌else◌, Option-cases,
}
use somnium_db.Prelude.Map.{
  Map, IsMap, find, find-put, find-erase_ne, find-erase_self, put-IsMap, erase-IsMap,
}
use somnium_db.Prelude.Set.{member, remove, member-remove}
use somnium_db.PubSub.{
  PubSub, listeners, subscriptions, leave, leave_each, leave_all, settle, put_or_erase,
}

pub record Consistent (ps : PubSub) : Type 0 where
  pub both_ways :
      (fd : ℕ) (channel : Bytes)
      → member fd (listeners channel ps) ≡ member channel (subscriptions fd ps)
  pub channels_used : (channel : Bytes) → find channel ps.channels ≢ some []
  pub clients_used : (fd : ℕ) → find fd ps.clients ≢ some []
  pub channels_map : IsMap ps.channels
  pub clients_map : IsMap ps.clients

-- The entry that a set leaves in the table: none if it is empty.
abbrev nonempty : List ℕ → Option (List ℕ)
nonempty [] = none
nonempty (x ∷ s) = some (x ∷ s)

abbrev shrunk : ℕ → Option (List ℕ) → Option (List ℕ)
shrunk fd none = none
shrunk fd (some s) = nonempty (remove fd s)

module _ (channel : Bytes) (m : Map Bytes (List ℕ)) (is_map : IsMap m) where
  find-put_or_erase :
      (s : List ℕ) (c : Bytes)
      → find c (put_or_erase channel s m) ≡ (if bytes_eq channel c then nonempty s else find c m)
  unfolding put_or_erase
  find-put_or_erase [] c =
      ground
        (arith, find-erase_ne channel c m, find-erase_self channel m is_map, bytes_eq_iff channel c)
  find-put_or_erase (x ∷ s) c = find-put channel c (x ∷ s) m

  put_or_erase-IsMap : (s : List ℕ) → IsMap (put_or_erase channel s m)
  unfolding put_or_erase
  put_or_erase-IsMap [] = erase-IsMap channel m is_map
  put_or_erase-IsMap (x ∷ s) = put-IsMap channel (x ∷ s) m is_map

  leave-none : (fd : ℕ) → find channel m ≡ none → leave fd channel m ≡ m
  unfolding leave
  leave-none fd e = rw (e, leave)

  leave-some :
      (fd : ℕ) (s : List ℕ)
      → find channel m ≡ some s
      → leave fd channel m ≡ put_or_erase channel (remove fd s) m
  unfolding leave
  leave-some fd s e = rw (e, leave)

  leave-IsMap : (fd : ℕ) → IsMap (leave fd channel m)
  leave-IsMap fd = elim (Option-cases (find channel m)) [
    | inl e ↦ rw (leave-none fd e) is_map
    | inr (s, e) ↦ rw (leave-some fd s e) (put_or_erase-IsMap (remove fd s))
  ]

  find-leave :
      (fd : ℕ) (c : Bytes)
      → find c (leave fd channel m)
        ≡ (if bytes_eq channel c then shrunk fd (find c m) else find c m)
  find-leave fd c = elim (Option-cases (find channel m)) [
    | inl e ↦ rw (leave-none fd e) (ground (arith, bytes_eq_iff channel c))
    | inr (s, e) ↦
        rw (leave-some fd s e)
          (ground (arith, find-put_or_erase (remove fd s) c, bytes_eq_iff channel c))
  ]

-- The set under a channel of a table.
abbrev set_at : Option (List ℕ) → List ℕ
set_at none = []
set_at (some s) = s

set_at-nonempty : (s : List ℕ) → set_at (nonempty s) ≡ s
set_at-nonempty [] = refl
set_at-nonempty (x ∷ s) = refl

member-shrunk :
    (fd f : ℕ) (o : Option (List ℕ))
    → member f (set_at (shrunk fd o)) ≡ (not (fd == f) && member f (set_at o))
member-shrunk fd f none = unfold member in ground arith
member-shrunk fd f (some s) = rw (set_at-nonempty (remove fd s)) (member-remove fd f s)

shrunk-ne-nil : (fd : ℕ) (o : Option (List ℕ)) → shrunk fd o ≢ some []
shrunk-ne-nil fd none = λ e. cc
shrunk-ne-nil fd (some s) = go (remove fd s)
  where
    go : (t : List ℕ) → nonempty t ≢ some []
    go [] = λ e. cc
    go (x ∷ t) = λ e. cc

-- The table after a client has left some channels: it is out of these, nothing else has changed.
leave_all-IsMap :
    (fd : ℕ) (cs : List Bytes) (m : Map Bytes (List ℕ)) → IsMap m → IsMap (leave_all fd cs m)
unfolding leave_all
leave_all-IsMap fd [] m h = h
leave_all-IsMap fd (c ∷ cs) m h = leave_all-IsMap fd cs (leave fd c m) (leave-IsMap c m h fd)

leave_all-ne-nil :
    (fd : ℕ) (cs : List Bytes) (m : Map Bytes (List ℕ)) (c : Bytes)
    → IsMap m
    → find c m ≢ some []
    → find c (leave_all fd cs m) ≢ some []
unfolding leave_all
leave_all-ne-nil fd [] m c h k = k
leave_all-ne-nil fd (d ∷ cs) m c h k =
    leave_all-ne-nil fd cs (leave fd d m) c (leave-IsMap d m h fd)
      (ground (arith, find-leave d m h fd c, shrunk-ne-nil fd (find c m)))

member-leave_all :
    (fd f : ℕ) (cs : List Bytes) (m : Map Bytes (List ℕ)) (c : Bytes)
    → IsMap m
    → member f (set_at (find c (leave_all fd cs m)))
      ≡ (not (fd == f && member c cs) && member f (set_at (find c m)))
unfolding leave_all
member-leave_all fd f [] m c h = unfold member in ground arith
member-leave_all fd f (d ∷ cs) m c h =
    member-leave_all fd f cs (leave fd d m) c (leave-IsMap d m h fd)
    ∙ unfold member in
      ground (arith, find-leave d m h fd c, member-shrunk fd f (find c m), bytes_eq_iff d c)

listeners_lem : (c : Bytes) (ps : PubSub) → listeners c ps ≡ set_at (find c ps.channels)
unfolding listeners
listeners_lem c ps = ground arith

pub subscriptions-some :
    (fd : ℕ) (ps : PubSub) (s : List Bytes) → find fd ps.clients ≡ some s → subscriptions fd ps ≡ s
unfolding subscriptions
subscriptions-some fd ps s e = ground arith

pub subscriptions-none :
    (fd : ℕ) (ps : PubSub) → find fd ps.clients ≡ none → subscriptions fd ps ≡ []
unfolding subscriptions
subscriptions-none fd ps e = ground arith

-- The entry that `settle` leaves under the client.
abbrev settled : Option (List Bytes) → List Bytes → Option (List Bytes)
settled none left = none
settled (some s) [] = none
settled (some s) (c ∷ cs) = some (c ∷ cs)

find-settle :
    (fd : ℕ) (left : List Bytes) (m : Map ℕ (List Bytes)) (f : ℕ)
    → IsMap m
    → find f (settle fd (find fd m) left m)
      ≡ (if fd == f then settled (find fd m) left else find f m)
find-settle fd left m f h = go (find fd m) refl left
  where
    go :
        (o : Option (List Bytes))
        → find fd m ≡ o
        → (l : List Bytes) → find f (settle fd o l m) ≡ (if fd == f then settled o l else find f m)
    go none e l = unfold settle in ground arith
    go (some s) e [] = unfold settle in ground (arith, find-erase_ne fd f m, find-erase_self fd m h)
    go (some s) e (c ∷ cs) = unfold settle in find-put fd f (c ∷ cs) m

settle-IsMap :
    (fd : ℕ) (o : Option (List Bytes)) (left : List Bytes) (m : Map ℕ (List Bytes))
    → IsMap m
    → IsMap (settle fd o left m)
unfolding settle
settle-IsMap fd none left m h = h
settle-IsMap fd (some s) [] m h = erase-IsMap fd m h
settle-IsMap fd (some s) (c ∷ cs) m h = put-IsMap fd (c ∷ cs) m h

subs_at : Option (List Bytes) → List Bytes
subs_at none = []
subs_at (some s) = s

subscriptions_lem : (fd : ℕ) (ps : PubSub) → subscriptions fd ps ≡ subs_at (find fd ps.clients)
unfolding subscriptions subs_at
subscriptions_lem fd ps = ground arith

member-settled :
    (c : Bytes) (o : Option (List Bytes)) (left : List Bytes)
    → (o ≡ none → member c left ≡ false)
    → member c (subs_at (settled o left)) ≡ member c left
unfolding subs_at
member-settled c none left h = unfold member in ground (arith, h refl)
member-settled c (some s) [] h = refl
member-settled c (some s) (d ∷ ds) h = refl

settled-ne-nil : (o : Option (List Bytes)) (left : List Bytes) → settled o left ≢ some []
settled-ne-nil none left = λ e. cc
settled-ne-nil (some s) [] = λ e. cc
settled-ne-nil (some s) (d ∷ ds) = λ e. cc

-- A client that leaves the channels `cs`, and is left with `left` of its own.
pub Consistent-left :
    (fd : ℕ) (cs left : List Bytes) (ps : PubSub)
    → Consistent ps
    → ((c : Bytes) → member c left ≡ (not (member c cs) && member c (subscriptions fd ps)))
    → Consistent (record {
      channels = leave_all fd cs ps.channels;
      clients = settle fd (find fd ps.clients) left ps.clients;
    })
Consistent-left fd cs left ps h rest = record {
  both_ways = λ f c.
      let kept : find fd ps.clients ≡ none → member c left ≡ false =
        λ e. (rest c ∙ rw (subscriptions-none fd ps e) (unfold member in ground arith)) in
      ground (
        arith,
        listeners_lem c (record {
          channels = leave_all fd cs ps.channels;
          clients = settle fd (find fd ps.clients) left ps.clients;
        }),
        listeners_lem c ps,
        subscriptions_lem f (record {
          channels = leave_all fd cs ps.channels;
          clients = settle fd (find fd ps.clients) left ps.clients;
        }),
        subscriptions_lem f ps,
        member-leave_all fd f cs ps.channels c h.channels_map,
        find-settle fd left ps.clients f h.clients_map,
        member-settled c (find fd ps.clients) left kept,
        rest c,
        h.both_ways f c,
      );
  channels_used = λ c. leave_all-ne-nil fd cs ps.channels c h.channels_map (h.channels_used c);
  clients_used = λ f. ground (
    arith,
    find-settle fd left ps.clients f h.clients_map,
    settled-ne-nil (find fd ps.clients) left,
    h.clients_used f,
  );
  channels_map = leave_all-IsMap fd cs ps.channels h.channels_map;
  clients_map = settle-IsMap fd (find fd ps.clients) left ps.clients h.clients_map;
}

-- The loop of `unsubscribe` leaves each channel on both sides.
pub leave_each-leave_all :
    (fd : ℕ) (header : Bytes) (cs : List Bytes) (m : Map Bytes (List ℕ)) (mine : List Bytes)
    → (leave_each fd header cs m mine).1 ≡ leave_all fd cs m
unfolding leave_each leave_all
leave_each-leave_all fd header [] m mine = refl
leave_each-leave_all fd header (c ∷ cs) m mine =
    leave_each-leave_all fd header cs (leave fd c m) (remove c mine)

pub member-leave_each :
    (fd : ℕ) (header : Bytes) (cs : List Bytes) (m : Map Bytes (List ℕ)) (mine : List Bytes)
    (c : Bytes)
    → member c (leave_each fd header cs m mine).2 ≡ (not (member c cs) && member c mine)
unfolding leave_each
member-leave_each fd header [] m mine c = unfold member in ground arith
member-leave_each fd header (d ∷ cs) m mine c =
    member-leave_each fd header cs (leave fd d m) (remove d mine) c
    ∙ unfold member in ground (arith, member-remove d c mine)
