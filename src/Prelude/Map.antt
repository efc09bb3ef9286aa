-- ===== src/Prelude/Map.antt =====
-- `std::unordered_map` as an association list: the list's order is the order of iteration, which
-- C++ leaves open. A map that the program builds holds each key once (`IsMap`).
use Prim.Native.Nat.{ℕ, ◌+◌}
use mathlib.Core.Path.{◌≡◌, refl}
use mathlib.Core.Bool.{false}
use mathlib.Core.Option.{Option, none, some}
use mathlib.Core.List.{List, [], ◌∷◌}
use native.Mathlib.Omega.{arith}
use somnium_db.Prelude.Tests.{Eq, if◌then◌else◌}

abbrev pub Map : Type 0 → Type 0 → Type 0
Map K V = List (K × V)

module _ {K V : Type 0} ⦃e : Eq K⦄ where
  -- m.find(k)
  unfoldable pub find : K → Map K V → Option V
  find k [] = none
  find k ((j, v) ∷ m) = if e.beq j k then some v else find k m

  -- m[k] = v: the entry is replaced where it stands, or added.
  unfoldable pub put : K → V → Map K V → Map K V
  put k v [] = (k, v) ∷ []
  put k v ((j, w) ∷ m) = if e.beq j k then (j, v) ∷ m else (j, w) ∷ put k v m

  -- m.erase(k)
  unfoldable pub erase : K → Map K V → Map K V
  erase k [] = []
  erase k ((j, w) ∷ m) = if e.beq j k then m else (j, w) ∷ erase k m

  -- Each key stands once.
  abbrev pub IsMap : Map K V → Type 0
  IsMap [] = Unit
  IsMap ((j, v) ∷ m) = (find j m ≡ none) × IsMap m

  -- The sum of a measure over the entries.
  abbrev pub total : (K → V → ℕ) → Map K V → ℕ
  total f [] = 0
  total f ((k, v) ∷ m) = f k v + total f m

  pub find-put :
      (k j : K) (v : V) (m : Map K V)
      → find j (put k v m) ≡ (if e.beq k j then some v else find j m)
  unfolding find put
  find-put k j v [] = refl
  find-put k j v ((i, w) ∷ m) =
      ground (arith, e.beq_iff k j, e.beq_iff i k, e.beq_iff i j, find-put k j v m)

  pub find-put_self : (k : K) (v : V) (m : Map K V) → find k (put k v m) ≡ some v
  find-put_self k v m = ground (arith, find-put k k v m, e.beq_iff k k)

  pub find-erase_ne : (k j : K) (m : Map K V) → e.beq k j ≡ false → find j (erase k m) ≡ find j m
  unfolding find erase
  find-erase_ne k j [] h = refl
  find-erase_ne k j ((i, w) ∷ m) h =
      ground (arith, e.beq_iff k j, e.beq_iff i k, e.beq_iff i j, find-erase_ne k j m)

  pub find-erase_self : (k : K) (m : Map K V) → IsMap m → find k (erase k m) ≡ none
  unfolding find erase
  find-erase_self k [] h = refl
  find-erase_self k ((i, w) ∷ m) h = ground (arith, e.beq_iff i k, h.0, h.1, find-erase_self k m)

  pub find-erase-none : (k j : K) (m : Map K V) → find j m ≡ none → find j (erase k m) ≡ none
  unfolding find erase
  find-erase-none k j [] h = refl
  find-erase-none k j ((i, w) ∷ m) h = ground (arith, find-erase-none k j m)

  pub put-IsMap : (k : K) (v : V) (m : Map K V) → IsMap m → IsMap (put k v m)
  unfolding find put
  put-IsMap k v [] h = (refl, tt)
  put-IsMap k v ((i, w) ∷ m) h =
      ground (arith, e.beq_iff i k, e.beq_iff k i, find-put k i v m, put-IsMap k v m)

  pub erase-IsMap : (k : K) (m : Map K V) → IsMap m → IsMap (erase k m)
  unfolding find erase
  erase-IsMap k [] h = tt
  erase-IsMap k ((i, w) ∷ m) h = ground (arith, find-erase-none k i m, erase-IsMap k m)

  -- Replacing or adding an entry changes the sum by that entry alone.
  pub total-put_new :
      (f : K → V → ℕ) (k : K) (v : V) (m : Map K V)
      → find k m ≡ none
      → total f (put k v m) ≡ total f m + f k v
  unfolding find put
  total-put_new f k v [] h = omega arith
  total-put_new f k v ((i, w) ∷ m) h = ground (arith, total-put_new f k v m)

  pub total-put_old :
      (f : K → V → ℕ) (k : K) (v w : V) (m : Map K V)
      → find k m ≡ some w
      → total f (put k v m) + f k w ≡ total f m + f k v
  unfolding find put
  total-put_old f k v w [] h = cc
  total-put_old f k v w ((i, u) ∷ m) h = ground (arith, e.beq_iff i k, total-put_old f k v w m)

  pub total-erase :
      (f : K → V → ℕ) (k : K) (w : V) (m : Map K V)
      → find k m ≡ some w
      → total f (erase k m) + f k w ≡ total f m
  unfolding find erase
  total-erase f k w [] h = cc
  total-erase f k w ((i, u) ∷ m) h = ground (arith, e.beq_iff i k, total-erase f k w m)
