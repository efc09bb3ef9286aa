-- ===== src/Prelude/Set.antt =====
-- `std::unordered_set` as a list of its members, in the order of iteration.
use mathlib.Core.Path.{◌≡◌, refl}
use mathlib.Core.Bool.{Bool, false, not, ◌&&◌, ◌||◌}
use mathlib.Core.List.{List, [], ◌∷◌}
use native.Mathlib.Omega.{arith}
use somnium_db.Prelude.Tests.{Eq, if◌then◌else◌}

module _ {K : Type 0} ⦃e : Eq K⦄ where
  unfoldable pub member : K → List K → Bool
  member x [] = false
  member x (y ∷ s) = e.beq y x || member x s

  -- s.insert(x)
  unfoldable pub insert : K → List K → List K
  insert x [] = x ∷ []
  insert x (y ∷ s) = if e.beq y x then y ∷ s else y ∷ insert x s

  -- s.erase(x)
  unfoldable pub remove : K → List K → List K
  remove x [] = []
  remove x (y ∷ s) = let rest = remove x s in if e.beq y x then rest else y ∷ rest

  pub member-insert : (x z : K) (s : List K) → member z (insert x s) ≡ (e.beq x z || member z s)
  unfolding member insert
  member-insert x z [] = refl
  member-insert x z (y ∷ s) =
      ground (arith, e.beq_iff y x, e.beq_iff y z, e.beq_iff x z, member-insert x z s)

  pub member-remove :
      (x z : K) (s : List K) → member z (remove x s) ≡ (not (e.beq x z) && member z s)
  unfolding member remove
  member-remove x z [] = ground arith
  member-remove x z (y ∷ s) =
      ground (arith, e.beq_iff y x, e.beq_iff y z, e.beq_iff x z, member-remove x z s)

  -- A set with no member is empty.
  pub no_members : (s : List K) → ((x : K) → member x s ≡ false) → s ≡ []
  unfolding member
  no_members [] h = refl
  no_members (y ∷ s) h = ground (arith, e.beq_iff y y, h y)
