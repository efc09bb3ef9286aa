-- ===== src/Triple.antt =====
-- Before and after: what an action of a handler needs, and what it then ensures.
use somnium_db.Prelude.{◌≡◌, refl, Bool, true, false, if◌then◌else◌}
use somnium_db.State.{Session, M, ◌>>=◌, pure}

-- From every session with `P`, the action ends in one with `Q` of its result.
pub record Triple {A : Type 0} (P : Session → Type 0) (m : M A) (Q : A → Session → Type 0)
    : Type 0 where
  pub at : (s : Session) → P s → Q (m s).0 (m s).1

module _ {A : Type 0} {P : Session → Type 0} {Q : A → Session → Type 0} where
  pub Triple-pure : (a : A) → ((s : Session) → P s → Q a s) → Triple P (pure a) Q
  Triple-pure a h = record { at = h }

  pub Triple-if :
      (b : Bool) (m n : M A)
      → (b ≡ true → Triple P m Q)
      → (b ≡ false → Triple P n Q)
      → Triple P (if b then m else n) Q
  Triple-if true m n hm hn = hm refl
  Triple-if false m n hm hn = hn refl

module _ {A B : Type 0} {P : Session → Type 0} {Q : A → Session → Type 0}
    {R : B → Session → Type 0} where
  pub Triple-bind :
      (m : M A) (f : A → M B)
      → Triple P m Q
      → ((a : A) → Triple (Q a) (f a) R)
      → Triple P (m >>= f) R
  Triple-bind m f hm hf = record { at = λ s p. (hf (m s).0).at (m s).1 (hm.at s p) }

module _ {A B : Type 0} {P : Session → Type 0} {Q : B → Session → Type 0} where
  -- A value that is read from the session, with its equation.
  pub Triple-read :
      (f : Session → A) (m : A → M B)
      → ((a : A) → Triple (λ s. P s × (f s ≡ a)) (m a) Q)
      → Triple P (λ s. m (f s) s) Q
  Triple-read f m h = record { at = λ s p. (h (f s)).at s (p, refl) }

module _ {A : Type 0} {P P' : Session → Type 0} {Q Q' : A → Session → Type 0} where
  pub Triple-weaken :
      (m : M A)
      → ((s : Session) → P' s → P s)
      → ((a : A) (s : Session) → Q a s → Q' a s)
      → Triple P m Q
      → Triple P' m Q'
  Triple-weaken m before after h = record {
    at = λ s p. after (m s).0 (m s).1 (h.at s (before s p));
  }
