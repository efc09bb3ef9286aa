-- ===== src/Auth/Credentials.antt =====
-- src/net/auth.cpp: who gets in.
use somnium_db.Prelude.{
  ℕ, suc, ◌≡◌, ◌↔◌, refl, ap, arith, Bool, true, false, not, ◌||◌, Option, none, some, List, [],
  ◌∷◌, length, Bytes, codes, bytes_eq_iff, ◌==◌,
}
use somnium_db.Prelude.Int.{ℤ, pos, eqb_ℤ}
use somnium_db.Auth.{
  Login, byte_at, diff_from, credentials_ok, authenticate, auth_with, auth, hello_options, greet,
  greet_unless, hello_version, int_argument, hello,
}

diff_from-true : (i : ℕ) (password pass : Bytes) → diff_from true i password pass ≡ true
unfolding diff_from
diff_from-true i [] pass = refl
diff_from-true i (c ∷ password) pass = diff_from-true (suc i) password pass

byte_at-suc : (i a : ℕ) (pass : Bytes) → byte_at (suc i) (a ∷ pass) ≡ byte_at i pass
unfolding byte_at
byte_at-suc i a pass = refl

-- The loop that starts one place later, on a password with one more byte in front.
diff_from-cons :
    (diff : Bool) (i a : ℕ) (password pass : Bytes)
    → diff_from diff (suc i) password (a ∷ pass) ≡ diff_from diff i password pass
unfolding diff_from
diff_from-cons diff i a [] pass = refl
diff_from-cons diff i a (c ∷ password) pass =
    diff_from-cons (diff || not (c == byte_at i pass)) (suc i) a password pass

diff_from-zero :
    (password pass : Bytes)
    → length pass ≡ length password
    → (diff_from false 0 password pass ≡ false) ↔ (pass ≡ password)
unfolding diff_from byte_at
diff_from-zero [] [] h = (λ _. refl, λ _. refl)
diff_from-zero [] (a ∷ pass) h = ground (arith, h)
diff_from-zero (c ∷ password) [] h = ground (arith, h)
diff_from-zero (c ∷ password) (a ∷ pass) h = ground (
  arith,
  diff_from-cons (not (c == a)) 0 a password pass,
  diff_from-true 0 password pass,
  diff_from-zero password pass (ground (arith, h)),
)

-- The comparison that never stops early is the equality of the passwords, for the one user there is.
pub credentials_ok_iff :
    (user pass password : Bytes)
    → (credentials_ok user pass password ≡ true) ↔ ((pass ≡ password) × (user ≡ codes "default"))
unfolding credentials_ok
credentials_ok_iff user pass password = ground (
  arith,
  diff_from-zero password pass,
  diff_from-true 0 password pass,
  bytes_eq_iff user (codes "default"),
  ap (λ (b : Bytes). length b),
)

authenticate-resp3 :
    (user pass password : Bytes) (c : Login) → (authenticate user pass password c).1.resp3 ≡ c.resp3
unfolding authenticate
authenticate-resp3 user pass password c = ground arith

hello_options-resp3 :
    (opts : List Bytes) (password : Bytes) (c : Login)
    → (hello_options opts password c).1.resp3 ≡ c.resp3
unfolding hello_options
hello_options-resp3 [] password c = refl
hello_options-resp3 (arg ∷ []) password c = refl
hello_options-resp3 (arg ∷ name ∷ []) password c = ground arith
hello_options-resp3 (arg ∷ user ∷ pass ∷ rest) password c = ground (
  arith,
  authenticate-resp3 user pass password c,
  hello_options-resp3 rest password c,
  hello_options-resp3 (pass ∷ rest) password c,
  hello_options-resp3 rest password (authenticate user pass password c).1,
)

greet-resp3 :
    (b : Bool) (c : Login) → (greet b c).1.authenticated ≡ false → (greet b c).1.resp3 ≡ c.resp3
unfolding greet
greet-resp3 b c h = ground (arith, h)

greet_unless-resp3 :
    (b : Bool) (r : Option Bytes) (c : Login)
    → (greet_unless b (r, c)).1.authenticated ≡ false
    → (greet_unless b (r, c)).1.resp3 ≡ c.resp3
unfolding greet_unless
greet_unless-resp3 b (some reply) c h = refl
greet_unless-resp3 b none c h = greet-resp3 b c h

hello_version-resp3 :
    (v : Option ℤ) (opts : List Bytes) (password : Bytes) (c : Login)
    → (hello_version v opts password c).1.authenticated ≡ false
    → (hello_version v opts password c).1.resp3 ≡ c.resp3
unfolding hello_version
hello_version-resp3 none opts password c h = refl
hello_version-resp3 (some v) opts password c h = ground (
  arith,
  h,
  hello_options-resp3 opts password c,
  greet_unless-resp3 (eqb_ℤ v (pos 3)) (hello_options opts password c).0
      (hello_options opts password c).1,
)

-- A connection that HELLO leaves without a login keeps the protocol that it spoke.
pub hello-resp3 :
    (args : List Bytes) (password : Bytes) (c : Login)
    → (hello args password c).1.authenticated ≡ false
    → (hello args password c).1.resp3 ≡ c.resp3
unfolding hello
hello-resp3 [] password c h = greet-resp3 c.resp3 c h
hello-resp3 (name ∷ []) password c h = greet-resp3 c.resp3 c h
hello-resp3 (name ∷ v ∷ opts) password c h = hello_version-resp3 (int_argument v) opts password c h

iff_trans : {A B C : Type 0} → A ↔ B → B ↔ C → A ↔ C
iff_trans f g = ((λ a. g.0 (f.0 a)), λ c. f.1 (g.1 c))

authenticate-authenticated :
    (user pass password : Bytes) (c : Login)
    → c.authenticated ≡ false
    → ((authenticate user pass password c).1.authenticated ≡ true)
      ↔ (credentials_ok user pass password ≡ true)
unfolding authenticate
authenticate-authenticated user pass password c h = ground (arith, h)

-- On a server with a password, AUTH with a user logs in a connection that was not logged in exactly
-- when the user is the default one and the password is right; without a user, when the password is
-- right; and with more arguments than these, never.
pub auth-authenticated :
    (name user pass more : Bytes) (others : List Bytes) (p : ℕ) (password : Bytes) (c : Login)
    → c.authenticated ≡ false
    → (((auth (name ∷ user ∷ pass ∷ []) (p ∷ password) c).1.authenticated ≡ true)
        ↔ ((pass ≡ p ∷ password) × (user ≡ codes "default")))
      × (((auth (name ∷ pass ∷ []) (p ∷ password) c).1.authenticated ≡ true)
          ↔ (pass ≡ p ∷ password))
      × ((auth (name ∷ user ∷ pass ∷ more ∷ others) (p ∷ password) c).1.authenticated ≡ false)
unfolding auth auth_with
auth-authenticated name user pass more others p password c h = (
  iff_trans (authenticate-authenticated user pass (p ∷ password) c h)
      (credentials_ok_iff user pass (p ∷ password)),
  iff_trans (authenticate-authenticated (codes "default") pass (p ∷ password) c h) (
      iff_trans (credentials_ok_iff (codes "default") pass (p ∷ password))
        ((λ e. e.0), λ e. (e, refl))),
  h,
)
