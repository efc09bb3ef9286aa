-- ===== src/Auth/Lasting.antt =====
-- src/net/auth.cpp: neither AUTH nor HELLO takes a login back.
use somnium_db.Prelude.{◌≡◌, true, Option, none, some, List, [], ◌∷◌, Bytes, Bool, arith}
use somnium_db.Prelude.Int.{ℤ, pos, eqb_ℤ}
use somnium_db.Auth.{
  Login, authenticate, auth_with, auth, hello_options, greet, greet_unless, hello_version,
  int_argument, hello,
}

authenticate_keeps :
    (user pass password : Bytes) (c : Login)
    → c.authenticated ≡ true
    → (authenticate user pass password c).1.authenticated ≡ true
unfolding authenticate
authenticate_keeps user pass password c h = ground (arith, h)

auth_with_keeps :
    (user pass password : Bytes) (c : Login)
    → c.authenticated ≡ true
    → (auth_with user pass password c).1.authenticated ≡ true
unfolding auth_with
auth_with_keeps user pass [] c h = h
auth_with_keeps user pass (p ∷ password) c h = authenticate_keeps user pass (p ∷ password) c h

pub auth_keeps :
    (args : List Bytes) (password : Bytes) (c : Login)
    → c.authenticated ≡ true
    → (auth args password c).1.authenticated ≡ true
unfolding auth
auth_keeps [] password c h = h
auth_keeps (name ∷ []) password c h = h
auth_keeps (name ∷ pass ∷ []) password c h = auth_with_keeps _ pass password c h
auth_keeps (name ∷ user ∷ pass ∷ []) password c h = auth_with_keeps user pass password c h
auth_keeps (name ∷ user ∷ pass ∷ more ∷ rest) password c h = h

hello_options_keeps :
    (opts : List Bytes) (password : Bytes) (c : Login)
    → c.authenticated ≡ true
    → (hello_options opts password c).1.authenticated ≡ true
unfolding hello_options
hello_options_keeps [] password c h = h
hello_options_keeps (arg ∷ []) password c h = h
hello_options_keeps (arg ∷ name ∷ []) password c h = ground (arith, h)
hello_options_keeps (arg ∷ user ∷ pass ∷ rest) password c h = ground (
  arith,
  h,
  authenticate_keeps user pass password c h,
  hello_options_keeps rest password c h,
  hello_options_keeps (pass ∷ rest) password c h,
  hello_options_keeps rest password (authenticate user pass password c).1
      (authenticate_keeps user pass password c h),
)

greet_keeps : (b : Bool) (c : Login) → c.authenticated ≡ true → (greet b c).1.authenticated ≡ true
unfolding greet
greet_keeps b c h = ground (arith, h)

greet_unless_keeps :
    (b : Bool) (r : Option Bytes) (c : Login)
    → c.authenticated ≡ true
    → (greet_unless b (r, c)).1.authenticated ≡ true
unfolding greet_unless
greet_unless_keeps b (some reply) c h = h
greet_unless_keeps b none c h = greet_keeps b c h

hello_version_keeps :
    (v : Option ℤ) (opts : List Bytes) (password : Bytes) (c : Login)
    → c.authenticated ≡ true
    → (hello_version v opts password c).1.authenticated ≡ true
unfolding hello_version
hello_version_keeps none opts password c h = h
hello_version_keeps (some v) opts password c h = ground (
  arith,
  h,
  greet_unless_keeps (eqb_ℤ v (pos 3)) (hello_options opts password c).0
      (hello_options opts password c).1 (hello_options_keeps opts password c h),
)

pub hello_keeps :
    (args : List Bytes) (password : Bytes) (c : Login)
    → c.authenticated ≡ true
    → (hello args password c).1.authenticated ≡ true
unfolding hello
hello_keeps [] password c h = greet_keeps c.resp3 c h
hello_keeps (name ∷ []) password c h = greet_keeps c.resp3 c h
hello_keeps (name ∷ v ∷ opts) password c h = hello_version_keeps (int_argument v) opts password c h
