-- ===== src/Auth.antt =====
-- src/net/auth.cpp: AUTH and HELLO, and the part of a connection that they change.
pub mod Credentials
pub mod Lasting
use somnium_db.Prelude.{
  ℕ, suc, ◌+◌, ◌-◌, ◌%◌, ◌^◌, Bool, true, false, not, ◌||◌, ◌&&◌, Option, none, some, List, [], ◌∷◌,
  ◌++◌, length, get_elem?, Bytes, codes, crlf, line, upper, bytes_eq, ltb, ◌==◌, if◌then◌else◌,
}
use somnium_db.Prelude.Int.{ℤ, pos, negsuc, ltb_ℤ, eqb_ℤ}
use somnium_db.FsUtil.{parse_i64, to_string}
use somnium_db.Resp.Encode.{bulk_string}

-- The fields of `Client` (src/net/connection.h) that AUTH and HELLO read or write, and
-- `g_auth_failures`.
pub record Login : Type 0 where
  pub fd : ℕ
  pub authenticated : Bool
  pub resp3 : Bool
  pub auth_failures : ℕ

-- `i < pass.size() ? pass[i] : 0`
byte_at : ℕ → Bytes → ℕ
byte_at i pass = elim (get_elem? pass i) [ none ↦ 0 | some c ↦ c ]

-- The loop over the expected password from place `i`: whether `diff` ends other than 0. Only that is
-- ever read of it, and two bytes have the exclusive or 0 where they are equal.
unfoldable pub diff_from : Bool → ℕ → Bytes → Bytes → Bool
unfolding byte_at
diff_from diff i [] pass = diff
diff_from diff i (c ∷ password) pass =
    diff_from (diff || not (c == byte_at i pass)) (suc i) password pass

unfoldable pub credentials_ok : Bytes → Bytes → Bytes → Bool
unfolding diff_from
credentials_ok user pass password =
    not (diff_from (not (length pass == length password)) 0 password pass)
    && bytes_eq user (codes "default")

abbrev pub wrong_pass : Bytes
wrong_pass = line "-WRONGPASS invalid username-password pair"

-- The reply, and the connection behind it; the count of failures is an `unsigned`.
unfoldable pub authenticate : Bytes → Bytes → Bytes → Login → Bytes × Login
unfolding credentials_ok
authenticate user pass password c =
    if credentials_ok user pass password
    then (line "+OK", record c { authenticated = true })
    else (wrong_pass, record c { auth_failures = (c.auth_failures + 1) % 2 ^ 32 })

abbrev pub no_password : Bytes
no_password =
    line
      "-ERR AUTH <password> called without any password configured for the default user. Are you sure your configuration is correct?"

auth_with : Bytes → Bytes → Bytes → Login → Bytes × Login
unfolding authenticate
auth_with user pass [] c = (no_password, c)
auth_with user pass (p ∷ password) c = authenticate user pass (p ∷ password) c

-- AUTH [user] pass
unfoldable pub auth : List Bytes → Bytes → Login → Bytes × Login
unfolding auth_with
auth (name ∷ pass ∷ []) password c = auth_with (codes "default") pass password c
auth (name ∷ user ∷ pass ∷ []) password c = auth_with user pass password c
auth args password c = (line "-ERR wrong number of arguments for 'auth' command", c)

-- `c_str()`, as strcasecmp reads it.
until_nul : Bytes → Bytes
until_nul [] = []
until_nul (c ∷ s) = if c == 0 then [] else c ∷ until_nul s

unfoldable pub is_option : Bytes → Bytes → Bool
unfolding until_nul
is_option arg name = bytes_eq (upper (until_nul arg)) name

-- `std::from_chars` into an `int` that uses up its whole input.
unfoldable pub int_argument : Bytes → Option ℤ
int_argument arg = elim (parse_i64 arg) [
  | none ↦ none
  | some n ↦ if ltb_ℤ (pos (2 ^ 31 - 1)) n || ltb_ℤ n (negsuc (2 ^ 31 - 1)) then none else some n
]

-- What the loop over the options ends with: an error reply, or none.
unfoldable pub hello_options : List Bytes → Bytes → Login → Option Bytes × Login
unfolding authenticate is_option
hello_options [] password c = (none, c)
hello_options (arg ∷ []) password c =
    (some (codes "-ERR Syntax error in HELLO option '" ++ (arg ++ line "'")), c)
hello_options (arg ∷ name ∷ []) password c =
    if is_option arg (codes "SETNAME")
    then (none, c)
    else (some (codes "-ERR Syntax error in HELLO option '" ++ (arg ++ line "'")), c)
hello_options (arg ∷ user ∷ pass ∷ rest) password c =
    let (reply, c') = authenticate user pass password c in
    let set_name : Option Bytes × Login = hello_options (pass ∷ rest) password c in
    let open_to_all : Option Bytes × Login = hello_options rest password c in
    let authenticated : Option Bytes × Login = hello_options rest password c' in
    if is_option arg (codes "AUTH")
    then (if length password == 0
        then open_to_all
        else if credentials_ok user pass password
        then authenticated
        else (some reply, c'))
    else if is_option arg (codes "SETNAME")
    then set_name
    else (some (codes "-ERR Syntax error in HELLO option '" ++ (arg ++ line "'")), c)

abbrev pub no_auth : Bytes
no_auth =
    line
      "-NOAUTH HELLO must be called with the client already authenticated, otherwise the HELLO <proto> AUTH <user> <pass> option can be used to authenticate the client and select the RESP protocol version at the same time"

hello_map : Bool → ℕ → Bytes
hello_map resp3 fd =
    (if resp3 then line "%7" else line "*14")
    ++ bulk_string (codes "server")
    ++ bulk_string (codes "somnium")
    ++ bulk_string (codes "version")
    ++ bulk_string (codes "7.0.0")
    ++ bulk_string (codes "proto")
    ++ (if resp3 then line ":3" else line ":2")
    ++ bulk_string (codes "id")
    ++ (b':' ∷ (to_string fd ++ crlf))
    ++ bulk_string (codes "mode")
    ++ bulk_string (codes "standalone")
    ++ bulk_string (codes "role")
    ++ bulk_string (codes "master")
    ++ bulk_string (codes "modules")
    ++ line "*0"

-- Behind the options: the protocol changes only on an authenticated connection.
unfoldable pub greet : Bool → Login → Bytes × Login
unfolding hello_map
greet resp3 c =
    if not c.authenticated then (no_auth, c) else (hello_map resp3 c.fd, record c { resp3 = resp3 })

greet_unless : Bool → Option Bytes × Login → Bytes × Login
unfolding greet
greet_unless resp3 (some reply, c) = (reply, c)
greet_unless resp3 (none, c) = greet resp3 c

hello_version : Option ℤ → List Bytes → Bytes → Login → Bytes × Login
unfolding hello_options greet_unless
hello_version none opts password c =
    (line "-ERR Protocol version is not an integer or out of range", c)
hello_version (some v) opts password c =
    if not (eqb_ℤ v (pos 2)) && not (eqb_ℤ v (pos 3))
    then (line "-NOPROTO unsupported protocol version", c)
    else greet_unless (eqb_ℤ v (pos 3)) (hello_options opts password c)

-- HELLO [version [AUTH user pass] [SETNAME name]]
unfoldable pub hello : List Bytes → Bytes → Login → Bytes × Login
unfolding greet hello_version int_argument
hello (name ∷ v ∷ opts) password c = hello_version (int_argument v) opts password c
hello args password c = greet c.resp3 c
