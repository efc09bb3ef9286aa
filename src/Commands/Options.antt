-- ===== src/Commands/Options.antt =====
-- The options of SET and EXPIRE in src/core/commands.cpp.
use somnium_db.Prelude.{
  ℕ, Bool, true, false, not, ◌||◌, ◌&&◌, Option, none, some, List, [], ◌∷◌, ◌++◌, Bytes, codes,
  line, upper, bytes_eq, if◌then◌else◌,
}
use somnium_db.Prelude.Int.{
  ℤ, pos, ◌+ℤ◌, ◌-ℤ◌, ◌*ℤ◌, ltb_ℤ, leb_ℤ, eqb_ℤ, div_ℤ, llong_max, llong_min,
}
use somnium_db.FsUtil.{parse_i64}

pub record SetOptions : Type 0 where
  pub nx : Bool
  pub xx : Bool
  pub expire_at : ℤ

abbrev pub no_options : SetOptions
no_options = record { nx = false; xx = false; expire_at = pos 0 }

-- The options, or the reply to bad ones.
pub data Parsed (A : Type 0) : Type 0 where
  parsed : A → Parsed A
  rejected : Bytes → Parsed A

abbrev pub bad_set_expire : Bytes
bad_set_expire = line "-ERR invalid expire time in 'set' command"

abbrev pub syntax_error : Bytes
syntax_error = line "-ERR syntax error"

-- The absolute deadline of `n` units of `scale` milliseconds.
unfoldable pub set_deadline : ℤ → ℕ → Option ℤ → Option ℤ
set_deadline now scale none = none
set_deadline now scale (some n) =
    if leb_ℤ n (pos 0) || ltb_ℤ (div_ℤ (llong_max -ℤ now) scale) n
    then none
    else some (now +ℤ n *ℤ pos scale)

is_condition : Bytes → SetOptions → Bool
is_condition opt o =
    (bytes_eq opt (codes "NX") || bytes_eq opt (codes "XX")) && not o.nx && not o.xx

condition : Bytes → SetOptions → SetOptions
condition opt o = record o { nx = bytes_eq opt (codes "NX"); xx = bytes_eq opt (codes "XX") }

is_expiry : Bytes → SetOptions → Bool
is_expiry opt o =
    (bytes_eq opt (codes "EX") || bytes_eq opt (codes "PX")) && eqb_ℤ o.expire_at (pos 0)

-- The loop over the arguments behind the value.
unfoldable pub set_options : ℤ → List Bytes → SetOptions → Parsed SetOptions
unfolding set_deadline is_condition condition is_expiry
set_options now [] o = parsed o
set_options now (arg ∷ []) o =
    if is_condition (upper arg) o then parsed (condition (upper arg) o) else rejected syntax_error
set_options now (arg ∷ amount ∷ rest) o =
    let opt : Bytes = upper arg in
    let plain : Parsed SetOptions = set_options now (amount ∷ rest) (condition opt o) in
    let timed : Parsed SetOptions =
      elim (set_deadline now (if bytes_eq opt (codes "EX") then 1000 else 1) (parse_i64 amount)) [
        | none ↦ rejected bad_set_expire
        | some at ↦ set_options now rest (record o { expire_at = at })
      ] in
    if is_condition opt o then plain else if is_expiry opt o then timed else rejected syntax_error

-- The options of EXPIRE and PEXPIRE.
pub record ExpireOptions : Type 0 where
  pub nx : Bool
  pub xx : Bool
  pub gt : Bool
  pub lt : Bool

abbrev pub no_expire_options : ExpireOptions
no_expire_options = record { nx = false; xx = false; gt = false; lt = false }

unfoldable pub expire_options : List Bytes → ExpireOptions → Parsed ExpireOptions
expire_options [] o = parsed o
expire_options (arg ∷ rest) o =
    let opt : Bytes = upper arg in
    let go = λ (o' : ExpireOptions). expire_options rest o' in
    if bytes_eq opt (codes "NX")
    then go (record o { nx = true })
    else if bytes_eq opt (codes "XX")
    then go (record o { xx = true })
    else if bytes_eq opt (codes "GT")
    then go (record o { gt = true })
    else if bytes_eq opt (codes "LT")
    then go (record o { lt = true })
    else rejected (codes "-ERR Unsupported option " ++ (arg ++ line ""))

-- The checks behind the loop.
unfoldable pub compatible : ExpireOptions → Parsed ExpireOptions
compatible o =
    if o.nx && (o.xx || o.gt || o.lt)
    then rejected (line "-ERR NX and XX, GT or LT options at the same time are not compatible")
    else if o.gt && o.lt
    then rejected (line "-ERR GT and LT options at the same time are not compatible")
    else parsed o

-- `expire_at`, with the guards against overflow; `n` comes back beside it.
unfoldable pub expire_deadline : ℤ → ℕ → Option ℤ → Option (ℤ × ℤ)
expire_deadline now scale none = none
expire_deadline now scale (some n) =
    if ltb_ℤ n (div_ℤ llong_min scale) || ltb_ℤ (div_ℤ (llong_max -ℤ now) scale) n
    then none
    else some (n, now +ℤ n *ℤ pos scale)

-- Whether the options stop an expiry that would replace the deadline `old` by `new`.
unfoldable pub stopped : ExpireOptions → ℤ → ℤ → Bool
stopped o old new =
    let has_ttl : Bool = not (eqb_ℤ old (pos 0)) in
    o.nx && has_ttl
    || o.xx && not has_ttl
    || o.gt && (not has_ttl || leb_ℤ new old)
    || o.lt && has_ttl && leb_ℤ old new
