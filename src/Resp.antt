-- ===== src/Resp.antt =====
-- src/core/resp.h, `parse`: the parser of commands that the network and the AOF recovery share.
-- The unread part of the buffer is a list, with the offset `p` beside it. What a failed call leaves
-- in `*args` is not modelled, since no caller reads it.
pub mod Encode
pub mod Inline
pub mod Stable
pub mod Progress
pub mod RoundTrip
use somnium_db.Prelude.{
  ℕ, zero, suc, ◌+◌, ◌*◌, true, false, Bool, ◌||◌, not, Option, none, some, List, [], ◌∷◌, ◌++◌,
  length, take, drop, Bytes, ltb, ◌==◌, if◌then◌else◌,
}
use somnium_db.FsUtil.{parse_u64}

-- `Status`, with what the call returns through its pointers.
pub data Status {ℓ} (A : Type ℓ) : Type ℓ where
  complete : A → Status A
  need_more malformed : Status A

infixl 5 ◌>>=◌
abbrev pub ◌>>=◌ {ℓ κ} : {A : Type ℓ} {B : Type κ} → Status A → (A → Status B) → Status B
complete a >>= f = f a
need_more >>= f = need_more
malformed >>= f = malformed

abbrev pub max_args : ℕ
max_args = 1024 * 1024

abbrev pub max_bulk : ℕ
max_bulk = 512 * 1024 * 1024

abbrev pub max_header : ℕ
max_header = 32

-- `window.find("\r\n")`: what stands before the first CRLF, `none` for npos.
unfoldable pub until_crlf : Bytes → Option Bytes
until_crlf [] = none
until_crlf (a ∷ []) = none
until_crlf (a ∷ b ∷ s) =
    let later : Option Bytes = elim (until_crlf (b ∷ s)) [ none ↦ none | some h ↦ some (a ∷ h) ] in
    if a == 13 then (if b == 10 then some [] else later) else later

-- What the parser holds: the offset `p` and the bytes from there on.
pub record Cursor : Type 0 where
  pub p : ℕ
  pub unread : Bytes

unfoldable pub advance : ℕ → Cursor → Cursor
advance n c = record { p = c.p + n; unread = drop n c.unread }

-- `std::from_chars` over all the bytes behind the prefix is `parse_u64`: digits alone, in 64 bits.
unfoldable pub header_number : ℕ → Bytes → Option ℕ
header_number max [] = none
header_number max (prefix ∷ text) = elim (parse_u64 text) [
  | none ↦ none
  | some n ↦ if ltb max n then none else some n
]

-- The lambda `header`: a prefix, a decimal number and CRLF, searched for in 32 bytes.
unfoldable pub header_in : ℕ → ℕ → Cursor → Bytes → Status (ℕ × Cursor)
unfolding header_number advance
header_in prefix max c [] = need_more
header_in prefix max c (b ∷ s) =
    if not (b == prefix) then malformed else elim (until_crlf (take max_header (b ∷ s))) [
      | none ↦ if ltb (length (take max_header (b ∷ s))) max_header then need_more else malformed
      | some head ↦ elim (header_number max head) [
        | none ↦ malformed
        | some n ↦ complete (n, advance (length head + 2) c)
      ]
    ]

unfoldable pub header : ℕ → ℕ → Cursor → Status (ℕ × Cursor)
unfolding header_in
header prefix max c = header_in prefix max c c.unread

ends_in_crlf : Bytes → Bool
ends_in_crlf (a ∷ b ∷ s) = not (not (a == 13) || not (b == 10))
ends_in_crlf _ = false

-- The body of the loop behind its header: `len` bytes and CRLF.
unfoldable pub payload : ℕ × Cursor → Status (Bytes × Cursor)
unfolding ends_in_crlf advance
payload (len, d) =
    if ltb (length d.unread) (len + 2)
    then need_more
    else if not (ends_in_crlf (drop len d.unread))
    then malformed
    else complete (take len d.unread, advance (len + 2) d)

unfoldable pub bulk : Cursor → Status (Bytes × Cursor)
unfolding header payload
bulk c = header b'$' max_bulk c >>= payload

-- The loop, `count` rounds of it.
unfoldable pub bulks : ℕ → Cursor → Status (List Bytes × Cursor)
unfolding bulk
bulks zero c = complete ([], c)
bulks (suc count) c = do (arg, d) ← bulk c; (args, e) ← bulks count d; complete (arg ∷ args, e)

-- `*end` and `*args`.
unfoldable pub parse : Bytes → ℕ → Status (ℕ × List Bytes)
unfolding header bulks
parse buf pos = do
  (count, c) ← header b'*' max_args (record { p = pos; unread = drop pos buf })
  (args, d) ← bulks count c
  complete (d.p, args)
