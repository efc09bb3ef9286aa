-- ===== src/Resp/Inline.antt =====
-- src/core/resp.h, `split_inline` and `parse_request`: the requests of clients, arrays or lines.
use somnium_db.Prelude.{
  ℕ, zero, suc, ◌+◌, ◌-◌, ◌*◌, Bool, not, ◌&&◌, ◌||◌, Option, none, some, List, [], ◌∷◌, ◌++◌,
  length, take, drop, Bytes, ltb, leb, ◌==◌, if◌then◌else◌,
}
use somnium_db.Resp.{Status, complete, need_more, malformed, parse}

abbrev pub max_inline : ℕ
max_inline = 64 * 1024

-- `std::isspace` and `std::isxdigit` in the C locale.
unfoldable pub is_space : ℕ → Bool
is_space c = c == 32 || (leb 9 c && leb c 13)

unfoldable pub hex_digit : ℕ → Option ℕ
hex_digit c =
    if leb b'0' c && leb c b'9'
    then some (c - b'0')
    else if leb b'a' c && leb c b'f'
    then some (c - b'a' + 10)
    else if leb b'A' c && leb c b'F'
    then some (c - b'A' + 10)
    else none

-- The escapes of one letter; any other byte stands for itself.
unfoldable pub unescape : ℕ → ℕ
unescape c =
    if c == b'n'
    then 10
    else if c == b'r'
    then 13
    else if c == b't'
    then 9
    else if c == b'b'
    then 8
    else if c == b'a'
    then 7
    else c

-- What a round of the inner loop leads to: the argument ends, the quotes are wrong, or the quote and
-- the argument behind it, with how many bytes more were read.
pub data Round : Type 0 where
  ends unbalanced : Round
  goes_on : (quote : ℕ) (arg : Bytes) (more : ℕ) → Round

-- `\x` and two hex digits.
unfoldable pub hex_byte : Bytes → Option ℕ
unfolding hex_digit
hex_byte (a ∷ b ∷ s) = elim (hex_digit a) [
  | none ↦ none
  | some hi ↦ elim (hex_digit b) [ none ↦ none | some lo ↦ some (hi * 16 + lo) ]
]
hex_byte s = none

-- Behind a backslash within quotes, `next` being the byte it escapes.
unfoldable pub escaped : ℕ → Bytes → ℕ → Bytes → Round
unfolding hex_byte unescape
escaped quote arg next rest =
    if quote == b'\''
    then goes_on quote (arg ++ (if next == b'\'' then next ∷ [] else b'\\' ∷ next ∷ [])) 1
    else if not (next == b'x')
    then goes_on quote (arg ++ unescape next ∷ []) 1
    else elim (hex_byte rest) [
      | none ↦ goes_on quote (arg ++ unescape next ∷ []) 1
      | some byte ↦ goes_on quote (arg ++ byte ∷ []) 3
    ]

-- One round at the byte `ch`, with what follows it; the quote 0 is none.
unfoldable pub round : ℕ → Bytes → ℕ → Bytes → Round
unfolding escaped is_space
round zero arg ch rest =
    if is_space ch
    then ends
    else if ch == b'"' || ch == b'\''
    then goes_on ch arg 0
    else goes_on 0 (arg ++ ch ∷ []) 0
round (suc q) arg ch [] =
    if ch == suc q then goes_on 0 arg 0 else goes_on (suc q) (arg ++ ch ∷ []) 0
round (suc q) arg ch (next ∷ rest) =
    if ch == suc q
    then (if is_space next then goes_on 0 arg 0 else unbalanced)
    else if ch == b'\\'
    then escaped (suc q) arg next rest
    else goes_on (suc q) (arg ++ ch ∷ []) 0

-- The inner loop, behind `skip` bytes that are read already: the argument, and the rest of the line.
unfoldable pub one_arg : ℕ → ℕ → Bytes → Bytes → Option (Bytes × Bytes)
unfolding round
one_arg skip quote arg [] = if quote == 0 then some (arg, []) else none
one_arg (suc skip) quote arg (ch ∷ rest) = one_arg skip quote arg rest
one_arg zero quote arg (ch ∷ rest) = elim (round quote arg ch rest) [
  | ends ↦ some (arg, ch ∷ rest)
  | unbalanced ↦ none
  | goes_on q a more ↦ one_arg more q a rest
]

unfoldable pub skip_spaces : Bytes → Bytes
unfolding is_space
skip_spaces [] = []
skip_spaces (c ∷ s) = if is_space c then skip_spaces s else c ∷ s

-- The outer loop; every argument takes a byte at least, so the length of the line is fuel enough.
unfoldable pub split_args : ℕ → Bytes → Option (List Bytes)
unfolding one_arg skip_spaces
split_args zero line = some []
split_args (suc fuel) line = elim (skip_spaces line) [
  | [] ↦ some []
  | c ∷ s ↦ elim (one_arg 0 0 [] (c ∷ s)) [
    | none ↦ none
    | some (arg, rest) ↦ elim (split_args fuel rest) [ none ↦ none | some args ↦ some (arg ∷ args) ]
  ]
]

-- `none` is the result false.
unfoldable pub split_inline : Bytes → Option (List Bytes)
unfolding split_args
split_inline line = split_args (suc (length line)) line

-- `window.find('\n')`: the line before it.
unfoldable pub until_newline : Bytes → Option Bytes
until_newline [] = none
until_newline (c ∷ s) =
    if c == 10
    then some []
    else elim (until_newline s) [ none ↦ none | some line ↦ some (c ∷ line) ]

-- A carriage return at the end goes.
unfoldable pub chomp : Bytes → Bytes
chomp [] = []
chomp (c ∷ []) = if c == 13 then [] else c ∷ []
chomp (c ∷ d ∷ s) = c ∷ chomp (d ∷ s)

unfoldable pub parse_line : ℕ → Bytes → Status (ℕ × List Bytes)
unfolding until_newline chomp split_inline
parse_line pos window = elim (until_newline window) [
  | none ↦ if ltb (length window) max_inline then need_more else malformed
  | some line ↦ elim (split_inline (chomp line)) [
    | none ↦ malformed
    | some args ↦ complete (pos + length line + 1, args)
  ]
]

unfoldable pub parse_request : Bytes → ℕ → Status (ℕ × List Bytes)
unfolding parse_line
parse_request buf pos = elim (drop pos buf) [
  | [] ↦ parse buf pos
  | c ∷ s ↦ if c == b'*' then parse buf pos else parse_line pos (take max_inline (c ∷ s))
]
