-- ===== src/Resp/Stable.antt =====
-- src/core/resp.h: the verdicts Complete and Malformed stand, whatever bytes arrive later.
use somnium_db.Prelude.{
  ◌⊎◌, ℕ, zero, suc, ◌+◌, ◌-◌, ◌≤◌, ◌≡◌, ◌≢◌, refl, inl, inr, false, some, [], ◌∷◌, ◌++◌, length,
  take, drop, take-append_more, take-append_within, drop-append_within, length-take-le, length-drop,
  length-append, Bytes, arith, ltb, Bool-cases, Option-cases,
}
use somnium_db.Resp.{
  Status, complete, need_more, malformed, ◌>>=◌, until_crlf, Cursor, advance, max_header, header_in,
  header, ends_in_crlf, payload, bulk, bulks, parse, max_args, max_bulk,
}

pub Status-cases {ℓ} :
    {A : Type ℓ} (m : Status A) → ((a : A) × (m ≡ complete a)) ⊎ (m ≡ need_more) ⊎ (m ≡ malformed)
Status-cases (complete a) = inl (a, refl)
Status-cases need_more = inr (inl refl)
Status-cases malformed = inr (inr refl)

-- `m'` is `m`, with its value carried along `f`, unless `m` waits for more bytes.
abbrev pub Agrees {ℓ} : {A : Type ℓ} → (A → A) → Status A → Status A → Type ℓ
Agrees f (complete a) m' = m' ≡ complete (f a)
Agrees f malformed m' = m' ≡ malformed
Agrees f need_more m' = Unit

Agrees-bind :
    {A B : Type 0} (f : A → A) (g : B → B) (m m' : Status A) (k : A → Status B)
    → Agrees f m m'
    → ((a : A) → Agrees g (k a) (k (f a)))
    → Agrees g (m >>= k) (m' >>= k)
Agrees-bind f g (complete a) m' k h hk = rw h (hk a)
Agrees-bind f g malformed m' k h hk = rw h refl
Agrees-bind f g need_more m' k h hk = tt

-- The cursor of a buffer that has grown by `t`.
abbrev grow : Bytes → Cursor → Cursor
grow t c = record c { unread = c.unread ++ t }

abbrev grow_rest : {A : Type 0} → Bytes → A × Cursor → A × Cursor
grow_rest t (a, c) = (a, grow t c)

pub until_crlf-append : (s t h : Bytes) → until_crlf s ≡ some h → until_crlf (s ++ t) ≡ some h
unfolding until_crlf
until_crlf-append [] t h e = cc
until_crlf-append (a ∷ []) t h e = cc
until_crlf-append (a ∷ b ∷ s) t h e = elim (Option-cases (until_crlf (b ∷ s))) [
  | inl n ↦ ground arith
  | inr (g, q) ↦ ground (arith, until_crlf-append (b ∷ s) t g q)
]

pub length-until_crlf : (s h : Bytes) → until_crlf s ≡ some h → length h + 2 ≤ length s
unfolding until_crlf
length-until_crlf [] h e = cc
length-until_crlf (a ∷ []) h e = cc
length-until_crlf (a ∷ b ∷ s) h e = elim (Option-cases (until_crlf (b ∷ s))) [
  | inl n ↦ ground arith
  | inr (g, q) ↦ ground (arith, length-until_crlf (b ∷ s) g q)
]

advance-grow :
    (n : ℕ) (t : Bytes) (c : Cursor)
    → n ≤ length c.unread
    → advance n (grow t c) ≡ grow t (advance n c)
unfolding advance
advance-grow n t c h = ground (arith, drop-append_within n c.unread t h)

window-grow :
    (s t h : Bytes)
    → until_crlf (take max_header s) ≡ some h
    → until_crlf (take max_header (s ++ t)) ≡ some h
window-grow s t h e =
    rw (take-append_more max_header s t)
      (until_crlf-append (take max_header s) (take (max_header - length s) t) h e)

window-full :
    (s t : Bytes)
    → ltb (length (take max_header s)) max_header ≡ false
    → take max_header (s ++ t) ≡ take max_header s
window-full s t e = take-append_within max_header s t (
    let h : max_header ≤ length (take max_header s) = ground arith in
    omega (arith, length-take-le max_header s))

pub length-head : (s h : Bytes) → until_crlf (take max_header s) ≡ some h → length h + 2 ≤ length s
length-head s h e =
    omega (arith, length-until_crlf (take max_header s) h e, length-take-le max_header s)

header_in-grow :
    (prefix max p : ℕ) (s t : Bytes)
    → Agrees
        (grow_rest t)
        (header_in prefix max (record { p = p; unread = s }) s)
        (header_in prefix max (record { p = p; unread = s ++ t }) (s ++ t))
unfolding header_in
header_in-grow prefix max p [] t = tt
header_in-grow prefix max p (b ∷ s) t = elim (Option-cases (until_crlf (take max_header (b ∷ s)))) [
  | inl e ↦ ground (arith, window-full (b ∷ s) t)
  | inr (h, e) ↦ ground (
    arith,
    window-grow (b ∷ s) t h e,
    advance-grow (length h + 2) t (record { p = p; unread = b ∷ s }) (length-head (b ∷ s) h e),
  )
]

header-grow :
    (prefix max : ℕ) (t : Bytes) (c : Cursor)
    → Agrees (grow_rest t) (header prefix max c) (header prefix max (grow t c))
unfolding header
header-grow prefix max t c = header_in-grow prefix max c.p c.unread t

ends_in_crlf-append : (s t : Bytes) → 2 ≤ length s → ends_in_crlf (s ++ t) ≡ ends_in_crlf s
unfolding ends_in_crlf
ends_in_crlf-append [] t h = absurd (omega arith)
ends_in_crlf-append (a ∷ []) t h = absurd (omega arith)
ends_in_crlf-append (a ∷ b ∷ s) t h = refl

payload-grow :
    (t : Bytes) (r : ℕ × Cursor) → Agrees (grow_rest t) (payload r) (payload (grow_rest t r))
unfolding payload
payload-grow t (len, d) = elim (Bool-cases (ltb (length d.unread) (len + 2))) [
  | inl short ↦ rw short tt
  | inr long ↦
      let fits : len + 2 ≤ length d.unread = ground arith in
      ground (
        arith,
        length-append d.unread t,
        length-drop len d.unread,
        take-append_within len d.unread t (omega arith),
        drop-append_within len d.unread t (omega arith),
        ends_in_crlf-append (drop len d.unread) t (omega (arith, length-drop len d.unread)),
        advance-grow (len + 2) t d fits,
      )
]

bulk-grow : (t : Bytes) (c : Cursor) → Agrees (grow_rest t) (bulk c) (bulk (grow t c))
unfolding bulk
bulk-grow t c =
    Agrees-bind (grow_rest t) (grow_rest t) (header b'$' max_bulk c)
      (header b'$' max_bulk (grow t c)) payload (header-grow b'$' max_bulk t c) (payload-grow t)

bulks-grow :
    (t : Bytes) (count : ℕ) (c : Cursor)
    → Agrees (grow_rest t) (bulks count c) (bulks count (grow t c))
unfolding bulks
bulks-grow t zero c = refl
bulks-grow t (suc count) c =
    Agrees-bind (grow_rest t) (grow_rest t) (bulk c) _ _ (bulk-grow t c) λ (arg, d).
      Agrees-bind (grow_rest t) (grow_rest t) (bulks count d) _ _ (bulks-grow t count d) λ r. refl

parse-grow :
    (buf t : Bytes) (pos : ℕ)
    → pos ≤ length buf
    → Agrees (λ r. r) (parse buf pos) (parse (buf ++ t) pos)
unfolding parse
parse-grow buf t pos h =
    let start : Cursor = record { p = pos; unread = drop pos buf } in
    rw (drop-append_within pos buf t h) (
      Agrees-bind (grow_rest t) (λ r. r) (header b'*' max_args start)
        (header b'*' max_args (grow t start)) _ (header-grow b'*' max_args t start)
        λ (count, c).
          Agrees-bind (grow_rest t) (λ r. r) (bulks count c) _ _ (bulks-grow t count c) λ r. refl)

Agrees-eq : {A : Type 0} (m m' : Status A) → Agrees (λ r. r) m m' → m ≢ need_more → m' ≡ m
Agrees-eq (complete a) m' h ne = h
Agrees-eq need_more m' h ne = absurd (ne refl)
Agrees-eq malformed m' h ne = h

-- From an offset within the buffer, a verdict other than NeedMore, with the arguments and the end
-- that it brings, stays the same whatever bytes are appended to the buffer.
pub parse-append :
    (buf t : Bytes) (pos : ℕ)
    → pos ≤ length buf
    → parse buf pos ≢ need_more
    → parse (buf ++ t) pos ≡ parse buf pos
parse-append buf t pos h = Agrees-eq (parse buf pos) (parse (buf ++ t) pos) (parse-grow buf t pos h)
