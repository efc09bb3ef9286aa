-- ===== src/Resp/Progress.antt =====
-- src/core/resp.h: a parse moves forward inside the buffer.
use somnium_db.Prelude.{
  ℕ, zero, suc, ◌+◌, ◌≤◌, ◌≡◌, subst, inl, inr, List, [], ◌∷◌, length, take, drop, length-drop,
  Bytes, arith, ltb, Bool-cases, Option-cases,
}
use somnium_db.Resp.{
  Status, complete, need_more, malformed, ◌>>=◌, until_crlf, Cursor, advance, max_header, header_in,
  header, payload, bulk, bulks, parse, max_args, max_bulk,
}
use somnium_db.Resp.Stable.{length-head}

-- `P` holds of what a completed call returns.
abbrev OnComplete {ℓ} : {A : Type ℓ} → (A → Type 0) → Status A → Type 0
OnComplete P (complete a) = P a
OnComplete P _ = Unit

OnComplete-bind :
    {A B : Type 0} (P : A → Type 0) (Q : B → Type 0) (m : Status A) (k : A → Status B)
    → OnComplete P m
    → ((a : A) → P a → OnComplete Q (k a))
    → OnComplete Q (m >>= k)
OnComplete-bind P Q (complete a) k h hk = hk a h
OnComplete-bind P Q need_more k h hk = tt
OnComplete-bind P Q malformed k h hk = tt

-- The cursor `d` is ahead of `c` by at least `n` bytes of one buffer.
abbrev Ahead : ℕ → Cursor → Cursor → Type 0
Ahead n c d = (d.p + length d.unread ≡ c.p + length c.unread) × (c.p + n ≤ d.p)

advance-Ahead : (n : ℕ) (c : Cursor) → n ≤ length c.unread → Ahead n c (advance n c)
unfolding advance
advance-Ahead n c h = omega (arith, length-drop n c.unread)

header_in-Ahead :
    (prefix max p : ℕ) (s : Bytes)
    → OnComplete
        (λ (n, d). Ahead 2 (record { p = p; unread = s }) d)
        (header_in prefix max (record { p = p; unread = s }) s)
unfolding header_in
header_in-Ahead prefix max p [] = tt
header_in-Ahead prefix max p (b ∷ s) = elim (Option-cases (until_crlf (take max_header (b ∷ s)))) [
  | inl e ↦ ground arith
  | inr (h, e) ↦ ground (
    arith,
    advance-Ahead (length h + 2) (record { p = p; unread = b ∷ s }) (length-head (b ∷ s) h e),
  )
]

header-Ahead :
    (prefix max : ℕ) (c : Cursor) → OnComplete (λ (n, d). Ahead 2 c d) (header prefix max c)
unfolding header
header-Ahead prefix max c = header_in-Ahead prefix max c.p c.unread

payload-Ahead :
    (c : Cursor) (r : ℕ × Cursor) → Ahead 2 c r.1 → OnComplete (λ (arg, d). Ahead 2 c d) (payload r)
unfolding payload
payload-Ahead c (len, d) h = elim (Bool-cases (ltb (length d.unread) (len + 2))) [
  | inl short ↦ rw short tt
  | inr long ↦
      let fits : len + 2 ≤ length d.unread = ground arith in
      ground (arith, advance-Ahead (len + 2) d fits)
]

bulk-Ahead : (c : Cursor) → OnComplete (λ (arg, d). Ahead 2 c d) (bulk c)
unfolding bulk
bulk-Ahead c =
    OnComplete-bind (λ (n, d). Ahead 2 c d) (λ (arg, d). Ahead 2 c d) (header b'$' max_bulk c)
      payload (header-Ahead b'$' max_bulk c) (payload-Ahead c)

Ahead-trans : (n : ℕ) (c d e : Cursor) → Ahead n c d → Ahead 0 d e → Ahead n c e
Ahead-trans n c d e h k = omega arith

bulks-Ahead :
    (n count : ℕ) (b c : Cursor)
    → Ahead n b c
    → OnComplete (λ (args, d). Ahead n b d) (bulks count c)
unfolding bulks
bulks-Ahead n zero b c h = h
bulks-Ahead n (suc count) b c h =
    OnComplete-bind (λ (arg, d). Ahead 2 c d) (λ (args, d). Ahead n b d) (bulk c) _ (bulk-Ahead c)
      λ (arg, d) p.
        OnComplete-bind (λ (args, e). Ahead n b e) (λ (args, d). Ahead n b d) (bulks count d) _
          (bulks-Ahead n count b d (omega arith)) λ r q. q

parse_within :
    (buf : Bytes) (pos : ℕ)
    → pos ≤ length buf
    → OnComplete (λ (e, args). (pos + 2 ≤ e) × (e ≤ length buf)) (parse buf pos)
unfolding parse
parse_within buf pos h =
    let start : Cursor = record { p = pos; unread = drop pos buf } in
    OnComplete-bind (λ (n, d). Ahead 2 start d) _ (header b'*' max_args start) _
      (header-Ahead b'*' max_args start)
      λ (count, c) p.
        OnComplete-bind (λ (args, d). Ahead 2 start d) _ (bulks count c) _
          (bulks-Ahead 2 count start c p) λ (args, d) q. omega (arith, length-drop pos buf)

-- A completed parse ends behind where it began, by at least the two bytes of a CRLF, and within the
-- buffer: a loop that goes on from the end stops.
pub parse_bounds :
    (buf : Bytes) (pos e : ℕ) (args : List Bytes)
    → pos ≤ length buf
    → parse buf pos ≡ complete (e, args)
    → (pos + 2 ≤ e) × (e ≤ length buf)
parse_bounds buf pos e args h q =
    subst (OnComplete λ (e, args). (pos + 2 ≤ e) × (e ≤ length buf)) q (parse_within buf pos h)
