-- ===== src/Aof/Recovery/Shift.antt =====
-- src/core/resp.h, `parse`: the offset only counts along, what is parsed are the bytes behind it.
use somnium_db.Prelude.{
  inl, inr, length, take, Option-cases, ℕ, zero, suc, ◌+◌, ◌≡◌, ◌∙◌, refl, ap, List, [], ◌∷◌, drop,
  Bytes, arith,
}
use somnium_db.Resp.{
  Status, complete, need_more, malformed, ◌>>=◌, Cursor, advance, header_in, header, payload, bulk,
  bulks, parse, max_args, max_header, until_crlf,
}

abbrev pub mapped {ℓ} : {A : Type ℓ} → (A → A) → Status A → Status A
mapped f (complete a) = complete (f a)
mapped f need_more = need_more
mapped f malformed = malformed

mapped-bind :
    {A B : Type 0} (f : A → A) (g : B → B) (m m' : Status A) (k : A → Status B)
    → m' ≡ mapped f m
    → ((a : A) → k (f a) ≡ mapped g (k a))
    → (m' >>= k) ≡ mapped g (m >>= k)
mapped-bind f g (complete a) m' k h hk = rw h (hk a)
mapped-bind f g need_more m' k h hk = rw h refl
mapped-bind f g malformed m' k h hk = rw h refl

abbrev shift : ℕ → Cursor → Cursor
shift n c = record c { p = n + c.p }

abbrev shift_rest : {A : Type 0} → ℕ → A × Cursor → A × Cursor
shift_rest n (a, c) = (a, shift n c)

abbrev pub shift_end : ℕ → ℕ × List Bytes → ℕ × List Bytes
shift_end n (end, args) = (n + end, args)

advance-shift : (n m : ℕ) (c : Cursor) → advance m (shift n c) ≡ shift n (advance m c)
unfolding advance
advance-shift n m c = ap (λ (q : ℕ). record { p = q; unread = drop m c.unread }) (omega arith)

header_in-shift :
    (prefix max n : ℕ) (c : Cursor) (s : Bytes)
    → header_in prefix max (shift n c) s ≡ mapped (shift_rest n) (header_in prefix max c s)
unfolding header_in
header_in-shift prefix max n c [] = refl
header_in-shift prefix max n c (b ∷ s) =
    elim (Option-cases (until_crlf (take max_header (b ∷ s)))) [
      | inl e ↦ ground arith
      | inr (h, e) ↦ ground (arith, advance-shift n (length h + 2) c)
    ]

header-shift :
    (prefix max n : ℕ) (c : Cursor)
    → header prefix max (shift n c) ≡ mapped (shift_rest n) (header prefix max c)
unfolding header
header-shift prefix max n c = header_in-shift prefix max n c c.unread

payload-shift :
    (n : ℕ) (r : ℕ × Cursor) → payload (shift_rest n r) ≡ mapped (shift_rest n) (payload r)
unfolding payload
payload-shift n (len, d) = ground (arith, advance-shift n (len + 2) d)

bulk-shift : (n : ℕ) (c : Cursor) → bulk (shift n c) ≡ mapped (shift_rest n) (bulk c)
unfolding bulk
bulk-shift n c =
    mapped-bind (shift_rest n) (shift_rest n) (header b'$' _ c) _ payload (header-shift b'$' _ n c)
      (payload-shift n)

bulks-shift :
    (n count : ℕ) (c : Cursor) → bulks count (shift n c) ≡ mapped (shift_rest n) (bulks count c)
unfolding bulks
bulks-shift n zero c = refl
bulks-shift n (suc count) c =
    mapped-bind (shift_rest n) (shift_rest n) (bulk c) _ _ (bulk-shift n c) λ (arg, d).
      mapped-bind (shift_rest n) (shift_rest n) (bulks count d) _ _ (bulks-shift n count d)
        λ r. refl

-- Parsing from an offset is parsing what stands behind it, with the end counted from the offset.
pub parse-shift :
    (buf : Bytes) (pos : ℕ) → parse buf pos ≡ mapped (shift_end pos) (parse (drop pos buf) 0)
unfolding parse
parse-shift buf pos =
    let start : Cursor = record { p = 0; unread = drop pos buf } in
    ap
      (λ (q : ℕ). header b'*' max_args (record { p = q; unread = drop pos buf }) >>= λ (count, c).
        bulks count c >>= λ (args, d). complete (d.p, args))
      (omega arith)
    ∙ mapped-bind (shift_rest pos) (shift_end pos) (header b'*' max_args start) _ _
        (header-shift b'*' max_args pos start)
        λ (count, c).
          mapped-bind (shift_rest pos) (shift_end pos) (bulks count c) _ _ (bulks-shift pos count c)
            λ r. refl
