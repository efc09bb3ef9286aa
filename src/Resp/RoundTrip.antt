-- ===== src/Resp/RoundTrip.antt =====
-- src/core/resp.h: what the writers write is parsed back, a parse moves forward inside the buffer,
-- and a command that has not arrived whole is waited for.
use somnium_db.Prelude.{
  ℕ, suc, ◌+◌, ◌≤◌, ◌≡◌, ◌≢◌, ◌∙◌, subst, refl, ap, some, List, [], ◌∷◌, ◌++◌, append-nil,
  append_assoc, length, take, drop, take-append_more, take-append, take_all, drop-append,
  drop-append_at, length-append, Bytes, crlf, arith,
}
use somnium_db.FsUtil.{to_string, uint64_max}
use somnium_db.FsUtil.Decimal.{
  AllDigits, to_string-AllDigits, parse_u64-to_string, length-to_string-le,
}
use somnium_db.Resp.{
  Status, complete, need_more, malformed, until_crlf, advance, header_number, max_header, header_in,
  header, payload, bulk, bulks, parse, max_args, max_bulk,
}
use somnium_db.Resp.Encode.{bulk_string, bulk_strings, encode}
use somnium_db.Resp.Stable.{until_crlf-append, parse-append}
use somnium_db.Resp.Progress.{parse_bounds}

-- No byte of the text is a carriage return.
abbrev NoCr : Bytes → Type 0
NoCr [] = Unit
NoCr (c ∷ s) = (c ≢ 13) × NoCr s

AllDigits-NoCr : (s : Bytes) → AllDigits s → NoCr s
AllDigits-NoCr [] d = tt
AllDigits-NoCr (c ∷ s) (lo, hi, d) = (λ e. omega arith, AllDigits-NoCr s d)

until_crlf_at : (s : Bytes) → NoCr s → until_crlf (s ++ crlf) ≡ some s
unfolding until_crlf
until_crlf_at [] h = refl
until_crlf_at (a ∷ []) h = ground arith
until_crlf_at (a ∷ b ∷ s) h = ground (arith, until_crlf_at (b ∷ s) h.1)

window-crlf :
    (s rest : Bytes)
    → NoCr s
    → length s ≤ 30
    → until_crlf (take max_header (s ++ (crlf ++ rest))) ≡ some s
window-crlf s rest h n = rw (← append_assoc s crlf rest) (
    rw
      (
        take-append_more max_header (s ++ crlf) rest,
        take_all max_header (s ++ crlf) (omega (arith, length-append s crlf)),
      )
      (until_crlf-append (s ++ crlf) _ s (until_crlf_at s h)))

advance_over :
    (prefix p : ℕ) (text rest : Bytes)
    → advance
        (length (prefix ∷ text) + 2)
        (record { p = p; unread = prefix ∷ (text ++ (crlf ++ rest)) })
      ≡ record { p = p + (length text + 3); unread = rest }
unfolding advance
advance_over prefix p text rest =
    let e : drop (suc (length text) + 2) (prefix ∷ (text ++ (crlf ++ rest))) ≡ rest =
      rw (← append_assoc (prefix ∷ text) crlf rest) (
        drop-append_at (suc (length text) + 2) ((prefix ∷ text) ++ crlf) rest
          (omega (arith, length-append (prefix ∷ text) crlf))) in
    ground arith

-- A written header is read back.
header_written :
    (prefix max p n : ℕ) (rest : Bytes)
    → prefix ≢ 13
    → n ≤ max
    → n ≤ uint64_max
    → header prefix max (record { p = p; unread = prefix ∷ (to_string n ++ (crlf ++ rest)) })
      ≡ complete (n, record { p = p + (length (to_string n) + 3); unread = rest })
unfolding header header_in header_number
header_written prefix max p n rest cr fits small =
    let text : Bytes = to_string n in
    ground (
      arith,
      window-crlf (prefix ∷ text) rest (cr, AllDigits-NoCr text (to_string-AllDigits n))
          (omega (arith, length-to_string-le n small)),
      parse_u64-to_string n small,
      advance_over prefix p text rest,
    )

-- The fields of a command are within the parser's limits.
abbrev pub FitBulks : List Bytes → Type 0
FitBulks [] = Unit
FitBulks (v ∷ vs) = (length v ≤ max_bulk) × FitBulks vs

abbrev bulk_length : Bytes → ℕ
bulk_length v = length (to_string (length v)) + 3 + (length v + 2)

length-bulk_string : (v : Bytes) → length (bulk_string v) ≡ bulk_length v
unfolding bulk_string
length-bulk_string v =
    omega (arith, length-append (to_string (length v)) (crlf ++ (v ++ crlf)), length-append v crlf)

payload_written :
    (p : ℕ) (v rest : Bytes)
    → payload (length v, record { p = p; unread = v ++ (crlf ++ rest) })
      ≡ complete (v, record { p = p + (length v + 2); unread = rest })
unfolding payload
payload_written p v rest =
    let n : length (v ++ (crlf ++ rest)) ≡ length v + suc (suc (length rest)) =
      length-append v (crlf ++ rest) in
    let e : drop (length v + 2) (v ++ (crlf ++ rest)) ≡ rest =
      rw (← append_assoc v crlf rest)
        (drop-append_at (length v + 2) (v ++ crlf) rest (omega (arith, length-append v crlf))) in
    ground (arith, drop-append v (crlf ++ rest), take-append v (crlf ++ rest))

bulk_written :
    (p : ℕ) (v rest : Bytes)
    → length v ≤ max_bulk
    → bulk (record { p = p; unread = bulk_string v ++ rest })
      ≡ complete (v, record { p = p + length (bulk_string v); unread = rest })
unfolding bulk
bulk_written p v rest fits =
    let shape : bulk_string v ++ rest
        ≡ b'$' ∷ (to_string (length v) ++ (crlf ++ (v ++ (crlf ++ rest)))) =
      unfold bulk_string in simp append_assoc in
    rw
      (
        shape,
        header_written b'$' max_bulk p (length v) (v ++ (crlf ++ rest)) (omega arith) fits
            (omega arith),
        payload_written (p + (length (to_string (length v)) + 3)) v rest,
      )
      (ap (λ (q : ℕ). complete (v, record { p = q; unread = rest }))
        (omega (arith, length-bulk_string v)))

bulks_written :
    (p : ℕ) (vs : List Bytes) (rest : Bytes)
    → FitBulks vs
    → bulks (length vs) (record { p = p; unread = bulk_strings vs ++ rest })
      ≡ complete (vs, record { p = p + length (bulk_strings vs); unread = rest })
unfolding bulks bulk_strings
bulks_written p [] rest h =
    ap (λ (q : ℕ). complete ([], record { p = q; unread = rest })) (omega arith)
bulks_written p (v ∷ vs) rest (h, hs) =
    rw
      (
        append_assoc (bulk_string v) (bulk_strings vs) rest,
        bulk_written p v (bulk_strings vs ++ rest) h,
        bulks_written (p + length (bulk_string v)) vs rest hs,
      )
      (ap (λ (q : ℕ). complete (v ∷ vs, record { p = q; unread = rest }))
        (omega (arith, length-append (bulk_string v) (bulk_strings vs))))

length-encode :
    (args : List Bytes)
    → length (encode args) ≡ length (to_string (length args)) + 3 + length (bulk_strings args)
unfolding encode
length-encode args =
    omega (arith, length-append (to_string (length args)) (crlf ++ bulk_strings args))

-- A command within the limits that stands anywhere in the buffer, whatever follows it, is read back
-- whole from its offset, and the parse ends right behind it.
pub parse-encode :
    (before rest : Bytes) (args : List Bytes)
    → length args ≤ max_args
    → FitBulks args
    → parse (before ++ (encode args ++ rest)) (length before)
      ≡ complete (length before + length (encode args), args)
unfolding parse
parse-encode before rest args n fits =
    let shape : encode args ++ rest
        ≡ b'*' ∷ (to_string (length args) ++ (crlf ++ (bulk_strings args ++ rest))) =
      unfold encode in simp append_assoc in
    rw
      (
        drop-append before (encode args ++ rest),
        shape,
        header_written b'*' max_args (length before) (length args) (bulk_strings args ++ rest)
            (omega arith) n (omega arith),
        bulks_written (length before + (length (to_string (length args)) + 3)) args rest fits,
      )
      (ap (λ (q : ℕ). complete (q, args)) (omega (arith, length-encode args)))

parse-encode_alone :
    (args : List Bytes)
    → length args ≤ max_args
    → FitBulks args
    → parse (encode args) 0 ≡ complete (length (encode args), args)
parse-encode_alone args n fits =
    subst (λ s. parse s 0 ≡ complete (0 + length (encode args), args)) (append-nil (encode args))
      (parse-encode [] [] args n fits)
    ∙ ap (λ (q : ℕ). complete (q, args)) (omega arith)

-- Of a command within the limits, any part that lacks at least its last byte is waited for: it is
-- neither refused nor taken for a shorter command.
pub parse_waits :
    (args : List Bytes) (part missing : Bytes) (c : ℕ)
    → length args ≤ max_args
    → FitBulks args
    → encode args ≡ part ++ c ∷ missing
    → parse part 0 ≡ need_more
parse_waits args part missing c n fits e = verdict (parse part 0) refl
  where
    whole : parse (part ++ c ∷ missing) 0 ≡ complete (length (part ++ c ∷ missing), args)
    whole = subst (λ s. parse s 0 ≡ complete (length s, args)) e (parse-encode_alone args n fits)

    verdict : (st : Status (ℕ × List Bytes)) → parse part 0 ≡ st → parse part 0 ≡ need_more
    verdict need_more q = q
    verdict malformed q =
        absurd (cc (whole, q, parse-append part (c ∷ missing) 0 (omega arith) (λ r. cc)))
    verdict (complete (end, found)) q =
        let same : length (part ++ c ∷ missing) ≡ end =
          cc (whole, q, parse-append part (c ∷ missing) 0 (omega arith) (λ r. cc)) in
        absurd (
          omega (
            arith,
            same,
            length-append part (c ∷ missing),
            parse_bounds part 0 end found (omega arith) q,
          ))
