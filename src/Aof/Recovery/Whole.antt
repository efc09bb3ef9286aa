-- ===== src/Aof/Recovery/Whole.antt =====
-- src/storage/aof_manager.cpp, `recover`: a file of whole records, with or without a broken tail.
use somnium_db.Prelude.{
  ℕ, ◌+◌, ◌≤◌, ◌≡◌, ◌∙◌, sym, subst, refl, ap, false, some, List, [], ◌∷◌, ◌++◌, append_assoc,
  append-nil, length, length-append, drop, drop-append, Bytes, bytes_eq, codes, ◌==◌, if◌then◌else◌,
  arith,
}
use somnium_db.FsUtil.{parse_u64, scan_u64, digits, to_string}
use somnium_db.Resp.{complete, need_more, parse, max_args}
use somnium_db.Resp.Encode.{bulk_string, bulk_strings, encode}
use somnium_db.Resp.RoundTrip.{FitBulks, parse-encode, parse_waits}
use somnium_db.Aof.{AofRecord, v3, aof_header, magic_token, tokens_of, encode_record}
use somnium_db.Aof.Records.{IsRecord, build_record-tokens_of, length-tokens_of}
use somnium_db.Aof.Append.{encode_all, Within, kept, left_out, none_left, Part, no_part, part_of}
use somnium_db.Aof.Recovery.{
  Log, no_log, consume, replay_as, is_header, header_version, Ending, at_end, cut, recover_file,
}
use somnium_db.Aof.Recovery.Chunks.{
  Recovers, all_read, incomplete, refused, unusable, record_read, recover_file-Recovers,
}

-- A record whose fields fit their machine types and whose tokens are within the parser's limits.
pub record Fits (rec : AofRecord) : Type 0 where
  pub fields : IsRecord rec
  pub count : length rec.args + 5 ≤ max_args
  pub bulks : FitBulks (tokens_of rec)

abbrev pub AllFit : List AofRecord → Type 0
AllFit [] = Unit
AllFit (rec ∷ recs) = Fits rec × AllFit recs

encode_record-encode : (rec : AofRecord) → encode_record rec ≡ encode (tokens_of rec)
unfolding encode_record encode
encode_record-encode rec = rw (length-tokens_of rec) refl

parse-encode_record :
    (rec : AofRecord) (rest : Bytes)
    → Fits rec
    → parse (encode_record rec ++ rest) 0 ≡ complete (length (encode_record rec), tokens_of rec)
parse-encode_record rec rest h = rw (encode_record-encode rec) (
    parse-encode [] rest (tokens_of rec)
      (subst (λ n. n ≤ max_args) (sym (length-tokens_of rec)) h.count) h.bulks
    ∙ ap (λ (q : ℕ). complete (q, tokens_of rec)) (omega arith))

pub AllFit-Within : {xs ys : List AofRecord} → Within xs ys → AllFit ys → AllFit xs
AllFit-Within none_left h = tt
AllFit-Within (kept w) (h, hs) = (h, AllFit-Within w hs)
AllFit-Within (left_out w) (h, hs) = AllFit-Within w hs

parse-Part :
    {recs : List AofRecord} {part : Bytes} → Part recs part → AllFit recs → parse part 0 ≡ need_more
parse-Part no_part h = unfold parse in refl
parse-Part {part = part} (part_of rec missing c w e) h =
    let fits : Fits rec = (AllFit-Within w h).0 in
    parse_waits (tokens_of rec) part missing c
      (subst (λ n. n ≤ max_args) (sym (length-tokens_of rec)) fits.count) fits.bulks
      (sym (encode_record-encode rec) ∙ e)

consume-tokens_of :
    (rec : AofRecord) (log : Log)
    → IsRecord rec
    → log.fmt ≡ some v3
    → consume (tokens_of rec) log ≡ some (record log { replayed = log.replayed ++ rec ∷ [] })
unfolding consume replay_as
consume-tokens_of rec log h f = rw (consume, f, replay_as, build_record-tokens_of rec h) refl

complete_inj : {a b : ℕ × List Bytes} → complete a ≡ complete b → a ≡ b
complete_inj e = cc

some_inj : {a b : Log} → some a ≡ some b → a ≡ b
some_inj e = cc

nothing_read : {a : ℕ × List Bytes} → ¬ (parse [] 0 ≡ complete a)
unfolding parse
nothing_read e = cc

-- What the derivation holds where the parse is known.
Recovers-next :
    {offset rec_end : ℕ} {rest : Bytes} {tokens : List Bytes} {log next : Log} {out : Log × Ending}
    → parse rest 0 ≡ complete (rec_end, tokens)
    → consume tokens log ≡ some next
    → Recovers offset rest log out
    → Recovers (offset + rec_end) (drop rec_end rest) next out
Recovers-next p c all_read = absurd (nothing_read p)
Recovers-next p c (incomplete n q) = absurd (cc (p, q))
Recovers-next p c (refused q) = absurd (cc (p, q))
Recovers-next {log = log} p c (unusable q d) =
    absurd (cc (ap (λ (o : ℕ × List Bytes). consume o.1 log) (complete_inj (sym q ∙ p)), c, d))
Recovers-next {offset = offset} {rest = rest} {log = log} {next = next} {out = out} p c
      (record_read {rec_end = n} q d r) =
    subst
      (λ (a : ℕ × List Bytes).
        (n : Log) → consume a.1 log ≡ some n → Recovers (offset + a.0) (drop a.0 rest) n out)
      (complete_inj (sym q ∙ p))
      (λ next' k. subst (λ m. Recovers (offset + n) (drop n rest) m out) (some_inj (sym d ∙ k)) r)
      next c

Recovers-last :
    {offset : ℕ} {rest : Bytes} {log : Log} {out : Log × Ending}
    → parse rest 0 ≡ need_more
    → Recovers offset rest log out
    → out ≡ (log, if length rest == 0 then at_end else cut offset)
Recovers-last p all_read = refl
Recovers-last p (incomplete n q) = ground arith
Recovers-last p (refused q) = absurd (cc (p, q))
Recovers-last p (unusable q d) = absurd (cc (p, q))
Recovers-last p (record_read q d r) = absurd (cc (p, q))

-- Where the loop ends on the part of a record behind whole ones.
abbrev pub ending : ℕ → Bytes → Ending
ending offset part = if length part == 0 then at_end else cut offset

outcome-eq :
    (log : Log) (part : Bytes) {xs ys : List AofRecord} {n m : ℕ}
    → xs ≡ ys
    → n ≡ m
    → ◌≡◌ {A = Log × Ending}
        (record log { replayed = xs }, ending n part)
        (record log { replayed = ys }, ending m part)
outcome-eq log part e q = rw (e, q) refl

Recovers-records :
    (recs broken : List AofRecord) (part : Bytes) (offset : ℕ) (log : Log) (out : Log × Ending)
    → AllFit recs
    → AllFit broken
    → Part broken part
    → log.fmt ≡ some v3
    → Recovers offset (encode_all recs ++ part) log out
    → out ≡ (
      record log { replayed = log.replayed ++ recs },
      ending (offset + length (encode_all recs)) part,
    )
Recovers-records [] broken part offset log out h b p f d =
    Recovers-last (parse-Part p b) d
    ∙ outcome-eq log part (sym (append-nil log.replayed)) (omega arith)
Recovers-records (rec ∷ recs) broken part offset log out (h, hs) b p f d =
    let size : ℕ = length (encode_record rec) in
    let shape : (encode_record rec ++ encode_all recs) ++ part
        ≡ encode_record rec ++ (encode_all recs ++ part) =
      append_assoc (encode_record rec) (encode_all recs) part in
    let rest : Recovers (offset + size) (encode_all recs ++ part)
        (record log { replayed = log.replayed ++ rec ∷ [] }) out =
      subst
        (λ r. Recovers (offset + size) r (record log { replayed = log.replayed ++ rec ∷ [] }) out)
        (drop-append (encode_record rec) (encode_all recs ++ part))
        (Recovers-next (parse-encode_record rec (encode_all recs ++ part) h)
          (consume-tokens_of rec log h.fields f)
          (subst (λ r. Recovers offset r log out) shape d)) in
    Recovers-records recs broken part (offset + size) _ out hs b p f rest
    ∙ outcome-eq log part (append_assoc log.replayed (rec ∷ []) recs)
        (omega (arith, length-append (encode_record rec) (encode_all recs)))

abbrev header_tokens : List Bytes
header_tokens = magic_token ∷ codes "3" ∷ []

abbrev started : Log
started = record no_log { fmt = some v3 }

consume-header_tokens : consume header_tokens no_log ≡ some started
unfolding consume is_header header_version parse_u64 scan_u64 bytes_eq
consume-header_tokens = refl

aof_header-encode : aof_header ≡ encode header_tokens
unfolding encode bulk_strings to_string digits
aof_header-encode = unfold bulk_string in refl

parse_header : (rest : Bytes) → parse (aof_header ++ rest) 0 ≡ complete (29, header_tokens)
parse_header rest =
    subst (λ t. parse (t ++ rest) 0 ≡ complete (length t, header_tokens)) (sym aof_header-encode)
      (parse-encode [] rest header_tokens (omega arith) (omega arith, (omega arith, tt))
        ∙ ap (λ (q : ℕ). complete (q, header_tokens)) (omega arith))

-- A file of the header and of records within the limits, with a part of one more record at its end
-- or nothing: recovery replays exactly those records in order, asks for no rewrite, and cuts off the
-- part, at the end of the last whole record.
pub recover_file-records :
    (recs broken : List AofRecord) (part : Bytes)
    → AllFit recs
    → AllFit broken
    → Part broken part
    → recover_file (aof_header ++ (encode_all recs ++ part)) ≡ (
      record { fmt = some v3; needs_rewrite = false; replayed = recs },
      ending (length (aof_header ++ encode_all recs)) part,
    )
recover_file-records recs broken part h b p =
    Recovers-records recs broken part 29 started
      (recover_file (aof_header ++ (encode_all recs ++ part))) h b p refl
      (Recovers-next (parse_header (encode_all recs ++ part)) consume-header_tokens
        (recover_file-Recovers (aof_header ++ (encode_all recs ++ part))))
    ∙ outcome-eq started part refl (omega (arith, length-append aof_header (encode_all recs)))
