-- ===== src/Aof/Recovery/Chunks.antt =====
-- src/storage/aof_manager.cpp, `recover`: reading in chunks is parsing the whole file.
use somnium_db.Prelude.{
  ℕ, zero, suc, ◌+◌, ◌-◌, ◌≤◌, ◌<◌, ◌≡◌, ◌∙◌, sym, subst, inl, inr, refl, ap, true, none, some,
  List, [], ◌∷◌, ◌++◌, length, length-append, length-drop, drop-append_within, drop, Bytes, ltb,
  ltb→lt, drop_add, arith, if◌then◌else◌, Bool-cases, Option-cases,
}
use somnium_db.Resp.{Status, complete, need_more, malformed, parse}
use somnium_db.Resp.Progress.{parse_bounds}
use somnium_db.Aof.Recovery.{
  Reader, read_record, Log, consume, Ending, at_end, cut, corrupt, replay_all, no_log, recover_file,
}
use somnium_db.Aof.Recovery.Shift.{mapped, shift_end}
use somnium_db.Resp.Stable.{Status-cases}
use somnium_db.Aof.Recovery.Reads.{unread, Kept, Read, read_record-Read}

-- What recovery does with a whole file: `rest` is what stands behind the offset, `log` what has been
-- replayed before it.
pub data Recovers : ℕ → Bytes → Log → Log × Ending → Type 0 where
  all_read : {offset : ℕ} {log : Log} → Recovers offset [] log (log, at_end)
  incomplete :
      {offset : ℕ} {rest : Bytes} {log : Log}
      → 0 < length rest
      → parse rest 0 ≡ need_more
      → Recovers offset rest log (log, cut offset)
  refused :
      {offset : ℕ} {rest : Bytes} {log : Log}
      → parse rest 0 ≡ malformed
      → Recovers offset rest log (record log { needs_rewrite = true }, corrupt)
  unusable :
      {offset rec_end : ℕ} {rest : Bytes} {tokens : List Bytes} {log : Log}
      → parse rest 0 ≡ complete (rec_end, tokens)
      → consume tokens log ≡ none
      → Recovers offset rest log (record log { needs_rewrite = true }, corrupt)
  record_read :
      {offset rec_end : ℕ} {rest : Bytes} {tokens : List Bytes} {log next : Log}
      {out : Log × Ending}
      → parse rest 0 ≡ complete (rec_end, tokens)
      → consume tokens log ≡ some next
      → Recovers (offset + rec_end) (drop rec_end rest) next out
      → Recovers offset rest log out

-- `mapped` undone at a verdict.
mapped-complete :
    (n : ℕ) (m : Status (ℕ × List Bytes)) (a : ℕ × List Bytes)
    → complete a ≡ mapped (shift_end n) m
    → (b : ℕ × List Bytes) × (m ≡ complete b) × (a ≡ shift_end n b)
mapped-complete n (complete b) a e = (b, refl, cc)
mapped-complete n need_more a e = cc
mapped-complete n malformed a e = cc

mapped_need_more :
    (n : ℕ) (m : Status (ℕ × List Bytes)) → need_more ≡ mapped (shift_end n) m → m ≡ need_more
mapped_need_more n (complete b) e = cc
mapped_need_more n need_more e = refl
mapped_need_more n malformed e = cc

mapped-malformed :
    (n : ℕ) (m : Status (ℕ × List Bytes)) → malformed ≡ mapped (shift_end n) m → m ≡ malformed
mapped-malformed n (complete b) e = cc
mapped-malformed n need_more e = cc
mapped-malformed n malformed e = refl

length_zero {ℓ} : {A : Type ℓ} (xs : List A) → length xs ≡ 0 → xs ≡ []
length_zero [] e = refl
length_zero (x ∷ xs) e = absurd (omega (arith, e))

waits-Recovers :
    (r : Reader) (m : Status (ℕ × List Bytes) × Reader) (log : Log)
    → Read r m
    → m.0 ≡ need_more
    → Recovers
        (r.compacted + r.pos)
        (unread r)
        log
        (log, if ltb m.1.pos (length m.1.buf) then cut (m.1.compacted + m.1.pos) else at_end)
waits-Recovers r m log d w = elim d.waits [
  | inl ne ↦ absurd (ne w)
  | inr none_left ↦
      let size : length (unread r) ≡ length m.1.buf - m.1.pos =
        ap length (sym d.kept.bytes)
        ∙ length-append (drop m.1.pos m.1.buf) m.1.left
        ∙ ap (λ t. length (drop m.1.pos m.1.buf) + length t) none_left
        ∙ omega (arith, length-drop m.1.pos m.1.buf) in
      elim (Bool-cases (ltb m.1.pos (length m.1.buf))) [
        | inl more ↦
            rw (more, d.kept.offset)
              (incomplete (omega (arith, size, ltb→lt _ _ more))
                (mapped_need_more _ _ (sym w ∙ d.parsed)))
        | inr full ↦
            let empty : unread r ≡ [] = length_zero (unread r) (ground (arith, size)) in
            rw (full, empty) all_read
      ]
]

-- The reader behind a record that was read.
behind-Kept :
    (r : Reader) (m : Status (ℕ × List Bytes) × Reader) (e e₀ : ℕ) (tokens : List Bytes)
    → Read r m
    → m.0 ≡ complete (e, tokens)
    → e ≡ m.1.pos + e₀
    → (m.1.compacted + e ≡ r.compacted + r.pos + e₀)
      × (drop e m.1.buf ++ m.1.left ≡ drop e₀ (unread r))
      × (m.1.pos + 2 ≤ e)
      × (e ≤ length m.1.buf)
behind-Kept r m e e₀ tokens d w q =
    let bounds : (m.1.pos + 2 ≤ e) × (e ≤ length m.1.buf) =
      parse_bounds m.1.buf m.1.pos e tokens d.kept.inside (sym d.here ∙ w) in
    (
      omega (arith, d.kept.offset),
      rw (q, drop_add m.1.pos e₀ m.1.buf, ← d.kept.bytes)
          (sym (
            drop-append_within e₀ (drop m.1.pos m.1.buf) m.1.left
              (omega (arith, length-drop m.1.pos m.1.buf)))),
      bounds.0,
      bounds.1,
    )

less-unread :
    (r : Reader) (m : Status (ℕ × List Bytes) × Reader) (e : ℕ)
    → Kept r m.1
    → m.1.pos + 2 ≤ e
    → e ≤ length m.1.buf
    → length (drop e m.1.buf ++ m.1.left) < length (unread r)
less-unread r m e k lo hi =
    let s : Reader = m.1 in
    omega (
      arith,
      ap length k.bytes,
      length-append (drop s.pos s.buf) s.left,
      length-append (drop e s.buf) s.left,
      length-drop s.pos s.buf,
      length-drop e s.buf,
    )

replay_all-Recovers :
    (fuel : ℕ) (r : Reader) (log : Log)
    → r.pos ≤ length r.buf
    → length (unread r) < fuel
    → Recovers (r.compacted + r.pos) (unread r) log (replay_all fuel r log)
unfolding replay_all
replay_all-Recovers zero r log h n = absurd (omega arith)
replay_all-Recovers (suc fuel) r log h n =
    let m = read_record (suc (length r.left)) r in
    let d : Read r m = read_record-Read (suc (length r.left)) r h (omega arith) in
    elim (Status-cases m.0) [
      | inl ((e, tokens), w) ↦
          let ((e₀, _), parsed, q) =
            mapped-complete m.1.pos (parse (unread r) 0) (e, tokens) (sym w ∙ d.parsed) in
          let ends : e ≡ m.1.pos + e₀ = ap (λ (a : ℕ × List Bytes). a.0) q in
          let parsed_here : parse (unread r) 0 ≡ complete (e₀, tokens) =
            parsed
            ∙ ap (λ (t : List Bytes). complete (e₀, t))
                (ap (λ (a : ℕ × List Bytes). a.1) (sym q)) in
          let k = behind-Kept r m e e₀ tokens d w ends in
          elim (Option-cases (consume tokens log)) [
            | inl refused_here ↦
                rw (replay_all, w, refused_here) (unusable parsed_here refused_here)
            | inr (next, ok) ↦
                rw (replay_all, w, ok)
                  (record_read parsed_here ok (
                    subst
                      (λ o.
                        Recovers o (drop e₀ (unread r)) next
                          (replay_all fuel (record m.1 { pos = e }) next))
                      k.0
                      (subst
                        (λ u.
                          Recovers (m.1.compacted + e) u next
                            (replay_all fuel (record m.1 { pos = e }) next))
                        k.1
                        (replay_all-Recovers fuel (record m.1 { pos = e }) next k.3
                          (omega (arith, less-unread r m e d.kept k.2 k.3))))))
          ]
      | inr (inl w) ↦ rw (replay_all, w) (waits-Recovers r m log d w)
      | inr (inr w) ↦ rw (replay_all, w) (refused (mapped-malformed _ _ (sym w ∙ d.parsed)))
    ]

-- Recovery ends on every file, and reads it as if it had been parsed whole, record after record.
pub recover_file-Recovers : (file : Bytes) → Recovers 0 file no_log (recover_file file)
unfolding recover_file
recover_file-Recovers file =
    replay_all-Recovers (suc (length file))
      (record { buf = []; pos = 0; compacted = 0; left = file }) no_log (omega arith) (omega arith)
