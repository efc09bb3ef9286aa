-- ===== src/Snapshot/Save.antt =====
-- src/storage/snapshot_manager.cpp, `hibernate_room` up to its rename: a room's keys are written to a
-- temporary file through a buffer. What the system calls answer is given.
use somnium_db.Prelude.{
  ℕ, ◌-◌, ◌^◌, ◌≡◌, ◌∙◌, refl, sym, ap, arith, Bool, true, false, not, ◌||◌, ◌&&◌, Option, none,
  some, [], ◌∷◌, ◌++◌, append_assoc, append-nil, length, take, Bytes, ltb, leb, ◌==◌, if◌then◌else◌,
  inl, inr, Bool-cases,
}
use somnium_db.Prelude.Int.{to_u64}
use somnium_db.Prelude.Map.{Map}
use somnium_db.Word.{le_bytes}
use somnium_db.Record.{Record}
use somnium_db.Snapshot.{magic, version, encode_entry, encode_entries, encode}

-- Whether the temporary file can be opened, how many bytes it takes, and whether it is synced, closed
-- and renamed.
pub record SaveIo : Type 0 where
  pub opened : Bool
  pub space : ℕ
  pub synced : Bool
  pub closed : Bool
  pub renamed : Bool

-- The locals `ok` and `buf`, with the temporary file and how much more it takes.
pub record Saving : Type 0 where
  pub ok : Bool
  pub buf : Bytes
  pub out : Bytes
  pub space : ℕ

unfoldable pub flush_buf : Saving → Saving
flush_buf s =
    if not s.ok || length s.buf == 0
    then s
    else if ltb s.space (length s.buf)
    then record { ok = false; buf = []; out = s.out ++ take s.space s.buf; space = 0 }
    else record { ok = true; buf = []; out = s.out ++ s.buf; space = s.space - length s.buf }

unfoldable pub feed : Bytes → Saving → Saving
feed bytes s =
    let t : Saving = record s { buf = s.buf ++ bytes } in
    if leb (2 ^ 16) (length t.buf) then flush_buf t else t

-- What the loop feeds for one key.
unfoldable pub feed_entry : Bytes → Record → Saving → Saving
unfolding feed
feed_entry key r s = feed (le_bytes 4 r.node_id) (
    feed (le_bytes 8 r.timestamp_ms) (
      feed (le_bytes 8 (to_u64 r.expire_at)) (
        feed r.value
          (feed (le_bytes 8 (length r.value)) (feed key (feed (le_bytes 8 (length key)) s))))))

-- The loop, which a failed write ends.
unfoldable pub feed_entries : Map Bytes Record → Saving → Saving
feed_entries [] s = s
feed_entries ((key, r) ∷ keys) s =
    let t : Saving = feed_entry key r s in
    let rest = feed_entries keys t in if not t.ok then t else rest

unfoldable pub write_keys : ℕ → Map Bytes Record → Saving
write_keys space keys = flush_buf (
    feed_entries keys (
      feed (le_bytes 8 (length keys)) (
        feed (le_bytes 4 version)
          (feed magic (record { ok = true; buf = []; out = []; space = space })))))

-- The file that takes the place of the old one; `none` if a step before that failed.
unfoldable pub save : SaveIo → Map Bytes Record → Option Bytes
save io keys =
    let s : Saving = write_keys io.space keys in
    if not io.opened
    then none
    else if not (s.ok && io.synced)
    then none
    else if not io.closed
    then none
    else if not io.renamed
    then none
    else some s.out

-- All that was fed is in the file or in the buffer, unless a write failed.
record Wrote (text : Bytes) (s : Saving) : Type 0 where
  all : s.ok ≡ true → s.out ++ s.buf ≡ text

-- A flush that works leaves everything in the file, and nothing in the buffer.
flush_buf-out :
    (text : Bytes) (s : Saving)
    → Wrote text s
    → (flush_buf s).ok ≡ true
    → ((flush_buf s).out ≡ text) × ((flush_buf s).buf ≡ [])
unfolding flush_buf
flush_buf-out text s h ok = elim (Bool-cases (not s.ok || length s.buf == 0)) [
  | inl idle ↦
      let e : flush_buf s ≡ s = rw (flush_buf, idle) refl in
      let fine : s.ok ≡ true = sym (ap (λ (t : Saving). t.ok) e) ∙ ok in
      let none_left : s.buf ≡ [] = empty s.buf (ground (arith, idle, fine)) in
      (
        ap (λ (t : Saving). t.out) e
            ∙ sym (append-nil s.out)
            ∙ ap (λ b. s.out ++ b) (sym none_left)
            ∙ h.all fine,
        ap (λ (t : Saving). t.buf) e ∙ none_left,
      )
  | inr busy ↦ elim (Bool-cases (ltb s.space (length s.buf))) [
    | inl full ↦
        let e : (flush_buf s).ok ≡ false = rw (flush_buf, busy, full) refl in absurd (cc (e, ok))
    | inr fits ↦
        let fine : s.ok ≡ true = ground (arith, busy) in
        (rw (flush_buf, busy, fits) (h.all fine), rw (flush_buf, busy, fits) refl)
  ]
]
  where
    empty : (b : Bytes) → length b ≡ 0 → b ≡ []
    empty [] e = refl
    empty (x ∷ b) e = ground (arith, e)

feed-Wrote : (text bytes : Bytes) (s : Saving) → Wrote text s → Wrote (text ++ bytes) (feed bytes s)
unfolding feed
feed-Wrote text bytes s h = elim (Bool-cases (leb (2 ^ 16) (length t.buf))) [
  | inl full ↦
      let e : feed bytes s ≡ flush_buf t = rw (feed, full) refl in
      record {
        all = λ ok.
            let (out, buf) =
              flush_buf-out (text ++ bytes) t added (sym (ap (λ (u : Saving). u.ok) e) ∙ ok) in
            ap (λ (u : Saving). u.out ++ u.buf) e
            ∙ ap (λ b. (flush_buf t).out ++ b) buf
            ∙ append-nil _
            ∙ out;
      }
  | inr more ↦
      let e : feed bytes s ≡ t = rw (feed, more) refl in
      record {
        all = λ ok.
            ap (λ (u : Saving). u.out ++ u.buf) e
            ∙ added.all (sym (ap (λ (u : Saving). u.ok) e) ∙ ok);
      }
]
  where
    t : Saving
    t = record s { buf = s.buf ++ bytes }

    added : Wrote (text ++ bytes) t
    added = record {
      all = λ fine. sym (append_assoc s.out s.buf bytes) ∙ ap (λ b. b ++ bytes) (h.all fine);
    }

-- The same text, bracketed in another way.
Wrote-same : (a b : Bytes) (s : Saving) → a ≡ b → Wrote a s → Wrote b s
Wrote-same a b s e h = record { all = λ ok. h.all ok ∙ e }

feed_entry-Wrote :
    (text key : Bytes) (r : Record) (s : Saving)
    → Wrote text s
    → Wrote (text ++ encode_entry key r) (feed_entry key r s)
unfolding feed_entry encode_entry
feed_entry-Wrote text key r s h =
    Wrote-same _ (text ++ encode_entry key r) (feed_entry key r s) (simp append_assoc) (
      feed-Wrote _ (le_bytes 4 r.node_id) _ (
        feed-Wrote _ (le_bytes 8 r.timestamp_ms) _ (
          feed-Wrote _ (le_bytes 8 (to_u64 r.expire_at)) _ (
            feed-Wrote _ r.value _ (
              feed-Wrote _ (le_bytes 8 (length r.value)) _
                (feed-Wrote _ key _ (feed-Wrote text (le_bytes 8 (length key)) s h)))))))

-- The loop stops behind a failed write.
unless_failed :
    (text : Bytes) (t rest : Saving) → Wrote text rest → Wrote text (if not t.ok then t else rest)
unless_failed text t rest h = record { all = stop t.ok refl }
  where
    stop :
        (b : Bool)
        → t.ok ≡ b
        → (if not t.ok then t else rest).ok ≡ true
        → (if not t.ok then t else rest).out ++ (if not t.ok then t else rest).buf ≡ text
    stop true e ok =
        let same : (if◌then◌else◌ {A = Saving} (not t.ok) t rest) ≡ rest = rw (e) refl in
        ap (λ (u : Saving). u.out ++ u.buf) same ∙ h.all (sym (ap (λ (u : Saving). u.ok) same) ∙ ok)
    stop false e ok =
        let same : (if◌then◌else◌ {A = Saving} (not t.ok) t rest) ≡ t = rw (e) refl in
        absurd (ground (arith, e, sym (ap (λ (u : Saving). u.ok) same) ∙ ok))

feed_entries-Wrote :
    (text : Bytes) (keys : Map Bytes Record) (s : Saving)
    → Wrote text s
    → Wrote (text ++ encode_entries keys) (feed_entries keys s)
unfolding feed_entries encode_entries
feed_entries-Wrote text [] s h = Wrote-same text (text ++ []) s (sym (append-nil text)) h
feed_entries-Wrote text ((key, r) ∷ keys) s h =
    unless_failed _ (feed_entry key r s) (feed_entries keys (feed_entry key r s)) (
      Wrote-same _ _ (feed_entries keys (feed_entry key r s))
        (append_assoc text (encode_entry key r) (encode_entries keys))
        (feed_entries-Wrote (text ++ encode_entry key r) keys (feed_entry key r s)
          (feed_entry-Wrote text key r s h)))

-- What is written without a failure is the snapshot of the keys.
write_keys-encode :
    (space : ℕ) (keys : Map Bytes Record)
    → (write_keys space keys).ok ≡ true
    → (write_keys space keys).out ≡ encode keys
unfolding write_keys encode
write_keys-encode space keys ok =
    (flush_buf-out _ _
      (feed_entries-Wrote _ keys _ (
        feed-Wrote _ (le_bytes 8 (length keys)) _ (
          feed-Wrote _ (le_bytes 4 version) _ (
            feed-Wrote [] magic (record { ok = true; buf = []; out = []; space = space })
              (record { all = λ e. refl })))))
      ok).0
    ∙ simp append_assoc

pub save-encode :
    (io : SaveIo) (keys : Map Bytes Record) (file : Bytes)
    → save io keys ≡ some file
    → file ≡ encode keys
unfolding save
save-encode io keys file h = ground (arith, h, write_keys-encode io.space keys)
