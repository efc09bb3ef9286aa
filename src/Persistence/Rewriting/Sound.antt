-- ===== src/Persistence/Rewriting/Sound.antt =====
-- src/core/persistence.cpp: a rewrite that works leaves the records of the state, and those appended
-- meanwhile, in the file.
use somnium_db.Prelude.{
  ℕ, ◌≤◌, ◌<◌, ◌≡◌, ◌∙◌, inl, inr, Bool-cases, refl, sym, ap, subst, Bool, true, false, ◌&&◌, List,
  [], ◌∷◌, ◌++◌, append_assoc, append-nil, length, Bytes, bytes_Eq, arith, leb,
}
use somnium_db.Prelude.Int.{w64}
use somnium_db.Aof.{AofRecord, Aof, AppendIo, aof_header, encode_record}
use somnium_db.Aof.Append.{encode_all, encode_all-append, run, acked, records, Within, no_part}
use somnium_db.Aof.Rewrite.{
  OpenIo, start_rewrite, append_rewrite, append_tail, CommitIo, commit_rewrite,
}
use somnium_db.Aof.Rewrite.Draft.{commit_rewrite-file, commit_rewrite-tail, append_tail-run}
use somnium_db.Aof.Recovery.{Log, Ending, at_end, recover_file}
use somnium_db.Aof.Recovery.Whole.{AllFit, recover_file-records}
use somnium_db.State.{World, Db}
use somnium_db.Persistence.Dump.{dump_state}
use somnium_db.Disk.{IsDisk}
use somnium_db.Persistence.Dump.Standing.{standing}
use somnium_db.Persistence.Dump.Whole.{dump_state-standing}
use somnium_db.Prelude.Map.{IsMap}
use somnium_db.Persistence.Rewriting.Discards.{standing-discard}
use somnium_db.Persistence.Rewriting.{
  RewriteIo, discard_active_snapshots, write_through, after_dump, rewrite_started, rewrite_aof,
  Child, flush, child_write, child_buffer, after_child, run_child, ForkIo, forked,
  finish_background_rewrite,
}

encode_all_one :
    (recs : List AofRecord) (rec : AofRecord)
    → encode_all (recs ++ rec ∷ []) ≡ encode_all recs ++ encode_record rec
encode_all_one recs rec =
    encode_all-append recs (rec ∷ [])
    ∙ ap (λ t. encode_all recs ++ t) (append-nil (encode_record rec))

one_more :
    (head draft : Bytes) (recs : List AofRecord) (rec : AofRecord)
    → draft ≡ head ++ encode_all recs
    → draft ++ encode_record rec ≡ head ++ encode_all (recs ++ rec ∷ [])
one_more head draft recs rec e =
    ap (λ t. t ++ encode_record rec) e
    ∙ append_assoc head (encode_all recs) (encode_record rec)
    ∙ ap (λ t. head ++ t) (sym (encode_all_one recs rec))

abbrev Drafted : List AofRecord → ℕ × Aof → Type 0
Drafted recs (space, a) = (a.rewrite_open ≡ true) × (a.draft ≡ aof_header ++ encode_all recs)

append_rewrite_done :
    (space : ℕ) (rec : AofRecord) (a : Aof)
    → (append_rewrite space rec a).0 ≡ true
    → ((append_rewrite space rec a).1.rewrite_open ≡ a.rewrite_open)
      × ((append_rewrite space rec a).1.draft ≡ a.draft ++ encode_record rec)
unfolding append_rewrite
append_rewrite_done space rec a h = ground arith

write_through-Drafted :
    (rec : AofRecord) (recs : List AofRecord) (x : ℕ × Aof)
    → Drafted recs x
    → (write_through rec x).0 ≡ true
    → Drafted (recs ++ rec ∷ []) (write_through rec x).1
unfolding write_through
write_through-Drafted rec recs (space, a) (o, d) ok =
    let (o', d') = append_rewrite_done space rec a ok in
    (o' ∙ o, d' ∙ one_more aof_header a.draft recs rec d)

started-Drafted :
    (io : OpenIo) (a : Aof) (space : ℕ)
    → a.rewrite_open ≡ false
    → (start_rewrite io a).0 ≡ true
    → Drafted [] (space, (start_rewrite io a).1)
unfolding start_rewrite
started-Drafted io a space c h = (ground arith, ground arith)

rewrite_started-file :
    (io : RewriteIo) (w : World) (d : Db)
    → IsDisk w.disk
    → Drafted [] (io.space, d.aof)
    → (rewrite_started io w d).0 ≡ true
    → (rewrite_started io w d).1.aof.file ≡ aof_header ++ encode_all (standing w d)
unfolding rewrite_started after_dump
rewrite_started-file io w d reads h ok = go (dump_state write_through w (d, (io.space, d.aof))) refl
  where
    go :
        (out : Bool × (Db × (ℕ × Aof)))
        → dump_state write_through w (d, (io.space, d.aof)) ≡ out
        → (rewrite_started io w d).1.aof.file ≡ aof_header ++ encode_all (standing w d)
    go (false, (d', (space, a))) e = absurd (cc (ok, ap (λ out. (after_dump io out).0) e))
    go (true, (d', (space, a))) e =
        let committed : (commit_rewrite io.commit a).0 ≡ true =
          sym (ap (λ out. (after_dump io out).0) e) ∙ ok in
        let held : Drafted (standing w d) (space, a) =
          subst (λ (out : Bool × (Db × (ℕ × Aof))). Drafted (standing w d) out.1.1) e
            (dump_state-standing write_through Drafted write_through-Drafted w d (io.space, d.aof)
              reads h (ap (λ (out : Bool × (Db × (ℕ × Aof))). out.0) e)) in
        ap (λ out. (after_dump io out).1.aof.file) e
        ∙ commit_rewrite-file io.commit a committed
        ∙ held.1

-- A synchronous rewrite that returns true: the file is the header and the records of the state.
rewrite_aof-file :
    (io : RewriteIo) (w : World) (db : Db)
    → IsDisk w.disk
    → db.aof.rewrite_open ≡ false
    → (rewrite_aof io w db).0 ≡ true
    → (rewrite_aof io w db).1.aof.file
      ≡ aof_header
        ++ encode_all (
            standing w
              (discard_active_snapshots (record db { aof = (start_rewrite io.start db.aof).1 })))
unfolding rewrite_aof discard_active_snapshots
rewrite_aof-file io w db reads c ok = elim (Bool-cases (start_rewrite io.start db.aof).0) [
  | inl started ↦
      let d : Db =
        discard_active_snapshots (record db { aof = (start_rewrite io.start db.aof).1 }) in
      let same : rewrite_aof io w db ≡ rewrite_started io w d = rw (rewrite_aof, started) refl in
      ap (λ (out : Bool × Db). out.1.aof.file) same
      ∙ rewrite_started-file io w d reads (started-Drafted io.start db.aof io.space c started)
          (sym (ap (λ (out : Bool × Db). out.0) same) ∙ ok)
  | inr failed ↦
      let given_up : (rewrite_aof io w db).0 ≡ false = rw (rewrite_aof, failed) refl in
      absurd (cc (ok, given_up))
]

-- A synchronous rewrite that returns true, where no rewrite was open, the disk returns what stands
-- in a file, no room is registered twice and every record of the state is within the parser's
-- limits: a restart from the new file replays exactly the records of the state, the keys in memory,
-- in snapshot files and in cold storage that have not expired and then the tombstones, and asks for
-- no further rewrite.
pub rewrite_aof-recovered :
    (io : RewriteIo) (w : World) (db : Db)
    → IsDisk w.disk
    → IsMap db.rooms
    → db.aof.rewrite_open ≡ false
    → (rewrite_aof io w db).0 ≡ true
    → AllFit (standing w db)
    → ((recover_file (rewrite_aof io w db).1.aof.file).0.replayed ≡ standing w db)
      × ((recover_file (rewrite_aof io w db).1.aof.file).0.needs_rewrite ≡ false)
      × ((recover_file (rewrite_aof io w db).1.aof.file).1 ≡ at_end)
unfolding standing
rewrite_aof-recovered io w db reads m c ok fit =
    let started : Db = record db { aof = (start_rewrite io.start db.aof).1 } in
    let whole =
      ap recover_file (
        rewrite_aof-file io w db reads c ok
        ∙ ap (λ recs. aof_header ++ encode_all recs) (standing-discard w started m)
        ∙ ap (λ t. aof_header ++ t) (sym (append-nil (encode_all (standing w db)))))
      ∙ recover_file-records (standing w db) [] [] fit tt no_part in
    (
      ap (λ (o : Log × Ending). o.0.replayed) whole,
      ap (λ (o : Log × Ending). o.0.needs_rewrite) whole,
      ap (λ (o : Log × Ending). o.1) whole,
    )

-- What the child has encoded so far: in the file, or in its buffer.
abbrev Encoded : List AofRecord → Child → Type 0
Encoded recs c = c.draft ++ c.buf ≡ aof_header ++ encode_all recs

flush_done :
    (c : Child)
    → (flush c).0 ≡ true
    → ((flush c).1.draft ≡ c.draft ++ c.buf) × ((flush c).1.buf ≡ [])
unfolding flush
flush_done c h = ground arith

child_write-Encoded :
    (rec : AofRecord) (recs : List AofRecord) (c : Child)
    → Encoded recs c
    → (child_write rec c).0 ≡ true
    → Encoded (recs ++ rec ∷ []) (child_write rec c).1
unfolding child_write
child_write-Encoded rec recs c h ok =
    elim (Bool-cases (leb child_buffer (length (c.buf ++ encode_record rec)))) [
      | inl full ↦
          let e : child_write rec c ≡ flush fuller = rw (child_write, full) refl in
          let (d, b) = flush_done fuller (sym (ap (λ (m : Bool × Child). m.0) e) ∙ ok) in
          ap (λ (m : Bool × Child). m.1.draft ++ m.1.buf) e
          ∙ ap (λ t. (flush fuller).1.draft ++ t) b
          ∙ append-nil _
          ∙ d
          ∙ joined
      | inr more ↦
          let e : child_write rec c ≡ (true, fuller) = rw (child_write, more) refl in
          ap (λ (m : Bool × Child). m.1.draft ++ m.1.buf) e ∙ joined
    ]
  where
    fuller : Child
    fuller = record c { buf = c.buf ++ encode_record rec }

    joined : c.draft ++ (c.buf ++ encode_record rec) ≡ aof_header ++ encode_all (recs ++ rec ∷ [])
    joined =
        sym (append_assoc c.draft c.buf (encode_record rec))
        ∙ one_more aof_header (c.draft ++ c.buf) recs rec h

-- A child that exits with 0 has written the header and the records of the state at the fork.
run_child-draft :
    (space : ℕ) (sync_ok : Bool) (w : World) (db : Db)
    → IsDisk w.disk
    → db.aof.draft ≡ aof_header
    → (run_child space sync_ok w db).0 ≡ true
    → (run_child space sync_ok w db).1.1.draft ≡ aof_header ++ encode_all (standing w db)
unfolding run_child after_child
run_child-draft space sync_ok w db reads h ok = go (dump_state child_write w (db, start)) refl
  where
    start : Child
    start = record { buf = []; draft = db.aof.draft; space = space }

    go :
        (out : Bool × (Db × Child))
        → dump_state child_write w (db, start) ≡ out
        → (run_child space sync_ok w db).1.1.draft ≡ aof_header ++ encode_all (standing w db)
    go (false, out) e = absurd (cc (ok, ap (λ out. (after_child sync_ok out).0) e))
    go (true, (d, c)) e =
        let exited : (flush c).0 && sync_ok ≡ true =
          sym (ap (λ out. (after_child sync_ok out).0) e) ∙ ok in
        let held : Encoded (standing w db) c =
          subst (λ (out : Bool × (Db × Child)). Encoded (standing w db) out.1.1) e
            (dump_state-standing child_write Encoded child_write-Encoded w db start reads
              (append-nil db.aof.draft ∙ h) (ap (λ (out : Bool × (Db × Child)). out.0) e)) in
        ap (λ out. (after_child sync_ok out).1.1.draft) e
        ∙ (flush_done c (ground (arith, exited))).0
        ∙ held

-- A rewrite in the background whose child exits with 0, from an AOF that is not torn and whose
-- noted size is its own, on a disk that returns what stands in a file, with a run of appends
-- between the fork and its end, whatever failed in these, that leaves a file short enough for a
-- size and for the disk: if the last commit goes through, the file is the header, the records of
-- the state at the fork (the keys in memory, in snapshot files and in cold storage that have not
-- expired, and the tombstones), and every record stored since, among them each one whose append
-- returned true.
pub finish_background_rewrite-file :
    (fork : ForkIo) (w : World) (db : Db) (ops : List (AppendIo × AofRecord)) (space : ℕ)
    (io : CommitIo)
    → IsDisk w.disk
    → db.aof.torn ≡ false
    → db.aof.size ≡ length db.aof.file
    → db.aof.rewrite_open ≡ true
    → db.aof.draft ≡ aof_header
    → (forked fork w db).1.0.child_ok ≡ true
    → length (run ops (forked fork w db).1.1.aof).file < w64
    → length (run ops (forked fork w db).1.1.aof).file ≤ space
    → (commit_rewrite io
        (append_tail true space db.aof.size (run ops (forked fork w db).1.1.aof)).1).0
      ≡ true
    → (stored : List AofRecord) × ((finish_background_rewrite true true true space io (
      (forked fork w db).1.0,
      record (forked fork w db).1.1 { aof = run ops (forked fork w db).1.1.aof },
    )).1.aof.file
        ≡ aof_header ++ encode_all (standing w db ++ stored))
      × Within (acked ops (forked fork w db).1.1.aof) stored
      × Within stored (records ops)
unfolding forked finish_background_rewrite
finish_background_rewrite-file fork w db ops space io reads torn sz o draft ok small fits
      committed =
    let a : Aof = (forked fork w db).1.1.aof in
    let written : a.draft ≡ aof_header ++ encode_all (standing w db) =
      run_child-draft fork.space fork.sync_ok w db reads draft ok in
    let (stored, contents, present, given) =
      commit_rewrite-tail (standing w db) ops a space io torn sz o written small fits committed in
    let copied : (append_tail true space db.aof.size (run ops a)).0 ≡ true =
      append_tail-run ops a space db.aof.size torn sz o small fits in
    (stored, rw (ok, copied, committed) contents, present, given)
