-- ===== src/Backup/Run/Records.antt =====
-- What a run leaves in the state file and in the source.
use uback.Base.{
  Bool-cases, inl, inr, Bool-cases, inl, inr, ◌≡◌, sym, ap, ◌∙◌, subst, true, false, ◌||◌, Option,
  List, [], ◌∷◌, Bytes, Dict, insert, values, member, arith, is_empty, if◌then◌else◌, Result, ok,
}
use uback.Base.Commands.{pure, bind-eq-ok, then-eq-ok, ask-eq-ok}
use uback.Snapshot.{Snapshot, Backup}
use uback.Interfaces.{Stream, Destination, Source, KeepsOthers}
use uback.Prune.{StateFile, holds}
use uback.Prune.Keeps.{prune_snapshots-keeps}
use uback.Backup.Run.{
  World, record_state, Settings, read_old_state, write_state, update_state, create, send,
  prune_both, run_backup,
}

-- A write that reports no error leaves the state that was given.
pub record Writes (o : Settings) : Type 0 where
  pub written :
      (d : Dict Bytes) (f : StateFile)
      → (o.write_file d f).1 ≡ ok tt
      → (o.write_file d f).0 ≡ holds d

-- From `w` to `v` the state file is read, and written with the new snapshot under the destination's ID.
pub record Recorded {S : Source} {D : Destination} (id : Bytes) (w v : World S D) (b : Backup)
    : Type 0 where
  pub old : Dict Bytes
  pub read : read_old_state w.file ≡ ok old
  pub written : v.file ≡ holds (insert id b.snapshot old)

-- The source has the snapshot, as a bookmark or as an archive.
abbrev pub Has : {S : Source} → KeepsOthers S → S.State → Snapshot → Type 0
Has K s k = (member k (K.bookmarks s) || member k (K.archives s)) ≡ true

Recorded-along :
    {S : Source} {D : Destination} {id : Bytes} {w w' v' v : World S D} {b b' : Backup}
    → Recorded id w' v' b'
    → w.file ≡ w'.file
    → v'.file ≡ v.file
    → b' ≡ b
    → Recorded id w v b
Recorded-along {id = id} r before behind n = record {
  old = r.old;
  read = ap read_old_state before ∙ r.read;
  written = sym behind ∙ r.written ∙ ap (λ b. holds (insert id b.snapshot r.old)) n;
}

ok-injective : {A : Type 0} {a b : A} → Result.ok a ≡ ok b → a ≡ b
ok-injective h = ground arith

holds-injective : {d e : Dict Bytes} → holds d ≡ holds e → d ≡ e
holds-injective h = ground arith

module _ (S : Source) (D : Destination) (o : Settings) where
  pub create-world :
      (base : Option Snapshot) (w : World S D) {v : World S D} {made : Backup × Stream}
      → create S D base w ≡ (v, ok made)
      → (S.create_backup base w.source ≡ (v.source, ok made)) × (w.file ≡ v.file)
  unfolding create
  create-world base w h = (cc, ap (λ r. r.0.file) h)

  send-world :
      (b : Backup) (stream : Stream) (w : World S D) {v : World S D}
      → send S D b stream w ≡ (v, ok tt)
      → (w.source ≡ v.source) × (w.file ≡ v.file)
  unfolding send
  send-world b stream w h = (ap (λ r. r.0.source) h, ap (λ r. r.0.file) h)

  write_state-world :
      Writes o
      → (d : Dict Bytes) (w : World S D) {v : World S D} → write_state S D o d w ≡ (v, ok tt)
      → (w.source ≡ v.source) × (v.file ≡ holds d)
  unfolding write_state
  write_state-world k d w h =
      (ap (λ r. r.0.source) h, sym (ap (λ r. r.0.file) h) ∙ k.written d w.file (ap (λ r. r.1) h))

  pub record_state-world :
      Writes o
      → (b : Backup) (w : World S D) {v : World S D} {state : Dict Bytes}
      → record_state S D o b w ≡ (v, ok state)
      → Recorded o.destination_id w v b × (w.source ≡ v.source) × (v.file ≡ holds state)
  unfolding record_state pure
  record_state-world k b w {v} {state} h =
      let (w₁, old, e₁, h₁) = bind-eq-ok _ _ w h in
      let (same, read) = ask-eq-ok _ w e₁ in
      let (w₂, u, e₂, h₂) = then-eq-ok _ _ w₁ h₁ in
      let (source, written) = write_state-world k _ w₁ e₂ in
      let q : w₂ ≡ v = ap (λ r. r.0) h₂ in
      let n : ok (insert o.destination_id b.snapshot old) ≡ ok state = ap (λ r. r.1) h₂ in
      let n' : insert o.destination_id b.snapshot old ≡ state = ground arith in
      let f = sym (ap (λ w. w.file) q) ∙ written in
      (
        record { old = old; read = read; written = f },
        ap (λ w. w.source) same ∙ source ∙ ap (λ w. w.source) q,
        f ∙ ap holds n',
      )

  pub update_state-record_state :
      (b : Backup) (w : World S D)
      → is_empty o.options.state_file ≡ false
      → update_state S D o b w ≡ record_state S D o b w
  unfolding update_state
  update_state-record_state b w file =
      ap (λ t. (if t then pure [] else record_state S D o b) w) file

  finish-world :
      (state : Dict Bytes) (backups : List Backup) (w : World S D) {v : World S D}
      → (if o.no_prune then pure tt else prune_both S D o state backups) w ≡ (v, ok tt)
      → (w.file ≡ v.file)
        × ((K : KeepsOthers S) (k : Snapshot)
            → member k (values state) ≡ true
            → Has K w.source k
            → Has K v.source k)
  unfolding pure prune_both
  finish-world state backups w h = elim (Bool-cases o.no_prune) [
    | inl e ↦
        let q = sym (ap (λ t. (if t then pure tt else prune_both S D o state backups) w) e) ∙ h in
        (ap (λ r. r.0.file) q, λ K k used has. subst (λ s. Has K s k) (ap (λ r. r.0.source) q) has)
    | inr e ↦
        let q = sym (ap (λ t. (if t then pure tt else prune_both S D o state backups) w) e) ∙ h in
        (
          ap (λ r. r.0.file) q,
          λ K k used has.
              subst (λ s. Has K s k) (ap (λ r. r.0.source) q)
                (prune_snapshots-keeps S K o.source_policies state w.source k used has),
        )
  ]

  -- The steps of a run that succeeds.
  record Steps (w v : World S D) (b : Backup) : Type 0 where
    base : Option Snapshot
    stream : Stream
    after : World S D
    state : Dict Bytes
    created : S.create_backup base w.source ≡ (after.source, ok (b, stream))
    recorded : Recorded o.destination_id w v b
    holding : v.file ≡ holds state
    keeps :
        (K : KeepsOthers S) (k : Snapshot)
        → member k (values state) ≡ true
        → Has K after.source k
        → Has K v.source k

  run_backup-Steps :
      Writes o
      → is_empty o.options.state_file ≡ false
      → (w : World S D) {v : World S D} {b : Backup} → run_backup S D o w ≡ (v, ok b)
      → Steps w v b
  unfolding run_backup pure
  run_backup-Steps k file w {v} {b} h =
      let (w₁, chosen, e₁, h₁) = bind-eq-ok _ _ w h in
      let (w₂, made, e₂, h₂) = bind-eq-ok _ _ w₁ h₁ in
      let (w₃, sent, e₃, h₃) = then-eq-ok _ _ w₂ h₂ in
      let (w₄, state, e₄, h₄) = bind-eq-ok _ _ w₃ h₃ in
      let (w₅, done, e₅, h₅) = then-eq-ok _ _ w₄ h₄ in
      let here_ = (ask-eq-ok _ w e₁).0 in
      let (from, file₂) = create-world chosen.1 w₁ e₂ in
      let (source₃, file₃) = send-world made.0 (o.pack made.1) w₂ e₃ in
      let (r, source₄, file₄) =
        record_state-world k made.0 w₃ (sym (update_state-record_state made.0 w₃ file) ∙ e₄) in
      let (file₅, keeps) = finish-world state (made.0 ∷ chosen.0) w₄ e₅ in
      let q : w₅ ≡ v = ap (λ r. r.0) h₅ in
      let n : Result.ok made.0 ≡ ok b = ap (λ r. r.1) h₅ in
      let n' : made.0 ≡ b = ok-injective n in
      let before : w.file ≡ w₃.file = ap (λ w. w.file) here_ ∙ file₂ ∙ file₃ in
      let behind : w₄.file ≡ v.file = file₅ ∙ ap (λ w. w.file) q in
      record {
        base = chosen.1;
        stream = made.1;
        after = w₂;
        state = state;
        created =
            ap (λ w. S.create_backup chosen.1 w.source) here_
            ∙ from
            ∙ ap (λ b. (w₂.source, ok (b, made.1))) n';
        recorded = Recorded-along r before behind n';
        holding = sym behind ∙ file₄;
        keeps = λ K x used has.
            subst (λ s. Has K s x) (ap (λ w. w.source) q)
              (keeps K x used (subst (λ s. Has K s x) (source₃ ∙ source₄) has));
      }

  -- A run that succeeds with a state file puts the new snapshot under the destination's ID, and leaves
  -- what the file held before under every other ID.
  pub run_backup-Recorded :
      Writes o
      → is_empty o.options.state_file ≡ false
      → (w : World S D) (v : World S D) (b : Backup) → run_backup S D o w ≡ (v, ok b)
      → Recorded o.destination_id w v b
  run_backup-Recorded k file w v b h = (run_backup-Steps k file w h).recorded

  -- After a run that succeeds with a state file, pruning included, the source still has every snapshot that
  -- the file names, if it had it when the backup was created.
  pub run_backup-Has :
      (K : KeepsOthers S)
      → Writes o
      → is_empty o.options.state_file ≡ false
      → (w : World S D) (v : World S D) (b : Backup) (state : Dict Bytes) (k : Snapshot)
      → run_backup S D o w ≡ (v, ok b)
      → v.file ≡ holds state
      → member k (values state) ≡ true
      → ((base : Option Snapshot) → Has K (S.create_backup base w.source).0 k)
      → Has K v.source k
  run_backup-Has K wr file w v b state k h named used has =
      let steps = run_backup-Steps wr file w h in
      let same : holds steps.state ≡ holds state = sym steps.holding ∙ named in
      let same' : state ≡ steps.state = holds-injective (sym same) in
      steps.keeps K k (subst (λ d. member k (values d) ≡ true) same' used)
        (subst (λ r. Has K r.0 k) steps.created (has steps.base))
