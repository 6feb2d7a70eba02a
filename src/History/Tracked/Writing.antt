-- ===== src/History/Tracked/Writing.antt =====
-- A run leaves every snapshot that its state file names.
use uback.Base.{
  ◌≡◌, sym, ap, ◌∙◌, subst, ◌⊎◌, inl, inr, true, false, Option, List, [], ◌∷◌, Bytes, Dict, insert,
  values, member, equal, equal_iff, is_empty, if◌then◌else◌, Bool-cases, Result, Result-cases, ok,
  arith,
}
use uback.Base.Commands.{◌>>=◌, ◌>>◌, pure, ask, bind-after, then-after}
use uback.Snapshot.{Snapshot, Backup}
use uback.Interfaces.{Stream, Source, Destination, KeepsOthers}
use uback.Prune.{StateFile, absent, unreadable, holds}
use uback.Prune.Keeps.{prune_snapshots-keeps}
use uback.Backup.Run.{
  World, Settings, read_old_state, write_state, record_state, update_state, create, send,
  prune_both, run_backup,
}
use uback.Backup.Run.Records.{
  Writes, Has, create-world, record_state-world, update_state-record_state,
}
use uback.History.Tracked.{state_of, Spoils, Refuses, AddsSnapshot, HasNamed}

values-insert :
    (id s k : Bytes) (d : Dict Bytes)
    → member k (values (insert id s d)) ≡ true
    → (k ≡ s) ⊎ (member k (values d) ≡ true)
unfolding values insert member
values-insert id s k [] h = inl ((equal_iff k s).0 (ground arith))
values-insert id s k ((j, t) ∷ d) h = elim (Bool-cases (equal j id)) [
  | inl e ↦
      let q = rw e at h in
      elim (Bool-cases (equal k s)) [
        | inl same ↦ inl ((equal_iff k s).0 same)
        | inr other ↦ inr (ground arith)
      ]
  | inr e ↦
      let q = rw e at h in
      elim (Bool-cases (equal k t)) [
        | inl same ↦ inr (ground arith)
        | inr other ↦ elim (values-insert id s k d (ground arith)) [
          | inl n ↦ inl n
          | inr m ↦ inr (ground arith)
        ]
      ]
]

read_old-state_of :
    (f : StateFile) (old : Dict Bytes) → read_old_state f ≡ ok old → state_of f ≡ old
unfolding read_old_state
read_old-state_of absent old h = ground arith
read_old-state_of (unreadable e) old h = ground arith
read_old-state_of (holds d) old h = ground arith

nothing_named : (k : Snapshot) → ¬ (member k (values (state_of absent)) ≡ true)
unfolding values member
nothing_named k h = cc

module _ (S : Source) (D : Destination) (K : KeepsOthers S) (o : Settings) (wr : Writes o)
    (sp : Spoils o) where
  write_state-HasNamed :
      (b : Backup) (old : Dict Bytes) (w : World S D)
      → state_of w.file ≡ old
      → Has K w.source b.snapshot
      → HasNamed S D K w
      → HasNamed S D K (write_state S D o (insert o.destination_id b.snapshot old) w).0
  unfolding write_state
  write_state-HasNamed b old w same new h k used =
      let d = insert o.destination_id b.snapshot old in
      elim (Result-cases (o.write_file d w.file).1) [
        | inl (done, e) ↦
            let q = wr.written d w.file e in
            elim (values-insert o.destination_id b.snapshot k old
              (subst (λ f. member k (values (state_of f)) ≡ true) q used)) [
                | inl n ↦ subst (Has K w.source) (sym n) new
                | inr u ↦ h k (subst (λ m. member k (values m) ≡ true) (sym same) u)
              ]
        | inr (x, e) ↦ elim (sp.spoiled d w.file x e) [
          | inl q ↦ h k (subst (λ f. member k (values (state_of f)) ≡ true) q used)
          | inr q ↦
              let u = subst (λ d. member k (values d) ≡ true) q used in absurd (nothing_named k u)
        ]
      ]

  record_state-HasNamed :
      (b : Backup) (w : World S D)
      → Has K w.source b.snapshot
      → HasNamed S D K w
      → HasNamed S D K (record_state S D o b w).0
  unfolding record_state ask pure
  record_state-HasNamed b w new h =
      bind-after (HasNamed S D K) _ _ w (λ u e q. subst (HasNamed S D K) (ap (λ r. r.0) q) h)
        (λ u old q.
          let here_ : w ≡ u = ap (λ r. r.0) q in
          let read : read_old_state w.file ≡ ok old = ap (λ r. r.1) q in
          let after =
            write_state-HasNamed b old u
              (ap (λ w. state_of w.file) (sym here_) ∙ read_old-state_of w.file old read)
              (subst (λ w. Has K w.source b.snapshot) here_ new) (subst (HasNamed S D K) here_ h) in
          let d = insert o.destination_id b.snapshot old in
          then-after (HasNamed S D K) (write_state S D o d) (pure d) u
            (λ v e r. subst (HasNamed S D K) (ap (λ r. r.0) r) after)
            (λ v a r. subst (HasNamed S D K) (ap (λ r. r.0) r) after))

  prune_both-HasNamed :
      (state : Dict Bytes) (bs : List Backup) (w : World S D)
      → w.file ≡ holds state
      → HasNamed S D K w
      → HasNamed S D K ((if o.no_prune then pure tt else prune_both S D o state bs) w).0
  unfolding prune_both pure
  prune_both-HasNamed state bs w held h = elim (Bool-cases o.no_prune) [
    | inl e ↦ rw e h
    | inr e ↦ rw e (λ k used.
        prune_snapshots-keeps S K o.source_policies state w.source k
          (subst (λ f. member k (values (state_of f)) ≡ true) held used) (h k used))
  ]

  -- What a run does behind the sending.
  finish-HasNamed :
      is_empty o.options.state_file ≡ false
      → (b : Backup) (bs : List Backup) (w : World S D) → Has K w.source b.snapshot
      → HasNamed S D K w
      → HasNamed S D K
          ((update_state S D o b >>= λ state.
              (if o.no_prune then pure tt else prune_both S D o state bs) >> pure b)
            w).0
  unfolding pure
  finish-HasNamed file b bs w new h =
      let same = update_state-record_state S D o b w file in
      let after = record_state-HasNamed b w new h in
      bind-after (HasNamed S D K) (update_state S D o b) _ w
        (λ u e q. subst (HasNamed S D K) (ap (λ r. r.0) (sym same ∙ q)) after)
        (λ u state q.
          let (r, source, held) = record_state-world S D o wr b w (sym same ∙ q) in
          let pruned =
            prune_both-HasNamed state bs u held
              (subst (HasNamed S D K) (ap (λ r. r.0) (sym same ∙ q)) after) in
          then-after (HasNamed S D K) (if o.no_prune then pure tt else prune_both S D o state bs)
            (pure b) u (λ v e r. subst (HasNamed S D K) (ap (λ r. r.0) r) pruned)
            (λ v a r. subst (HasNamed S D K) (ap (λ r. r.0) r) pruned))

  send-source :
      (b : Backup) (stream : Stream) (w : World S D) {v : World S D} {r : Result (Unit {0})}
      → send S D b stream w ≡ (v, r)
      → (w.source ≡ v.source) × (w.file ≡ v.file)
  unfolding send
  send-source b stream w h = (ap (λ r. r.0.source) h, ap (λ r. r.0.file) h)

  -- The same source and file name the same.
  along-HasNamed :
      (w v : World S D)
      → (w.source ≡ v.source) × (w.file ≡ v.file)
      → HasNamed S D K w
      → HasNamed S D K v
  along-HasNamed w v (source, file) h k used =
      subst (λ s. Has K s k) source
        (h k (subst (λ f. member k (values (state_of f)) ≡ true) (sym file) used))

  created-HasNamed :
      AddsSnapshot S K
      → Refuses D o
      → is_empty o.options.state_file ≡ false
      → (base : Option Snapshot) (bs : List Backup) (w : World S D) → HasNamed S D K w
      → HasNamed S D K
          ((create S D base >>= λ made.
              send S D made.0 (o.pack made.1)
              >> (update_state S D o made.0 >>= λ state.
                  (if o.no_prune then pure tt else prune_both S D o state (made.0 ∷ bs))
                  >> pure made.0))
            w).0
  unfolding create send
  created-HasNamed adds refuses file base bs w h =
      let kept = λ (k : Snapshot) (used : member k (values (state_of w.file)) ≡ true).
        adds.kept base w.source k (h k used) in
      bind-after (HasNamed S D K) (create S D base) _ w
        (λ u e q. subst (HasNamed S D K) (ap (λ r. r.0) q) kept)
        (λ u made q.
          let h' = subst (HasNamed S D K) (ap (λ r. r.0) q) kept in
          let made_ = (create-world S D o base w q).0 in
          then-after (HasNamed S D K) (send S D made.0 (o.pack made.1)) _ u
            (λ v e r. along-HasNamed u v (send-source made.0 (o.pack made.1) u r) h')
            (λ v done r.
              let same = send-source made.0 (o.pack made.1) u r in
              let whole = refuses made.0 made.1 u.destination (ap (λ r. r.1) r) in
              let new = adds.added base w.source u.source made.0 made.1 made_ whole in
              finish-HasNamed file made.0 (made.0 ∷ bs) v
                (subst (λ s. Has K s made.0.snapshot) same.0 new) (along-HasNamed u v same h')))

  pub run_backup-HasNamed :
      AddsSnapshot S K
      → Refuses D o
      → is_empty o.options.state_file ≡ false
      → (w : World S D) → HasNamed S D K w
      → HasNamed S D K (run_backup S D o w).0
  unfolding run_backup ask
  run_backup-HasNamed adds refuses file w h =
      bind-after (HasNamed S D K) _ _ w (λ u e q. subst (HasNamed S D K) (ap (λ r. r.0) q) h)
        (λ u chosen q.
          created-HasNamed adds refuses file chosen.1 chosen.0 u
            (subst (HasNamed S D K) (ap (λ r. r.0) q) h))
