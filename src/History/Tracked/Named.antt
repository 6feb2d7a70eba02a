-- ===== src/History/Tracked/Named.antt =====
-- The snapshots that the state file names stay in the source.
use uback.Base.{
  ◌≡◌, refl, sym, ap, ◌∙◌, ◌⊎◌, inl, inr, Bool, true, false, some, List, Bytes, Dict, values,
  member, if◌then◌else◌, Result, bind-eq-ok, ok, err, arith,
}
use uback.Snapshot.{Snapshot}
use uback.Interfaces.{Source, Destination, KeepsOthers}
use uback.Retention.{RetentionPolicy}
use uback.Prune.{
  StateFile, absent, unreadable, holds, read_state, remove_each, plan_snapshots,
  plan_prune_snapshots, cmd_prune_snapshots,
}
use uback.Sorting.{sorted_list_archives, sorted_list_bookmarks}
use uback.Retention.Snapshots.{get_pruned_snapshots}
use uback.Prune.Keeps.{removals-keep}
use uback.Backup.Run.{World}
use uback.Backup.Run.Records.{Has}
use uback.History.Tracked.{
  state_of, AddsSnapshot, HasNamed, TrackedStep, TrackedReaches, backs_up, prunes_backups,
  prunes_snapshots, stays, goes,
}
use uback.History.Tracked.Writing.{run_backup-HasNamed}

ok-injective : {A : Type 0} {a b : A} → Result.ok a ≡ ok b → a ≡ b
ok-injective h = ground arith

read_state-state_of :
    (f : StateFile) (dry_run : Bool) (state : Dict Bytes × Bool)
    → read_state (some f) dry_run ≡ ok state
    → (state.1 ≡ true) ⊎ (state_of f ≡ state.0)
unfolding read_state
read_state-state_of absent dry_run state h = inl (ap (λ r. r.1) (sym (ok-injective h)))
read_state-state_of (unreadable e) dry_run state h = ground arith
read_state-state_of (holds d) dry_run state h = inr (ap (λ r. r.0) (ok-injective h))

-- The plan of `uback prune snapshots`, by the state that the file says, or nothing is removed.
plan_prune_snapshots-plan_snapshots :
    (S : Source) (dry_run : Bool) (policies : List RetentionPolicy) (f : StateFile) (s : S.State)
    (pruned : List Snapshot × List Snapshot) (dry : Bool)
    → plan_prune_snapshots S dry_run policies (some f) s ≡ ok (pruned, dry)
    → (dry ≡ true) ⊎ (plan_snapshots S policies (state_of f) s ≡ ok pruned)
unfolding plan_prune_snapshots plan_snapshots
plan_prune_snapshots-plan_snapshots S dry_run policies f s pruned dry h =
    let (archives, ea, h₁) = bind-eq-ok (sorted_list_archives S s) _ h in
    let (bookmarks, eb, h₂) = bind-eq-ok (sorted_list_bookmarks S s) _ h₁ in
    let (state, er, h₃) = bind-eq-ok (read_state (some f) dry_run) _ h₂ in
    let (got, eg, h₄) =
      bind-eq-ok (get_pruned_snapshots archives bookmarks policies state.0) _ h₃ in
    let q : Result.ok (got, state.1) ≡ ok (pruned, dry) = h₄ in
    let q' = ok-injective q in
    elim (read_state-state_of f dry_run state er) [
      | inl e ↦ inl (ap (λ r. r.1) (sym q') ∙ e)
      | inr e ↦ inr (rw (eb, ea, e) (eg ∙ ap (λ r. ok r.0) q'))
    ]

cmd_prune_snapshots-keeps :
    (S : Source) (K : KeepsOthers S) (dry_run : Bool) (policies : List RetentionPolicy)
    (f : StateFile) (s : S.State) (k : Snapshot)
    → member k (values (state_of f)) ≡ true
    → Has K s k
    → Has K (cmd_prune_snapshots S dry_run policies (some f) s).0 k
unfolding cmd_prune_snapshots
cmd_prune_snapshots-keeps S K dry_run policies f s k used has =
    go (plan_prune_snapshots S dry_run policies (some f) s) refl
  where
    go :
        (r : Result ((List Snapshot × List Snapshot) × Bool))
        → plan_prune_snapshots S dry_run policies (some f) s ≡ r
        → Has K
            (elim r as (λ _. S.State × Result (List Snapshot × List Snapshot)) [
              | err e ↦ (s, err e)
              | ok (pruned, dry) ↦ (
                if dry
                    then s
                    else remove_each S.remove_bookmark pruned.1
                        (remove_each S.remove_archive pruned.0 s),
                ok pruned,
              )
            ]).0
            k
    go (err x) e = has
    go (ok (pruned, true)) e = has
    go (ok (pruned, false)) e =
        elim (plan_prune_snapshots-plan_snapshots S dry_run policies f s pruned false e) [
          | inl dry ↦ cc
          | inr plan ↦ removals-keep S K policies (state_of f) s k pruned.0 pruned.1 plan used has
        ]

module _ (S : Source) (D : Destination) (K : KeepsOthers S) (adds : AddsSnapshot S K) where
  step-HasNamed : (w v : World S D) → TrackedStep S D K w v → HasNamed S D K w → HasNamed S D K v
  step-HasNamed _ _ (backs_up o wr sp re file w) h =
      run_backup-HasNamed S D K o wr sp adds re file w h
  step-HasNamed _ _ (prunes_backups dry_run policies w) h = h
  step-HasNamed _ _ (prunes_snapshots dry_run policies w) h =
      λ k used. cmd_prune_snapshots-keeps S K dry_run policies w.file w.source k used (h k used)

  -- For a source in which making a backup leaves the snapshots, and adds the new one if the data ends without an
  -- error, and runs that do not send data ending with an error as if it were whole: whatever commands are run with
  -- the same state file, and whether they succeed or not, if the source has every snapshot that the file names, it
  -- has every one that the file names then. A failed write leaves the file, or one that says nothing.
  pub TrackedReaches-HasNamed :
      (w v : World S D) → TrackedReaches S D K w v → HasNamed S D K w → HasNamed S D K v
  TrackedReaches-HasNamed w _ stays h = h
  TrackedReaches-HasNamed w _ (goes {v} {u} r step) h =
      step-HasNamed v u step (TrackedReaches-HasNamed w v r h)
