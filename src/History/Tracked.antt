-- ===== src/History/Tracked.antt =====
-- Histories of commands that use the same state file.
mod Writing
pub mod Named
use uback.Base.{
  ◌≡◌, refl, sym, ap, ◌∙◌, subst, ◌⊎◌, inl, inr, Bool, true, false, ◌||◌, Option, none, some, List,
  [], ◌∷◌, Bytes, Dict, insert, values, member, equal, equal_iff, is_empty, if◌then◌else◌,
  Bool-cases, Result, Result-cases, bind-eq-ok, ok, err, Error, arith,
}
use uback.Base.Commands.{Command, ◌>>=◌, ◌>>◌, pure, ask, bind-after, then-after}
use uback.Snapshot.{Snapshot, Backup}
use uback.Interfaces.{Stream, Source, Destination, KeepsOthers}
use uback.Retention.{RetentionPolicy}
use uback.Prune.{
  StateFile, absent, unreadable, holds, read_state, remove_each, plan_snapshots,
  plan_prune_snapshots, cmd_prune_backups, cmd_prune_snapshots,
}
use uback.Sorting.{sorted_list_archives, sorted_list_bookmarks}
use uback.Retention.Snapshots.{get_pruned_snapshots}
use uback.Prune.Keeps.{prune_snapshots-keeps, removals-keep}
use uback.Backup.Run.{
  World, Settings, read_old_state, write_state, record_state, update_state, create, send,
  prune_both, run_backup,
}
use uback.Backup.Run.Records.{
  Writes, Has, Recorded, create-world, record_state-world, update_state-record_state,
}

-- What the state file says, nothing if it cannot be read.
abbrev pub state_of : StateFile → Dict Bytes
state_of absent = []
state_of (unreadable e) = []
state_of (holds state) = state

-- A write that fails leaves the file, or one that says nothing.
pub record Spoils (o : Settings) : Type 0 where
  pub spoiled :
      (d : Dict Bytes) (f : StateFile) (e : Error)
      → (o.write_file d f).1 ≡ err e
      → ((o.write_file d f).0 ≡ f) ⊎ (state_of (o.write_file d f).0 ≡ [])

-- Making a backup leaves the source's snapshots, and adds the new one if its data ends without an error.
pub record AddsSnapshot (S : Source) (K : KeepsOthers S) : Type 0 where
  pub kept :
      (base : Option Snapshot) (s : S.State) (k : Snapshot)
      → Has K s k
      → Has K (S.create_backup base s).0 k
  pub added :
      (base : Option Snapshot) (s s' : S.State) (b : Backup) (stream : Stream)
      → S.create_backup base s ≡ (s', ok (b, stream))
      → stream.failure ≡ none
      → Has K s' b.snapshot

-- Data that ends with an error, and is packed, is not sent without one.
abbrev pub Refuses : Destination → Settings → Type 0
Refuses D o =
    (b : Backup) (stream : Stream) (d : D.State)
    → (D.send_backup b (o.pack stream) d).1 ≡ ok tt
    → stream.failure ≡ none

module _ (S : Source) (D : Destination) (K : KeepsOthers S) where
  abbrev pub HasNamed : World S D → Type 0
  HasNamed w = (k : Snapshot) → member k (values (state_of w.file)) ≡ true → Has K w.source k

  -- A command that uses the world's state file.
  pub data TrackedStep : World S D → World S D → Type 0 where
    backs_up :
        (o : Settings)
        → Writes o
        → Spoils o
        → Refuses D o
        → is_empty o.options.state_file ≡ false
        → (w : World S D) → TrackedStep w (run_backup S D o w).0
    prunes_backups :
        (dry_run : Bool) (policies : List RetentionPolicy) (w : World S D)
        → TrackedStep w
            (record w { destination = (cmd_prune_backups D dry_run policies w.destination).0 })
    prunes_snapshots :
        (dry_run : Bool) (policies : List RetentionPolicy) (w : World S D)
        → TrackedStep w (record w {
          source = (cmd_prune_snapshots S dry_run policies (some w.file) w.source).0;
        })

  pub data TrackedReaches (w : World S D) : World S D → Type 0 where
    stays : TrackedReaches w w
    goes : {v u : World S D} → TrackedReaches w v → TrackedStep v u → TrackedReaches w u
