-- ===== src/History.antt =====
-- Histories of the commands of cmd/ on one source and one destination, each run as a step.
use uback.Base.{
  ◌≡◌, ◌⊎◌, Bool, true, false, not, Option, none, some, List, [], ◌∷◌, map, member, filter, equal,
  distinct, In, Result, ok, err, Error,
}
use uback.Snapshot.{Snapshot, Backup, name}
use uback.Snapshot.Filename.Shape.{is_valid}
use uback.Interfaces.{Stream, Source, Destination}
use uback.Sorting.Reordered.{Reordered}
use uback.Retention.{RetentionPolicy}
use uback.Prune.{StateFile, cmd_prune_backups, cmd_prune_snapshots}
use uback.Backup.{plan_backup}
use uback.Backup.Run.{World, Settings, run_backup}
pub mod Kept
pub mod Restorable
pub mod Tracked

-- What the commands rely on: the list is whole, a backup is there once its sending succeeds, and a sending that
-- fails leaves the list. A removal of a backup that is there removes it.
pub record KeepsBackups (D : Destination) : Type 0 where
  pub backups : D.State → List Backup
  pub list_backups-backups : (d : D.State) → D.list_backups d ≡ ok (backups d)
  pub backups-remove_backup :
      (b : Backup) (d : D.State)
      → In b (backups d)
      → distinct (map name (backups d)) ≡ true
      → backups (D.remove_backup b d).0 ≡ filter (λ c. not (equal (name c) (name b))) (backups d)
  pub backups_sent :
      (b : Backup) (stream : Stream) (d : D.State)
      → is_valid b ≡ true
      → member (name b) (map name (backups d)) ≡ false
      → (D.send_backup b stream d).1 ≡ ok tt
      → Reordered (b ∷ backups d) (backups (D.send_backup b stream d).0)
  pub backups_failed :
      (b : Backup) (stream : Stream) (d : D.State) (e : Error)
      → is_valid b ≡ true
      → (D.send_backup b stream d).1 ≡ err e
      → backups (D.send_backup b stream d).0 ≡ backups d

-- A source makes a backup on top of the snapshot that it is asked to, or in full.
abbrev pub UsesBase : Source → Type 0
UsesBase S =
    (base : Option Snapshot) (s s' : S.State) (b : Backup) (stream : Stream)
    → S.create_backup base s ≡ (s', ok (b, stream))
    → (b.base_snapshot ≡ none) ⊎ (b.base_snapshot ≡ base)

module _ (S : Source) (D : Destination) (K : KeepsBackups D) where
  -- The backup that the source makes on top of the base has valid names, and one that the destination does not
  -- have.
  abbrev pub IsNew : Option Snapshot → World S D → Type 0
  IsNew base w =
      (s : S.State) (b : Backup) (stream : Stream)
      → S.create_backup base w.source ≡ (s, ok (b, stream))
      → (is_valid b ≡ true) × (member (name b) (map name (K.backups w.destination)) ≡ false)

  -- It is so of the base that the run chooses.
  abbrev pub IsFresh : Settings → World S D → Type 0
  IsFresh o w =
      (bs : List Backup) (base : Option Snapshot)
      → plan_backup S D o.options o.now w.source w.destination ≡ ok (bs, base)
      → IsNew base w

  -- A command, whether it succeeds or not.
  pub data Step : World S D → World S D → Type 0 where
    backs_up : (o : Settings) (w : World S D) → IsFresh o w → Step w (run_backup S D o w).0
    prunes_backups :
        (dry_run : Bool) (policies : List RetentionPolicy) (w : World S D)
        → Step w (record w { destination = (cmd_prune_backups D dry_run policies w.destination).0 })
    prunes_snapshots :
        (dry_run : Bool) (policies : List RetentionPolicy) (file : Option StateFile) (w : World S D)
        → Step w (record w { source = (cmd_prune_snapshots S dry_run policies file w.source).0 })

  pub data Reaches (w : World S D) : World S D → Type 0 where
    stays : Reaches w w
    goes : {v u : World S D} → Reaches w v → Step v u → Reaches w u
