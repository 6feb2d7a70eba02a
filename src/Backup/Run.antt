-- ===== src/Backup/Run.antt =====
-- `Run` of cmd/backup.go after the options are read: the steps in their order, each of which may stop the
-- command. `now` is the clock, `pack` the goroutine that writes the container into the pipe, `write_file` what
-- `os.WriteFile` leaves of the state file.
use uback.Base.{
  ℕ, Bool, true, false, not, ◌&&◌, ◌||◌, Option, none, some, List, [], ◌∷◌, Bytes, Dict, insert,
  is_empty, if◌then◌else◌, Result, ok, err, Error,
}
use uback.Base.Commands.{Command, ◌>>=◌, ◌>>◌, pure, ask}
use uback.Snapshot.{Snapshot, Backup}
use uback.Retention.{RetentionPolicy}
use uback.Interfaces.{Stream, Destination, Source}
use uback.Sorting.{sorted_list_backups, sorted_list_archives, sorted_list_bookmarks}
use uback.Prune.{StateFile, absent, unreadable, holds, prune_backups, prune_snapshots}
use uback.Backup.{BackupOptions, snapshots_set, plan_backup}
pub mod Records

-- What the command changes.
pub record World (S : Source) (D : Destination) : Type 0 where
  pub source : S.State
  pub destination : D.State
  pub file : StateFile

-- What the command is given: the two options builders, `-n`, and the world's functions.
pub record Settings : Type 0 where
  pub options : BackupOptions
  pub destination_id : Bytes
  pub source_policies : List RetentionPolicy
  pub destination_policies : List RetentionPolicy
  pub no_prune : Bool
  pub now : ℕ
  pub pack : Stream → Stream
  pub write_file : Dict Bytes → StateFile → StateFile × Result (Unit {0})

-- The state that is read before it is written: a missing file is an empty state.
unfoldable pub read_old_state : StateFile → Result (Dict Bytes)
read_old_state absent = ok []
read_old_state (unreadable e) = err e
read_old_state (holds state) = ok state

module _ (S : Source) (D : Destination) where
  unfoldable pub write_state : Settings → Dict Bytes → Command (World S D) (Unit {0})
  write_state o state w = let (file, r) = o.write_file state w.file in (record w { file = file }, r)

  -- The state with the new snapshot under the destination's ID.
  unfoldable pub record_state : Settings → Backup → Command (World S D) (Dict Bytes)
  unfolding write_state
  record_state o b = do
    old ← ask (λ w. read_old_state w.file)
    write_state o (insert o.destination_id b.snapshot old)
    pure (insert o.destination_id b.snapshot old)

  -- Without a state file the state is empty.
  unfoldable pub update_state : Settings → Backup → Command (World S D) (Dict Bytes)
  unfolding record_state
  update_state o b = if is_empty o.options.state_file then pure [] else record_state o b

  unfoldable pub create : Option Snapshot → Command (World S D) (Backup × Stream)
  create base w = let (s, r) = S.create_backup base w.source in (record w { source = s }, r)

  unfoldable pub send : Backup → Stream → Command (World S D) (Unit {0})
  send b stream w =
      let (d, r) = D.send_backup b stream w.destination in (record w { destination = d }, r)

  -- An error of either pruning is logged only.
  unfoldable pub prune_both : Settings → Dict Bytes → List Backup → Command (World S D) (Unit {0})
  prune_both o state backups w = (
    record w {
      source = (prune_snapshots S o.source_policies state w.source).0;
      destination = (prune_backups D backups o.destination_policies w.destination).0;
    },
    ok tt,
  )

  -- The whole command, which prints the name of the backup that it gives.
  unfoldable pub run_backup : Settings → Command (World S D) Backup
  unfolding update_state create send prune_both
  run_backup o = do
    chosen ← ask (λ w. plan_backup S D o.options o.now w.source w.destination)
    made ← create chosen.1
    send made.0 (o.pack made.1)
    state ← update_state o made.0
    if o.no_prune then pure tt else prune_both o state (made.0 ∷ chosen.0)
    pure made.0
