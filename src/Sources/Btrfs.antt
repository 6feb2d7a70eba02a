-- ===== src/Sources/Btrfs.antt =====
-- sources/btrfs.go.
use uback.Base.{
  ℕ, Bool, true, false, not, ◌&&◌, Option, none, some, List, [], ◌∷◌, ◌++◌, Bytes, codes, is_empty,
  if◌then◌else◌, Result, ok, err, Error, ℤ, pos, leb_ℤ,
}
use uback.Base.Commands.{Command, ◌>>=◌, ◌>>◌, pure, ask}
use uback.Snapshot.{Snapshot, Backup}
use uback.Interfaces.{Stream, Source}
use uback.Options.{Options, Packages, get, get_command}
use uback.Retention.Interval.{parse_interval}
use uback.Sorting.{sort_snapshots}
use uback.System.{System, Failure, build_command, run_command, wrap_source_command}
use uback.Sources.{Chosen, listed_snapshots, choose_snapshot}
pub mod Ending

pub record Btrfs : Type 0 where
  pub snapshots_path : Bytes
  pub base_path : Bytes
  pub snapshot_command : List Bytes
  pub send_command : List Bytes
  pub receive_command : List Bytes
  pub delete_command : List Bytes
  pub reuse_snapshots : ℤ

-- The interval of `ReuseSnapshots`, zero where it is not set.
unfoldable pub reuse_option : Options → Result ℤ
reuse_option o =
    if is_empty (get (codes "ReuseSnapshots") o)
    then ok (pos 0)
    else parse_interval (get (codes "ReuseSnapshots") o)

abbrev pub is_zero : ℤ → Bool
is_zero i = leb_ℤ i (pos 0) && leb_ℤ (pos 0) i

module _ (O : System) where
  unfoldable pub new_btrfs_source : Packages → Options → Command O.State Btrfs
  unfolding reuse_option
  new_btrfs_source P o = do
    if is_empty (get (codes "SnapshotsPath") o)
        then pure tt
        else O.make_directories (get (codes "SnapshotsPath") o)
    if is_empty (get (codes "Path") o) then (λ s. (s, err Error.missing_path)) else pure tt
    reuse ← ask (λ s. reuse_option o)
    pure (record {
      snapshots_path = get (codes "SnapshotsPath") o;
      base_path = get (codes "Path") o;
      snapshot_command =
          get_command P o (codes "SnapshotCommand")
            (codes "btrfs" ∷ codes "subvolume" ∷ codes "snapshot" ∷ []);
      send_command = get_command P o (codes "SendCommand") (codes "btrfs" ∷ codes "send" ∷ []);
      receive_command = [];
      delete_command =
          get_command P o (codes "DeleteCommand")
            (codes "btrfs" ∷ codes "subvolume" ∷ codes "delete" ∷ []);
      reuse_snapshots = reuse;
    })

  -- For a restoration the command that receives is read only.
  unfoldable pub restoring_btrfs : Packages → Options → Btrfs
  restoring_btrfs P o = record {
    snapshots_path = [];
    base_path = [];
    snapshot_command = [];
    send_command = [];
    receive_command =
        get_command P o (codes "ReceiveCommand") (codes "btrfs" ∷ codes "receive" ∷ []);
    delete_command = [];
    reuse_snapshots = pos 0;
  }

  module _ (t : Btrfs) where
    abbrev pub snapshot_path : Snapshot → Bytes
    snapshot_path s = O.join t.snapshots_path s

    abbrev pub temporary_path : Snapshot → Bytes
    temporary_path s = O.join t.snapshots_path (codes "_tmp-" ++ s)

    unfoldable pub list_archives : O.State → Result (List Snapshot)
    list_archives s =
        if is_empty t.snapshots_path then ok [] else (elim (O.read_directory t.snapshots_path s) [
          | err e ↦ err e
          | ok entries ↦ ok (listed_snapshots true entries)
        ])

    unfoldable pub remove_archive : Snapshot → Command O.State (Unit {0})
    remove_archive k =
        if is_empty t.snapshots_path
        then pure tt
        else run_command O (build_command t.delete_command (snapshot_path k ∷ [])) none

    -- A snapshot is looked for only if `ReuseSnapshots` is set.
    unfoldable pub choose : O.State → Result Chosen
    unfolding list_archives
    choose s =
        if is_zero t.reuse_snapshots
        then ok (record { snapshot = O.stamp s; reused = false })
        else (elim (list_archives s) [
          | err e ↦ err e
          | ok snapshots ↦
              choose_snapshot t.reuse_snapshots (O.now s) (O.stamp s) (sort_snapshots snapshots)
        ])

    -- The snapshot that is sent stands under its temporary name.
    unfoldable pub take : Chosen → Command O.State (Unit {0})
    take c =
        if c.reused
        then O.rename (snapshot_path c.snapshot) (temporary_path c.snapshot)
        else run_command O
            (build_command t.snapshot_command
              (codes "-r" ∷ t.base_path ∷ temporary_path c.snapshot ∷ []))
            none

    abbrev pub delete_failed : Snapshot → Failure → Command O.State (Unit {0})
    delete_failed k f s = (
      (run_command O (build_command t.delete_command (temporary_path k ∷ [])) none s).0,
      err f.error,
    )

    -- The error of a command that sends a reused snapshot is dropped.
    unfoldable pub finalize : Chosen → Option Failure → Command O.State (Unit {0})
    finalize c none = O.rename (temporary_path c.snapshot) (snapshot_path c.snapshot)
    finalize c (some f) =
        if not c.reused
        then delete_failed c.snapshot f
        else O.rename (temporary_path c.snapshot) (snapshot_path c.snapshot)

    abbrev pub parent_words : Option Snapshot → List Bytes
    parent_words none = []
    parent_words (some base) = codes "-p" ∷ snapshot_path base ∷ []

    unfoldable pub create_backup : Option Snapshot → Command O.State (Backup × Stream)
    unfolding choose take finalize
    create_backup asked = do
      c ← ask choose
      let base = if is_empty t.snapshots_path then none else asked
      take c
      wrap_source_command O (record { snapshot = c.snapshot; base_snapshot = base })
          (build_command t.send_command (parent_words base ++ temporary_path c.snapshot ∷ []))
          (finalize c)

    unfoldable pub restore_backup : Bytes → Backup → Stream → Command O.State (Unit {0})
    restore_backup target b stream = do
      run_command O (build_command t.receive_command (target ∷ [])) (some stream)
      O.rename (O.join target (codes "_tmp-" ++ b.snapshot)) (O.join target b.snapshot)

  -- A btrfs source has no bookmarks; removing one panics.
  unfoldable pub btrfs_source : Btrfs → Source
  unfolding list_archives remove_archive create_backup restore_backup
  btrfs_source t = record {
    State = O.State;
    list_archives = list_archives t;
    remove_archive = remove_archive t;
    list_bookmarks = λ s. ok [];
    remove_bookmark = λ k s. (s, err Error.panic);
    create_backup = create_backup t;
    restore_backup = restore_backup t;
  }
