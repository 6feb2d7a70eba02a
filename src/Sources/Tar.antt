-- ===== src/Sources/Tar.antt =====
-- sources/tar.go.
pub mod Ending
pub mod Keeping
pub mod Adding
use uback.Base.{
  ℕ, ◌==◌, Bool, true, false, Option, none, some, List, [], ◌∷◌, ◌++◌, Bytes, codes, is_empty,
  if◌then◌else◌, Result, ok, err, Error,
}
use uback.Base.Commands.{Command, ◌>>=◌, ◌>>◌, pure, ask}
use uback.Snapshot.{Snapshot, Backup}
use uback.Interfaces.{Stream, Source}
use uback.Options.{Options, Packages, get, get_command}
use uback.System.{
  System, Failure, ignore, build_command, copy_file, run_command, wrap_source_command,
}
use uback.Sources.{listed_snapshots}

pub record Tar : Type 0 where
  pub snapshots_path : Bytes
  pub base_path : Bytes
  pub command : List Bytes

abbrev pub temporary : Snapshot → Bytes
temporary s = codes "_tmp-" ++ s

module _ (O : System) where
  -- The snapshots' directory is made before the other options are tested.
  unfoldable pub new_tar_source : Packages → Options → Command O.State Tar
  new_tar_source P o = do
    if is_empty (get (codes "SnapshotsPath") o)
        then pure tt
        else O.make_directories (get (codes "SnapshotsPath") o)
    if is_empty (get (codes "Path") o) then (λ s. (s, err Error.missing_path)) else pure tt
    pure (record {
      snapshots_path = get (codes "SnapshotsPath") o;
      base_path = get (codes "Path") o;
      command = get_command P o (codes "Command") (codes "tar" ∷ []);
    })

  -- For a restoration no option is read.
  abbrev pub restoring_tar : Tar
  restoring_tar = record { snapshots_path = []; base_path = []; command = [] }

  module _ (t : Tar) where
    abbrev pub snapshot_path : Snapshot → Bytes
    snapshot_path s = O.join t.snapshots_path s

    abbrev pub temporary_path : Snapshot → Bytes
    temporary_path s = O.join t.snapshots_path (temporary s)

    unfoldable pub list_bookmarks : O.State → Result (List Snapshot)
    list_bookmarks s =
        if is_empty t.snapshots_path then ok [] else (elim (O.read_directory t.snapshots_path s) [
          | err e ↦ err e
          | ok entries ↦ ok (listed_snapshots false entries)
        ])

    unfoldable pub remove_bookmark : Snapshot → Command O.State (Unit {0})
    remove_bookmark k = if is_empty t.snapshots_path then pure tt else O.remove (snapshot_path k)

    -- A base whose file cannot be copied is given up.
    abbrev pub base_copied :
        Snapshot → Snapshot → O.State × Result (Unit {0}) → O.State × Result (Option Snapshot)
    base_copied new base (s, ok done) = (s, ok (some base))
    base_copied new base (s, err e) = ((O.remove (temporary_path new) s).0, ok none)

    unfoldable pub prepare_base : Snapshot → Option Snapshot → Command O.State (Option Snapshot)
    prepare_base new none s = (s, ok none)
    prepare_base new (some base) s =
        base_copied new base (copy_file O (temporary_path new) (snapshot_path base) s)

    -- The exit code 1 is a warning of tar's.
    abbrev pub is_warning : Failure → Bool
    is_warning f = elim f.code [ none ↦ false | some code ↦ code == 1 ]

    abbrev pub keep_snapshot : Snapshot → Command O.State (Unit {0})
    keep_snapshot new =
        if is_empty t.snapshots_path
        then pure tt
        else O.rename (temporary_path new) (snapshot_path new)

    abbrev pub drop_snapshot : Snapshot → Failure → Command O.State (Unit {0})
    drop_snapshot new f s = (
      (if is_empty t.snapshots_path then s else (O.remove (temporary_path new) s).0),
      err f.error,
    )

    unfoldable pub finalize : Snapshot → Option Failure → Command O.State (Unit {0})
    finalize new none = keep_snapshot new
    finalize new (some f) = if is_warning f then keep_snapshot new else drop_snapshot new f

    abbrev pub incremental_words : Snapshot → List Bytes
    incremental_words new =
        if is_empty t.snapshots_path
        then []
        else (codes "--listed-incremental=" ++ temporary_path new) ∷ []

    abbrev pub create_words : Snapshot → List Bytes
    create_words new =
        build_command t.command
          (codes "--create" ∷ codes "-C" ∷ t.base_path ∷ (incremental_words new ++ codes "." ∷ []))

    unfoldable pub create_of : Snapshot → Option Snapshot → Command O.State (Backup × Stream)
    unfolding prepare_base finalize
    create_of new base = do
      base ← prepare_base new (if is_empty t.snapshots_path then none else base)
      wrap_source_command O (record { snapshot = new; base_snapshot = base }) (create_words new)
          (finalize new)

    unfoldable pub create_backup : Option Snapshot → Command O.State (Backup × Stream)
    unfolding create_of
    create_backup base s = create_of (O.stamp s) base s

  -- A full backup starts from an empty directory, an incremental one from its base's, which is renamed.
  unfoldable pub restore_backup : Bytes → Backup → Stream → Command O.State (Unit {0})
  restore_backup target b stream = do
    O.remove_all (O.join target b.snapshot)
    elim b.base_snapshot [
      | none ↦ O.make_directories (O.join target b.snapshot)
      | some base ↦ O.rename (O.join target base) (O.join target b.snapshot)
    ]
    run_command O (codes "tar" ∷ codes "-x" ∷ codes "-C" ∷ O.join target b.snapshot ∷ [])
        (some stream)

  -- A tar source has no archives; removing one panics.
  unfoldable pub tar_source : Tar → Source
  unfolding list_bookmarks remove_bookmark create_backup
  tar_source t = record {
    State = O.State;
    list_archives = λ s. ok [];
    remove_archive = λ k s. (s, err Error.panic);
    list_bookmarks = list_bookmarks t;
    remove_bookmark = remove_bookmark t;
    create_backup = create_backup t;
    restore_backup = restore_backup;
  }
