-- ===== src/Destinations/Fs.antt =====
-- destinations/fs.go over the calls of package os that it makes.
pub mod Atomic
pub mod Listed
pub mod Naming
pub mod Entries
pub mod Sent
pub mod Parts
pub mod Matching
pub mod Kept
use uback.Base.{
  ℕ, Bool, true, false, List, Bytes, codes, ◌++◌, is_empty, if◌then◌else◌, Result, ok, err, Error,
}
use uback.Base.Commands.{Command}
use uback.Snapshot.{Backup, filename}
use uback.Interfaces.{Stream, Destination}
use uback.Options.{Options, get}
use uback.Destinations.{Entry, listed_backups}

-- `os` and `io.Copy` into an open file, by the paths of the files; `join` is `path.Join`.
pub record Files : Type 1 where
  pub State : Type 0
  pub join : Bytes → Bytes → Bytes
  pub make_directories : Bytes → Command State (Unit {0})
  pub read_directory : Bytes → State → Result (List Entry)
  pub create : Bytes → Command State (Unit {0})
  pub copy : Bytes → Stream → Command State (Unit {0})
  pub rename : Bytes → Bytes → Command State (Unit {0})
  pub remove : Bytes → Command State (Unit {0})
  pub open_file : Bytes → State → Result Stream

module _ (F : Files) (base : Bytes) where
  abbrev pub final_path : Backup → Bytes
  final_path b = F.join base (filename b)

  abbrev pub temporary_path : Backup → Bytes
  temporary_path b = F.join base (codes "_tmp-" ++ filename b)

  unfoldable pub list_backups : F.State → Result (List Backup)
  list_backups s = elim (F.read_directory base s) [
    | err e ↦ err e
    | ok entries ↦ ok (listed_backups entries)
  ]

  -- The deferred removal of the temporary file, whose error is dropped.
  unfoldable pub and_remove : Bytes → F.State × Result (Unit {0}) → F.State × Result (Unit {0})
  and_remove path (s, r) = ((F.remove path s).0, r)

  unfoldable pub rename_copied : Backup → F.State × Result (Unit {0}) → F.State × Result (Unit {0})
  rename_copied b (s, err e) = (s, err e)
  rename_copied b (s, ok done) = F.rename (temporary_path b) (final_path b) s

  unfoldable pub copy_created :
      Backup → Stream → F.State × Result (Unit {0}) → F.State × Result (Unit {0})
  unfolding and_remove rename_copied
  copy_created b stream (s, err e) = (s, err e)
  copy_created b stream (s, ok done) =
      and_remove (temporary_path b) (rename_copied b (F.copy (temporary_path b) stream s))

  unfoldable pub send_backup : Backup → Stream → F.State → F.State × Result (Unit {0})
  unfolding copy_created
  send_backup b stream s = copy_created b stream (F.create (temporary_path b) s)

  unfoldable pub fs_destination : Destination
  fs_destination = record {
    State = F.State;
    list_backups = list_backups;
    remove_backup = λ b. F.remove (final_path b);
    send_backup = send_backup;
    receive_backup = λ b. F.open_file (final_path b);
  }

abbrev pub path_made : (F : Files) → Bytes → F.State × Result (Unit {0}) → F.State × Result Bytes
path_made F path (s, err e) = (s, err e)
path_made F path (s, ok done) = (s, ok path)

-- The constructor gives the path, once its directory is made.
unfoldable pub new_fs_destination : (F : Files) → Options → F.State → F.State × Result Bytes
new_fs_destination F o s =
    let path = get (codes "Path") o in
    if is_empty path
    then (s, err Error.missing_path)
    else path_made F path (F.make_directories path s)
