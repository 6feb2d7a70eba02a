-- ===== src/Destinations.antt =====
-- The destinations of destinations/, over the calls that each makes, and the names that they list.
pub mod Fs
pub mod Ftp
pub mod ObjectStorage
pub mod CommandLine
pub mod Receiving
pub mod Btrfs
pub mod Zfs
pub mod Constructor
use uback.Base.{
  ℕ, Bool, true, false, not, ◌&&◌, ◌||◌, Option, none, some, List, [], ◌∷◌, Bytes, codes,
  has_prefix, if◌then◌else◌, Result, ok, err, Error,
}
use uback.Snapshot.{Backup}
use uback.Snapshot.Filename.{parse_backup_filename}

-- A directory entry: its name, and whether it is a directory.
abbrev pub Entry : Type 0
Entry = Bytes × Bool

abbrev pub is_skipped : Entry → Bool
is_skipped (name, is_dir) = has_prefix name (codes ".") || has_prefix name (codes "_") || is_dir

abbrev pub with_parsed : Result Backup → List Backup → List Backup
with_parsed (ok b) bs = b ∷ bs
with_parsed (err e) bs = bs

-- The backups among the entries; another name is logged.
unfoldable pub listed_backups : List Entry → List Backup
listed_backups [] = []
listed_backups (e ∷ es) =
    let rest = listed_backups es in
    if is_skipped e then rest else with_parsed (parse_backup_filename e.0 true) rest
