-- ===== src/Destinations/Btrfs.antt =====
-- destinations/btrfs.go.
pub mod Sending
use uback.Base.{
  ℕ, true, not, ◌||◌, none, some, List, [], ◌∷◌, ◌++◌, Bytes, codes, has_prefix, is_empty,
  if◌then◌else◌, Result, ok, err, Error,
}
use uback.Base.Commands.{Command, ◌>>=◌, ◌>>◌, pure, ask}
use uback.Snapshot.{Backup}
use uback.Snapshot.Filename.{parse_backup_filename}
use uback.Interfaces.{Stream}
use uback.Options.{Options, Packages, get, get_command}
use uback.Container.{Codec, header}
use uback.System.{Entry, System, Outcome, not_started, finished, build_command, run_command}
use uback.Destinations.{with_parsed}
use uback.Destinations.Receiving.{opened}

pub record Btrfs : Type 0 where
  pub base_path : Bytes
  pub snapshot_command : List Bytes
  pub send_command : List Bytes
  pub receive_command : List Bytes
  pub delete_command : List Bytes

-- Each directory is a full backup of its name.
unfoldable pub listed_directories : List Entry → List Backup
listed_directories [] = []
listed_directories ((name, is_dir) ∷ es) =
    let rest = listed_directories es in
    if has_prefix name (codes ".") || has_prefix name (codes "_") || not is_dir
    then rest
    else with_parsed (parse_backup_filename (name ++ codes "-full.ubkp") true) rest

module _ (O : System) where
  unfoldable pub new_btrfs_destination : Packages → Options → Command O.State Btrfs
  new_btrfs_destination P o = do
    if is_empty (get (codes "Path") o) then (λ s. (s, err Error.missing_path)) else pure tt
    O.make_directories (get (codes "Path") o)
    pure (record {
      base_path = get (codes "Path") o;
      snapshot_command =
          get_command P o (codes "SnapshotCommand")
            (codes "btrfs" ∷ codes "subvolume" ∷ codes "snapshot" ∷ []);
      send_command = get_command P o (codes "SendCommand") (codes "btrfs" ∷ codes "send" ∷ []);
      receive_command =
          get_command P o (codes "ReceiveCommand") (codes "btrfs" ∷ codes "receive" ∷ []);
      delete_command =
          get_command P o (codes "DeleteCommand")
            (codes "btrfs" ∷ codes "subvolume" ∷ codes "delete" ∷ []);
    })

  module _ (t : Btrfs) where
    abbrev pub snapshot_path : Backup → Bytes
    snapshot_path b = O.join t.base_path b.snapshot

    abbrev pub temporary_path : Backup → Bytes
    temporary_path b = O.join t.base_path (codes "_tmp-" ++ b.snapshot)

    unfoldable pub list_backups : O.State → Result (List Backup)
    unfolding listed_directories
    list_backups s = elim (O.read_directory t.base_path s) [
      | err e ↦ err e
      | ok entries ↦ ok (listed_directories entries)
    ]

    unfoldable pub remove_backup : Backup → Command O.State (Unit {0})
    remove_backup b = run_command O (build_command t.delete_command (snapshot_path b ∷ [])) none

    module _ {Identity Recipient : Type 0} (Z : Codec Identity Recipient) (P : Packages)
        (inflate : Stream → Stream) where
      unfoldable pub send_backup : ℕ → Backup → Stream → Command O.State (Unit {0})
      send_backup fuel b stream = do
        content ← ask (λ s. opened Z P inflate fuel stream)
        run_command O (build_command t.receive_command (t.base_path ∷ [])) (some content)
        O.rename (temporary_path b) (snapshot_path b)

      -- The writer of the container is closed whatever the command's error is, which is lost.
      abbrev pub sent : O.State × Outcome → O.State × Stream
      sent (s, not_started e) =
          (s, record { content = header (codes "btrfs") true; failure = some e })
      sent (s, finished output f) =
          (s, record { content = header (codes "btrfs") true ++ Z.compress output; failure = none })

      abbrev pub and_delete : Backup → O.State × Stream → O.State × Result Stream
      and_delete b (s, stream) = (
        (run_command O (build_command t.delete_command (temporary_path b ∷ [])) none s).0,
        ok stream,
      )

      abbrev pub send_copied : Backup → O.State × Result (Unit {0}) → O.State × Result Stream
      send_copied b (s, err e) = (s, ok (record { content = []; failure = some e }))
      send_copied b (s, ok done) =
          and_delete b
            (sent (O.execute (build_command t.send_command (temporary_path b ∷ [])) none none s))

      -- All that the reader delivers, and the state behind its last read.
      unfoldable pub receive_backup : Backup → Command O.State Stream
      receive_backup b s = send_copied b (
          run_command O
            (build_command t.snapshot_command
              (codes "-r" ∷ snapshot_path b ∷ temporary_path b ∷ []))
            none s)
