-- ===== src/Sources/Zfs.antt =====
-- sources/zfs.go: the options.
pub mod Datasets
use uback.Base.{
  ℕ, Bool, true, false, not, ◌&&◌, Option, none, some, List, [], ◌∷◌, ◌++◌, Bytes, codes,
  cut_prefix, is_empty, if◌then◌else◌, Result, ok, err, Error, ℤ, pos, ◌>>=◌,
}
use uback.Snapshot.{Snapshot, Backup}
use uback.Snapshot.Filename.{is_snapshot_name}
use uback.Interfaces.{Stream}
use uback.Options.{Options, Packages, get, get_command, get_boolean, get_string}
use uback.Sorting.{sort_snapshots}
use uback.System.{
  System, Failure, keep_failure, build_command, run_command, output_of, wrap_source_command,
}
use uback.Sources.{Chosen, choose_snapshot}
use uback.Sources.Btrfs.{reuse_option, is_zero}

pub record Zfs : Type 0 where
  pub dataset : Bytes
  pub prefix : Bytes
  pub replicate : Bool
  pub use_bookmarks : Bool
  pub list_command : List Bytes
  pub snapshot_command : List Bytes
  pub bookmark_command : List Bytes
  pub send_command : List Bytes
  pub receive_command : List Bytes
  pub destroy_command : List Bytes
  pub reuse_snapshots : ℤ

abbrev pub when : Bool → List Bytes → List Bytes
when t words = if t then words else []

-- What `Replicate`, `Exclude` and `Raw` append to the command that sends.
unfoldable pub send_words : Options → Bool → Bool → List Bytes
send_words o replicate raw =
    when replicate (
      codes "-R"
      ∷ when (not (is_empty (get (codes "Exclude") o))) (codes "-X" ∷ get (codes "Exclude") o ∷ []))
    ++ when raw (codes "--raw" ∷ [])

unfoldable pub zfs_of : Packages → Options → ℤ → Bool → Bool → Bool → Zfs
unfolding send_words
zfs_of P o reuse replicate bookmarks raw = record {
  dataset = get (codes "Dataset") o;
  prefix = get_string o (codes "Prefix") (codes "uback-");
  replicate = replicate;
  use_bookmarks = bookmarks;
  list_command = get_command P o (codes "ListCommand") (codes "zfs" ∷ codes "list" ∷ []);
  snapshot_command =
      get_command P o (codes "SnapshotCommand") (codes "zfs" ∷ codes "snapshot" ∷ [])
      ++ when replicate (codes "-r" ∷ []);
  bookmark_command =
      get_command P o (codes "BookmarkCommand") (codes "zfs" ∷ codes "bookmark" ∷ []);
  send_command =
      get_command P o (codes "SendCommand") (codes "zfs" ∷ codes "send" ∷ [])
      ++ send_words o replicate raw;
  receive_command = [];
  destroy_command = get_command P o (codes "DestroyCommand") (codes "zfs" ∷ codes "destroy" ∷ []);
  reuse_snapshots = reuse;
}

-- `Replicate` and `UseBookmarks` together stop the program.
unfoldable pub new_zfs_source : Packages → Options → Result Zfs
unfolding zfs_of
new_zfs_source P o =
    if is_empty (get (codes "Dataset") o)
    then err Error.missing_option
    else (reuse_option o >>= λ reuse. get_boolean P o (codes "Replicate") false >>= λ replicate.
        get_boolean P o (codes "UseBookmarks") true >>= λ bookmarks.
        let raw = get_boolean P o (codes "Raw") true in
        if replicate && bookmarks
        then err Error.exclusive_options
        else (raw >>= λ raw. ok (zfs_of P o reuse replicate bookmarks raw)))

unfoldable pub restoring_zfs : Packages → Options → Result Zfs
restoring_zfs P o =
    if is_empty (get (codes "Dataset") o)
    then err Error.missing_option
    else ok (record {
      dataset = get (codes "Dataset") o;
      prefix = [];
      replicate = false;
      use_bookmarks = false;
      list_command = [];
      snapshot_command = [];
      bookmark_command = [];
      send_command = [];
      receive_command =
          get_command P o (codes "ReceiveCommand") (codes "zfs" ∷ codes "receive" ∷ []);
      destroy_command = [];
      reuse_snapshots = pos 0;
    })
