-- ===== src/Sources/MariaBackup/Server.antt =====
-- sources/mariabackup.go: the operations.
use uback.Base.{
  Bool, true, not, Option, none, some, List, [], ◌∷◌, ◌++◌, Bytes, codes, equal, is_empty,
  if◌then◌else◌, Result, ok, err, Error,
}
use uback.Base.Commands.{Command, ◌>>=◌, ◌>>◌, pure, ask}
use uback.Snapshot.{Snapshot, Backup}
use uback.Interfaces.{Stream, Source}
use uback.Options.{Options, Packages, get}
use uback.System.{
  System, Failure, ignore, build_command, output_of, run_command, wrap_source_command,
}
use uback.Sources.{listed_snapshots}
use uback.Sources.MariaBackup.{MariaBackup, mariabackup_of}
use uback.Sources.MariaBackup.Version.{find_version, find_server_version}

abbrev pub found : Option Bytes → Result Bytes
found none = err Error.unknown_version
found (some version) = ok version

-- `Find` gives no bytes where nothing matches.
abbrev pub or_nothing : Option Bytes → Bytes
or_nothing none = []
or_nothing (some version) = version

-- `cmd.Output` gives `nil` if the command prints nothing.
abbrev pub answer : Bytes → Option Bytes
answer [] = none
answer (c ∷ s) = some (c ∷ s)

-- `is_missing` is `os.IsNotExist`; the two scripts are files of the repository, embedded.
module _ (O : System) (is_missing : Error → Bool) where
  -- `readBackupInfo`: the older name is tried first.
  unfoldable pub read_backup_info : Bytes → O.State → Result Bytes
  read_backup_info path s = elim (O.read_file (O.join path (codes "xtrabackup_info")) s) [
    | ok info ↦ ok info
    | err e ↦
        if is_missing e then O.read_file (O.join path (codes "mariadb_backup_info")) s else err e
  ]

  unfoldable pub new_mariabackup_source : Packages → Options → Command O.State MariaBackup
  new_mariabackup_source P o = do
    if is_empty (get (codes "SnapshotsPath") o)
        then pure tt
        else O.make_directories (get (codes "SnapshotsPath") o)
    ask (λ s. mariabackup_of P o)

  module _ (t : MariaBackup) where
    abbrev pub snapshot_path : Snapshot → Bytes
    snapshot_path s = O.join t.snapshots_path s

    abbrev pub temporary_path : Snapshot → Bytes
    temporary_path s = O.join t.snapshots_path (codes "_tmp-" ++ s)

    unfoldable pub list_bookmarks : O.State → Result (List Snapshot)
    list_bookmarks s =
        if is_empty t.snapshots_path then ok [] else (elim (O.read_directory t.snapshots_path s) [
          | err e ↦ err e
          | ok entries ↦ ok (listed_snapshots true entries)
        ])

    unfoldable pub remove_bookmark : Snapshot → Command O.State (Unit {0})
    remove_bookmark k =
        if is_empty t.snapshots_path then pure tt else O.remove_all (snapshot_path k)

    -- The file of the user and the password, which an error leaves.
    unfoldable pub write_auth_file : Command O.State (Option Bytes)
    write_auth_file = if is_empty t.auth_file_data then pure none else (do
      name ← O.create_temporary t.snapshots_path
      O.write name t.auth_file_data
      O.sync name
      pure (some name))

    abbrev pub auth_words : Option Bytes → List Bytes
    auth_words none = []
    auth_words (some name) = (codes "--defaults-file=" ++ name) ∷ []

    abbrev pub version_words : Option Bytes → List Bytes
    version_words auth =
        t.version_command ++ (auth_words auth ++ codes "-BNe" ∷ codes "select version()" ∷ [])

    -- The base is given up if the server is of another version than the one it was made with. With it comes
    -- what the server answered, if it was asked.
    unfoldable pub check_base :
        Option Bytes → Option Snapshot → Command O.State (Option Snapshot × Option Bytes)
    unfolding read_backup_info
    check_base auth none = pure (none, none)
    check_base auth (some base) = if not t.version_check then pure (some base, none) else (do
      info ← ask (read_backup_info (snapshot_path base))
      old ← ask (λ s. found (find_server_version true info))
      output ← output_of O (build_command (version_words auth) [])
      pure (
        (if equal (or_nothing (find_version output)) old then some base else none),
        answer output,
      ))

    abbrev pub base_words : Option Snapshot → List Bytes
    base_words none = []
    base_words (some base) = (codes "--incremental-basedir=" ++ snapshot_path base) ∷ []

    abbrev pub snapshot_words : Snapshot → Option Snapshot → List Bytes
    snapshot_words new base =
        if is_empty t.snapshots_path
        then []
        else (codes "--extra-lsndir=" ++ temporary_path new) ∷ base_words base

    abbrev pub create_words : Option Bytes → Snapshot → Option Snapshot → List Bytes
    create_words auth new base =
        t.command
        ++ (auth_words auth
            ++ codes "--backup" ∷ codes "--stream=mbstream" ∷ snapshot_words new base)

    unfoldable pub same_version : Option Bytes → Option Bytes → Command O.State (Unit {0})
    same_version auth none = pure tt
    same_version auth (some version) = do
      output ← output_of O (build_command (version_words auth) [])
      ask (λ s. if equal version output then ok tt else err Error.version_changed)

    abbrev pub remove_auth_file : Option Bytes → Command O.State (Unit {0})
    remove_auth_file none = pure tt
    remove_auth_file (some name) = ignore (O.remove name)

    unfoldable pub settle : Snapshot → Option Failure → Command O.State (Unit {0})
    settle new none =
        if is_empty t.snapshots_path
        then pure tt
        else O.rename (temporary_path new) (snapshot_path new)
    settle new (some f) = do
      if is_empty t.snapshots_path then pure tt else ignore (O.remove_all (temporary_path new))
      ask (λ s. err f.error)

    -- The server is asked for its version again. An error there leaves the file of the password, and the
    -- snapshot under its temporary name.
    unfoldable pub finalize :
        Option Bytes → Option Bytes → Snapshot → Option Failure → Command O.State (Unit {0})
    unfolding same_version settle
    finalize auth version new failure = do
      same_version auth version
      remove_auth_file auth
      settle new failure

    unfoldable pub create_of : Snapshot → Option Snapshot → Command O.State (Backup × Stream)
    unfolding write_auth_file check_base finalize
    create_of new asked = do
      auth ← write_auth_file
      checked ← check_base auth asked
      let base = if is_empty t.snapshots_path then none else checked.0
      wrap_source_command O (record { snapshot = new; base_snapshot = base })
          (build_command (create_words auth new base) []) (finalize auth checked.1 new)

    unfoldable pub create_backup : Option Snapshot → Command O.State (Backup × Stream)
    unfolding create_of
    create_backup base s = create_of (O.stamp s) base s

    abbrev pub podman_words : Bytes → Bytes → List Bytes
    podman_words target version =
        codes "podman"
        ∷ codes "run"
        ∷ codes "--rm"
        ∷ codes "-v"
        ∷ (target ++ (codes ":" ++ target))
        ∷ codes "-i"
        ∷ (codes "docker.io/library/mariadb:" ++ version)
        ∷ []

    -- `none` where the backup does not say its version: the restoration ends there, without an error.
    unfoldable pub prepare_words : Bytes → Bytes → O.State → Result (Option (List Bytes))
    unfolding read_backup_info
    prepare_words target directory s =
        if not t.use_podman then ok (some t.command) else (elim (read_backup_info directory s) [
          | err e ↦ err e
          | ok info ↦ elim (find_server_version true info) [
            | none ↦ ok none
            | some version ↦ ok (some (podman_words target version ++ codes "mariadb-backup" ∷ []))
          ]
        ])

    -- An incremental backup is merged into its base's directory, which then takes its name.
    unfoldable pub prepare :
        Bytes → Bytes → Option Snapshot → Option (List Bytes) → Command O.State (Unit {0})
    prepare target directory base none = pure tt
    prepare target directory none (some words) =
        run_command O
          (build_command words (codes "--prepare" ∷ (codes "--target-dir=" ++ directory) ∷ [])) none
    prepare target directory (some base) (some words) = do
      run_command O
          (build_command words (
            codes "--prepare"
            ∷ (codes "--target-dir=" ++ O.join target base)
            ∷ (codes "--incremental-dir=" ++ directory)
            ∷ []))
          none
      O.remove_all directory
      O.rename (O.join target base) directory

    unfoldable pub restore_into :
        Bytes → Bytes → Bytes → Bytes → Backup → Stream → Command O.State (Unit {0})
    unfolding prepare_words prepare
    restore_into podman_script local_script directory target b stream = do
      O.remove_all directory
      O.make_directories directory
      ignore (O.write_file (O.join directory (codes "sqldump-podman.sh")) podman_script)
      ignore (O.write_file (O.join directory (codes "sqldump-local.sh")) local_script)
      run_command O
          (build_command (if t.use_podman then podman_words target (codes "latest") else [])
            (codes "mbstream" ∷ codes "-x" ∷ codes "-C" ∷ directory ∷ []))
          (some stream)
      words ← ask (prepare_words target directory)
      prepare target directory b.base_snapshot words

    unfoldable pub restore_backup :
        Bytes → Bytes → Bytes → Backup → Stream → Command O.State (Unit {0})
    unfolding restore_into
    restore_backup podman_script local_script target b =
        restore_into podman_script local_script (O.join target b.snapshot) target b

  -- A mariabackup source has no archives; removing one panics.
  unfoldable pub mariabackup_source : Bytes → Bytes → MariaBackup → Source
  unfolding list_bookmarks remove_bookmark create_backup restore_backup
  mariabackup_source podman_script local_script t = record {
    State = O.State;
    list_archives = λ s. ok [];
    remove_archive = λ k s. (s, err Error.panic);
    list_bookmarks = list_bookmarks t;
    remove_bookmark = remove_bookmark t;
    create_backup = create_backup t;
    restore_backup = restore_backup t podman_script local_script;
  }
