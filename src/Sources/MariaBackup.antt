-- ===== src/Sources/MariaBackup.antt =====
-- sources/mariabackup.go: the options and what the operations share.
pub mod Version
pub mod Server
use uback.Base.{
  ℕ, Bool, true, false, not, ◌&&◌, Option, none, some, List, [], ◌∷◌, ◌++◌, Bytes, codes, Dict,
  lookup, is_empty, if◌then◌else◌, Result, ok, err, Error, ◌>>=◌,
}
use uback.Options.{Options, Packages, get, get_boolean, get_command}

pub record MariaBackup : Type 0 where
  pub snapshots_path : Bytes
  pub command : List Bytes
  pub version_command : List Bytes
  pub auth_file_data : Bytes
  pub version_check : Bool
  pub use_podman : Bool

abbrev pub no_words : List Bytes → Bool
no_words [] = true
no_words (w ∷ ws) = false

abbrev pub auth_line : Bytes → Option Bytes → Bytes
auth_line key none = []
auth_line key (some v) = key ++ (v ++ codes "\n")

abbrev pub is_given : Option Bytes → Bool
is_given none = false
is_given (some v) = true

-- What the file for `--defaults-file` holds, if a user or a password is given.
unfoldable pub auth_data : Options → Bytes
auth_data o =
    let user = lookup (codes "User") o.strings in
    let password = lookup (codes "Password") o.strings in
    if not (is_given user) && not (is_given password)
    then []
    else (codes "[mariabackup]\n"
        ++ (auth_line (codes "user=") user ++ auth_line (codes "password=") password))

-- The options, once the directory of the snapshots is made.
unfoldable pub mariabackup_of : Packages → Options → Result MariaBackup
unfolding auth_data
mariabackup_of P o = get_boolean P o (codes "VersionCheck") true >>= λ check.
    let command = get_command P o (codes "Command") (codes "mariadb-backup" ∷ []) in
    let version_command = get_command P o (codes "MariadbCommand") (codes "mariadb" ∷ []) in
    if no_words command
    then err Error.missing_option
    else if no_words version_command && check
    then err Error.missing_option
    else ok (record {
      snapshots_path = get (codes "SnapshotsPath") o;
      command = command;
      version_command = version_command;
      auth_file_data = auth_data o;
      version_check = check;
      use_podman = false;
    })

unfoldable pub restoring_mariabackup : Packages → Options → Result MariaBackup
restoring_mariabackup P o =
    let command = get_command P o (codes "Command") (codes "mariadb-backup" ∷ []) in
    if no_words command
    then err Error.missing_option
    else (get_boolean P o (codes "UsePodman") true >>= λ podman. ok (record {
      snapshots_path = [];
      command = command;
      version_command = [];
      auth_file_data = [];
      version_check = false;
      use_podman = podman;
    }))
