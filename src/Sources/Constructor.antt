-- ===== src/Sources/Constructor.antt =====
-- sources/new.go: the constructor that a type stands for.
use uback.Base.{
  Option, none, some, List, Bytes, codes, cut_prefix, equal, if◌then◌else◌, Result, ok, err, Error,
}
use uback.Base.Commands.{Command}
use uback.Options.{Options, Packages, get}

-- The constructors, over what they change. Two of them tell the type themselves.
pub record Constructors (W A : Type 0) : Type 0 where
  pub btrfs : Options → Command W A
  pub zfs : Options → Command W A
  pub tar : Options → Command W A
  pub mariabackup : Options → Command W A
  pub command : Options → Command W (A × Bytes)
  pub proxy : Options → Command W (A × Bytes)

abbrev pub of_type : {W A : Type 0} → Bytes → W × Result A → W × Result (A × Bytes)
of_type typ (w, ok source) = (w, ok (source, typ))
of_type typ (w, err e) = (w, err e)

-- `New`: the source and its type.
unfoldable pub new_source : {W A : Type 0} → Constructors W A → Options → Command W (A × Bytes)
new_source N o w =
    let typ = get (codes "Type") o in
    if equal typ (codes "btrfs")
    then of_type typ (N.btrfs o w)
    else if equal typ (codes "zfs")
    then of_type typ (N.zfs o w)
    else if equal typ (codes "tar")
    then of_type typ (N.tar o w)
    else if equal typ (codes "mariabackup")
    then of_type typ (N.mariabackup o w)
    else if equal typ (codes "command")
    then N.command o w
    else if equal typ (codes "proxy")
    then N.proxy o w
    else (w, err Error.invalid_type)

-- The constructors for a restoration. None of them changes anything.
pub record RestoringConstructors (A : Type 0) : Type 0 where
  pub btrfs : Options → Result A
  pub zfs : Options → Result A
  pub tar : Result A
  pub mariabackup : Options → Result A
  pub command : List Bytes → Options → Result A

abbrev pub restoring_command :
    {A : Type 0} → (List Bytes → Options → Result A) → Options → Option (List Bytes) → Result A
restoring_command command o none = err Error.invalid_option
restoring_command command o (some words) = command words o

abbrev pub restoring_other :
    {A : Type 0} → RestoringConstructors A → Packages → Options → Option Bytes → Result A
restoring_other N P o none = err Error.invalid_type
restoring_other N P o (some text) = restoring_command N.command o (P.split_shell text)

-- `NewForRestoration`, from the type that a backup says.
unfoldable pub new_for_restoration :
    {A : Type 0} → RestoringConstructors A → Packages → Options → Bytes → Result A
new_for_restoration N P o typ =
    if equal typ (codes "btrfs")
    then N.btrfs o
    else if equal typ (codes "zfs")
    then N.zfs o
    else if equal typ (codes "tar")
    then N.tar
    else if equal typ (codes "mariabackup")
    then N.mariabackup o
    else if equal typ (codes "proxy")
    then err Error.no_restoration
    else restoring_other N P o (cut_prefix (codes "command:") typ)
