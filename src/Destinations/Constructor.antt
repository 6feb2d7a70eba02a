-- ===== src/Destinations/Constructor.antt =====
-- destinations/new.go: the constructor that a type stands for.
use uback.Base.{codes, equal, if◌then◌else◌, err, Error}
use uback.Base.Commands.{Command}
use uback.Options.{Options, get}

-- The constructors, over what they change.
pub record Constructors (W A : Type 0) : Type 0 where
  pub btrfs : Options → Command W A
  pub zfs : Options → Command W A
  pub fs : Options → Command W A
  pub ftp : Options → Command W A
  pub object_storage : Options → Command W A
  pub command : Options → Command W A
  pub proxy : Options → Command W A

unfoldable pub new_destination : {W A : Type 0} → Constructors W A → Options → Command W A
new_destination N o w =
    let typ = get (codes "Type") o in
    if equal typ (codes "btrfs")
    then N.btrfs o w
    else if equal typ (codes "zfs")
    then N.zfs o w
    else if equal typ (codes "fs")
    then N.fs o w
    else if equal typ (codes "ftp")
    then N.ftp o w
    else if equal typ (codes "object-storage")
    then N.object_storage o w
    else if equal typ (codes "command")
    then N.command o w
    else if equal typ (codes "proxy")
    then N.proxy o w
    else (w, err Error.invalid_type)
