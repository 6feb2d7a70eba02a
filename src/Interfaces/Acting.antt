-- ===== src/Interfaces/Acting.antt =====
-- The interfaces of lib/interfaces.go over one world, which each operation may change.
use uback.Base.{Option, List}
use uback.Base.Commands.{Command}
use uback.Snapshot.{Snapshot, Backup}
use uback.Interfaces.{Stream}

pub record ActingDestination (W : Type 0) : Type 0 where
  pub list_backups : Command W (List Backup)
  pub remove_backup : Backup → Command W (Unit {0})
  pub send_backup : Backup → Stream → Command W (Unit {0})
  pub receive_backup : Backup → Command W Stream

-- What a proxy asks of a source, which does not restore.
pub record ActingSource (W : Type 0) : Type 0 where
  pub list_archives : Command W (List Snapshot)
  pub remove_archive : Snapshot → Command W (Unit {0})
  pub list_bookmarks : Command W (List Snapshot)
  pub remove_bookmark : Snapshot → Command W (Unit {0})
  pub create_backup : Option Snapshot → Command W (Backup × Stream)
