-- ===== src/Interfaces.antt =====
-- The interfaces `Source` and `Destination` of lib/interfaces.go, over the state that an implementation
-- keeps outside the program, and what a caller may rely on.
pub mod Acting
use uback.Base.{◌≡◌, true, false, Option, List, Bytes, member, equal, Result, ok, Error}
use uback.Snapshot.{Snapshot, Backup}

-- What an `io.Reader` delivers: bytes, and then the end or an error.
pub record Stream : Type 0 where
  pub content : Bytes
  pub failure : Option Error

pub record Destination : Type 1 where
  pub State : Type 0
  pub list_backups : State → Result (List Backup)
  pub remove_backup : Backup → State → State × Result (Unit {0})
  pub send_backup : Backup → Stream → State → State × Result (Unit {0})
  pub receive_backup : Backup → State → Result Stream

pub record Source : Type 1 where
  pub State : Type 0
  pub list_archives : State → Result (List Snapshot)
  pub remove_archive : Snapshot → State → State × Result (Unit {0})
  pub list_bookmarks : State → Result (List Snapshot)
  pub remove_bookmark : Snapshot → State → State × Result (Unit {0})
  pub create_backup : Option Snapshot → State → State × Result (Backup × Stream)
  pub restore_backup : Bytes → Backup → Stream → State → State × Result (Unit {0})

-- A removal, whether it succeeds or not, leaves every other snapshot of the source in its list.
pub record KeepsOthers (S : Source) : Type 0 where
  pub archives : S.State → List Snapshot
  pub bookmarks : S.State → List Snapshot
  pub list_archives-archives : (s : S.State) → S.list_archives s ≡ ok (archives s)
  pub list_bookmarks-bookmarks : (s : S.State) → S.list_bookmarks s ≡ ok (bookmarks s)
  pub archives-remove_archive :
      (s : S.State) (a k : Snapshot)
      → equal k a ≡ false
      → member k (archives s) ≡ true
      → member k (archives (S.remove_archive a s).0) ≡ true
  pub bookmarks-remove_archive :
      (s : S.State) (a k : Snapshot)
      → member k (bookmarks s) ≡ true
      → member k (bookmarks (S.remove_archive a s).0) ≡ true
  pub archives-remove_bookmark :
      (s : S.State) (a k : Snapshot)
      → member k (archives s) ≡ true
      → member k (archives (S.remove_bookmark a s).0) ≡ true
  pub bookmarks-remove_bookmark :
      (s : S.State) (a k : Snapshot)
      → equal k a ≡ false
      → member k (bookmarks s) ≡ true
      → member k (bookmarks (S.remove_bookmark a s).0) ≡ true
