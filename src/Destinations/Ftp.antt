-- ===== src/Destinations/Ftp.antt =====
-- destinations/ftp.go over the calls of the goftp client that it makes.
use uback.Base.{
  ◌==◌, ◌&&◌, List, [], ◌∷◌, Bytes, codes, ◌++◌, is_empty, if◌then◌else◌, Result, ok, err, split,
  equal,
}
use uback.Base.Commands.{Command}
use uback.Snapshot.{Backup, filename}
use uback.Interfaces.{Stream}
use uback.Options.{Options, get}
use uback.Destinations.{Entry, listed_backups}

-- The client; `retrieve` is what comes out of the pipe, and `join` is `path.Join`.
pub record Client : Type 1 where
  pub State : Type 0
  pub join : Bytes → Bytes → Bytes
  pub make_directory : Bytes → Command State (Unit {0})
  pub read_directory : Bytes → State → Result (List Entry)
  pub store : Bytes → Stream → Command State (Unit {0})
  pub rename : Bytes → Bytes → Command State (Unit {0})
  pub delete : Bytes → Command State (Unit {0})
  pub retrieve : Bytes → State → Stream

-- `strings.Trim(s, "/")`
unfoldable pub trim_left_slashes : Bytes → Bytes
trim_left_slashes [] = []
trim_left_slashes (c ∷ s) = let rest = trim_left_slashes s in if c == b'/' then rest else c ∷ s

unfoldable pub trim_right_slashes : Bytes → Bytes
trim_right_slashes [] = []
trim_right_slashes (c ∷ s) =
    let rest = trim_right_slashes s in if is_empty rest && (c == b'/') then [] else c ∷ rest

unfoldable pub trim_slashes : Bytes → Bytes
unfolding trim_left_slashes trim_right_slashes
trim_slashes s = trim_right_slashes (trim_left_slashes s)

-- The prefix that the constructor computes.
unfoldable pub ftp_prefix : Options → Bytes
unfolding trim_slashes
ftp_prefix o =
    let prefix = trim_slashes (get (codes "Prefix") o) ++ b'/' ∷ [] in
    if equal prefix (codes "/") then [] else prefix

module _ (C : Client) (prefix : Bytes) where
  -- Each directory on the way; their errors are dropped by the callers.
  unfoldable pub make_directories : Bytes → List Bytes → C.State → C.State
  make_directories current [] s = s
  make_directories current (d ∷ ds) s =
      make_directories (C.join current d) ds (C.make_directory (C.join current d) s).0

  unfoldable pub make_prefix : C.State → C.State
  unfolding make_directories trim_slashes
  make_prefix s =
      let parts = split b'/' (trim_slashes prefix) in
      if is_empty prefix then s else make_directories [] (parts.0 ∷ parts.1) s

  -- Listing makes the prefix too.
  unfoldable pub list_backups : C.State → C.State × Result (List Backup)
  unfolding make_prefix
  list_backups s = elim (C.read_directory prefix (make_prefix s)) [
    | err e ↦ (make_prefix s, err e)
    | ok entries ↦ (make_prefix s, ok (listed_backups entries))
  ]

  abbrev pub final_path : Backup → Bytes
  final_path b = C.join prefix (filename b)

  abbrev pub temporary_path : Backup → Bytes
  temporary_path b = C.join prefix (codes "_tmp" ++ filename b)

  -- A renaming that fails deletes the temporary file.
  unfoldable pub delete_unrenamed :
      Bytes → C.State × Result (Unit {0}) → C.State × Result (Unit {0})
  delete_unrenamed path (s, err e) = ((C.delete path s).0, err e)
  delete_unrenamed path (s, ok done) = (s, ok done)

  unfoldable pub rename_stored : Backup → C.State × Result (Unit {0}) → C.State × Result (Unit {0})
  unfolding delete_unrenamed
  rename_stored b (s, err e) = (s, err e)
  rename_stored b (s, ok done) =
      delete_unrenamed (temporary_path b) (C.rename (temporary_path b) (final_path b) s)

  unfoldable pub send_backup : Backup → Stream → C.State → C.State × Result (Unit {0})
  unfolding rename_stored make_prefix
  send_backup b stream s = rename_stored b (C.store (temporary_path b) stream (make_prefix s))

  unfoldable pub remove_backup : Backup → C.State → C.State × Result (Unit {0})
  remove_backup b = C.delete (final_path b)

  unfoldable pub receive_backup : Backup → C.State → Result Stream
  receive_backup b s = ok (C.retrieve (final_path b) s)
