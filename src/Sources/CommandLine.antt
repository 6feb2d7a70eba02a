-- ===== src/Sources/CommandLine.antt =====
-- sources/command.go over the runs of the command that it makes.
use uback.Base.{
  false, Option, none, some, List, [], ◌∷◌, ◌++◌, Bytes, codes, has_prefix, drop, trim_space,
  if◌then◌else◌, Result, ok, err, Error,
}
use uback.Base.Commands.{Command, ◌>>=◌, ask}
use uback.Snapshot.{Snapshot, Backup}
use uback.Snapshot.Filename.{parse_backup_filename}
use uback.Interfaces.{Stream}
use uback.Options.{Options, Packages, get_command}
use uback.Container.{read_line}
use uback.Destinations.CommandLine.{Shell, variables, whole_lines}
use uback.System.{silent}
use uback.Sources.{listed_names}

-- The type that the command prints; a colon in front stands for a type of its own.
unfoldable pub command_type : Bytes → Bytes
command_type typ =
    if has_prefix typ (codes "command:")
    then typ
    else if has_prefix typ (codes ":")
    then drop 1 typ
    else codes "command:" ++ typ

-- Each line is trimmed before it is read; an empty one is no snapshot's name.
unfoldable pub trimmed : List Bytes → List Bytes
trimmed [] = []
trimmed (l ∷ ls) = trim_space l ∷ trimmed ls

abbrev pub parsed_line : Result Backup → Stream → Result (Backup × Stream)
parsed_line (ok b) stream = ok (b, stream)
parsed_line (err e) stream = err e

abbrev pub parsed_stream : Option (Bytes × Bytes) → Option Error → Result (Backup × Stream)
parsed_stream none none = err Error.unexpected_eof
parsed_stream none (some e) = err e
parsed_stream (some (line, rest)) failure =
    parsed_line (parse_backup_filename (trim_space line) false)
      (record { content = rest; failure = failure })

module _ (X : Shell) where
  abbrev pub words : List Bytes → Bytes → List Bytes → List Bytes
  words command operation arguments = command ++ (codes "source" ∷ operation ∷ arguments)

  abbrev pub typed :
      List Bytes
      → List Bytes
      → X.State × Result Bytes
      → X.State × Result ((List Bytes × List Bytes) × Bytes)
  typed command env (s, ok output) = (s, ok ((command, env), command_type (trim_space output)))
  typed command env (s, err e) = (s, err e)

  -- The command with its environment, and the type.
  unfoldable pub new_command_source :
      Packages → Options → X.State → X.State × Result ((List Bytes × List Bytes) × Bytes)
  unfolding command_type
  new_command_source P o s = elim (get_command P o (codes "Command") []) [
    | [] ↦ (s, err Error.missing_option)
    | w ∷ ws ↦
        typed (w ∷ ws) (variables X o)
          (X.run (words (w ∷ ws) (codes "type") []) (variables X o) none s)
  ]

  module _ (command env : List Bytes) where
    abbrev pub listed : X.State × Result Bytes → X.State × Result (List Snapshot)
    listed (s, err e) = (s, err e)
    listed (s, ok output) = (s, ok (listed_names (trimmed (whole_lines [] output))))

    unfoldable pub list_snapshots : Bytes → X.State → X.State × Result (List Snapshot)
    unfolding trimmed
    list_snapshots kind s = listed (X.run (words command (codes "list-" ++ kind) []) env none s)

    unfoldable pub list_archives : X.State → X.State × Result (List Snapshot)
    unfolding list_snapshots
    list_archives = list_snapshots (codes "archives")

    unfoldable pub list_bookmarks : X.State → X.State × Result (List Snapshot)
    unfolding list_snapshots
    list_bookmarks = list_snapshots (codes "bookmarks")

    unfoldable pub remove_archive : Snapshot → Command X.State (Unit {0})
    remove_archive k s = silent (X.run (words command (codes "remove-archive") (k ∷ [])) env none s)

    unfoldable pub remove_bookmark : Snapshot → Command X.State (Unit {0})
    remove_bookmark k s =
        silent (X.run (words command (codes "remove-bookmark") (k ∷ [])) env none s)

    abbrev pub base_word : Option Snapshot → List Bytes
    base_word none = []
    base_word (some base) = base ∷ []

    -- The first line of the output names the backup, the rest is its content. A command whose line is not
    -- understood is killed.
    unfoldable pub create_backup : Option Snapshot → Command X.State (Backup × Stream)
    create_backup base = do
      stream ← X.start (words command (codes "create-backup") (base_word base)) env
      ask (λ s. parsed_stream (read_line stream.content) stream.failure)

    -- The options are not given to this run.
    unfoldable pub restore_backup : Bytes → Backup → Stream → Command X.State (Unit {0})
    restore_backup target b stream s = silent (
        X.run
          (words command (codes "restore-backup") (target ∷ b.snapshot ∷ base_word b.base_snapshot))
          X.environment (some stream) s)
