-- ===== src/Destinations/CommandLine.antt =====
-- destinations/command.go over the runs of the command that it makes.
use uback.Base.{
  ◌==◌, false, ◌||◌, Option, none, some, List, [], ◌∷◌, Bytes, codes, ◌++◌, is_empty, if◌then◌else◌,
  map, Result, ok, err, Error, has_prefix, trim_space,
}
use uback.Base.Commands.{Command}
use uback.Snapshot.{Backup, full_name}
use uback.Snapshot.Filename.{parse_backup_filename}
use uback.Interfaces.{Stream}
use uback.Options.{Options, Packages, get_command}
use uback.Destinations.{with_parsed}

-- `exec.Cmd`: the words, the variables of the environment and the standard input lead to the standard
-- output or an error. `start` is a run whose output is read as it comes. `option_name` is
-- `flect.New(k).Underscore().ToUpper()`, and `marshal` is `json.Marshal`.
pub record Shell : Type 1 where
  pub State : Type 0
  pub environment : List Bytes
  pub run : List Bytes → List Bytes → Option Stream → Command State Bytes
  pub start : List Bytes → List Bytes → Command State Stream
  pub option_name : Bytes → Bytes
  pub marshal : List Bytes → Bytes

-- The lines, each with its newline; what follows the last newline is dropped.
unfoldable pub whole_lines : Bytes → Bytes → List Bytes
whole_lines line [] = []
whole_lines line (c ∷ s) =
    let rest = whole_lines (if c == b'\n' then [] else line ++ c ∷ []) s in
    if c == b'\n' then line ∷ rest else rest

unfoldable pub listed_lines : List Bytes → List Backup
listed_lines [] = []
listed_lines (l ∷ ls) =
    let rest = listed_lines ls in
    let entry = trim_space l in
    if is_empty entry || has_prefix entry (codes ".") || has_prefix entry (codes "_")
    then rest
    else with_parsed (parse_backup_filename entry false) rest

module _ (X : Shell) where
  abbrev pub string_variable : Bytes × Bytes → Bytes
  string_variable (k, v) = codes "UBACK_OPT_" ++ (X.option_name k ++ (b'=' ∷ v))

  abbrev pub slice_variable : Bytes × List Bytes → Bytes
  slice_variable (k, v) = codes "UBACK_SOPT_" ++ (X.option_name k ++ (b'=' ∷ X.marshal v))

  unfoldable pub variables : Options → List Bytes
  variables o = X.environment ++ (map string_variable o.strings ++ map slice_variable o.slices)

  abbrev pub without_output : X.State × Result Bytes → X.State × Result (Unit {0})
  without_output (s, ok output) = (s, ok tt)
  without_output (s, err e) = (s, err e)

  abbrev pub words : List Bytes → Bytes → List Bytes → List Bytes
  words command operation arguments = command ++ (codes "destination" ∷ operation ∷ arguments)

  abbrev pub validated :
      List Bytes → List Bytes → X.State × Result Bytes → X.State × Result (List Bytes × List Bytes)
  validated command env (s, ok output) = (s, ok (command, env))
  validated command env (s, err e) = (s, err e)

  -- The command and the environment, once the command accepts the options.
  unfoldable pub new_command_destination :
      Packages → Options → X.State → X.State × Result (List Bytes × List Bytes)
  unfolding variables
  new_command_destination P o s = elim (get_command P o (codes "Command") []) [
    | [] ↦ (s, err Error.missing_option)
    | w ∷ ws ↦
        validated (w ∷ ws) (variables o)
          (X.run (words (w ∷ ws) (codes "validate-options") []) (variables o) none s)
  ]

  module _ (command env : List Bytes) where
    abbrev pub listed_output : X.State × Result Bytes → X.State × Result (List Backup)
    listed_output (s, err e) = (s, err e)
    listed_output (s, ok output) = (s, ok (listed_lines (whole_lines [] output)))

    unfoldable pub list_backups : X.State → X.State × Result (List Backup)
    unfolding whole_lines listed_lines
    list_backups s = listed_output (X.run (words command (codes "list-backups") []) env none s)

    unfoldable pub remove_backup : Backup → X.State → X.State × Result (Unit {0})
    remove_backup b s =
        without_output (X.run (words command (codes "remove-backup") (full_name b ∷ [])) env none s)

    unfoldable pub send_backup : Backup → Stream → X.State → X.State × Result (Unit {0})
    send_backup b stream s =
        without_output
          (X.run (words command (codes "send-backup") (full_name b ∷ [])) env (some stream) s)

    -- A reader of a backup does not tell what the run changes.
    unfoldable pub receive_backup : Backup → X.State → Result Stream
    receive_backup b s =
        (X.start (words command (codes "receive-backup") (full_name b ∷ [])) env s).1
