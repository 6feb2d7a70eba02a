-- ===== src/System.antt =====
-- The calls of packages os and os/exec that the sources and destinations make, and what lib/utils.go
-- builds from them: CopyFile, BuildCommand, RunCommand and WrapSourceCommand.
use uback.Base.{ℕ, Bool, Option, none, some, List, ◌++◌, Bytes, Result, ok, err, Error}
use uback.Base.Commands.{Command, ◌>>=◌, ◌>>◌, ask}
use uback.Snapshot.{Snapshot, Backup}
use uback.Interfaces.{Stream}

-- A directory entry: its name, and whether it is a directory.
abbrev pub Entry : Type 0
Entry = Bytes × Bool

-- The error of `cmd.Wait`, with the exit code of an `exec.ExitError`.
pub record Failure : Type 0 where
  pub error : Error
  pub code : Option ℕ

-- A command that is not started, or all that it wrote to its standard output and how it ended.
pub data Outcome : Type 0 where
  not_started : Error → Outcome
  finished : Bytes → Option Failure → Outcome

-- `stamp` is the clock `now`, in milliseconds, formatted as a snapshot; `join` is `path.Join`. The words of
-- a command come with its environment, `none` for that of the process, and its standard input.
-- `create_temporary` is `os.CreateTemp`, and gives the new file's name; `write` and `sync` are of an open file.
pub record System : Type 1 where
  pub State : Type 0
  pub now : State → ℕ
  pub stamp : State → Snapshot
  pub join : Bytes → Bytes → Bytes
  pub make_directories : Bytes → Command State (Unit {0})
  pub read_directory : Bytes → State → Result (List Entry)
  pub open_file : Bytes → State → Result Stream
  pub create : Bytes → Command State (Unit {0})
  pub copy : Bytes → Stream → Command State (Unit {0})
  pub rename : Bytes → Bytes → Command State (Unit {0})
  pub remove : Bytes → Command State (Unit {0})
  pub remove_all : Bytes → Command State (Unit {0})
  pub read_file : Bytes → State → Result Bytes
  pub write_file : Bytes → Bytes → Command State (Unit {0})
  pub create_temporary : Bytes → Command State Bytes
  pub write : Bytes → Bytes → Command State (Unit {0})
  pub sync : Bytes → Command State (Unit {0})
  pub execute : List Bytes → Option (List Bytes) → Option Stream → State → State × Outcome

abbrev pub outcome_result : {St : Type 0} → St × Outcome → St × Result Bytes
outcome_result (s, not_started e) = (s, err e)
outcome_result (s, finished output none) = (s, ok output)
outcome_result (s, finished output (some f)) = (s, err f.error)

abbrev pub silent : {St : Type 0} {A : Type 0} → St × Result A → St × Result (Unit {0})
silent (s, ok a) = (s, ok tt)
silent (s, err e) = (s, err e)

-- The state behind a step whose error is dropped.
abbrev pub ignore : {St : Type 0} {A : Type 0} → Command St A → Command St (Unit {0})
ignore m s = ((m s).0, ok tt)

abbrev pub failure_of : {A : Type 0} → Result A → Option Error
failure_of (ok a) = none
failure_of (err e) = some e

-- `BuildCommand`
abbrev pub build_command : List Bytes → List Bytes → List Bytes
build_command command arguments = command ++ arguments

module _ (O : System) where
  -- The file mode is the source's, and is left out.
  unfoldable pub copy_file : Bytes → Bytes → Command O.State (Unit {0})
  copy_file dst src = do stream ← ask (O.open_file src); O.create dst; O.copy dst stream

  -- A command whose standard output is kept.
  unfoldable pub output_of : List Bytes → Command O.State Bytes
  output_of words s = outcome_result (O.execute words none none s)

  -- `RunCommand`
  unfoldable pub run_command : List Bytes → Option Stream → Command O.State (Unit {0})
  run_command words input s = silent (outcome_result (O.execute words none input s))

  abbrev pub wrapped :
      Backup
      → (Option Failure → Command O.State (Unit {0}))
      → O.State × Outcome
      → O.State × Result (Backup × Stream)
  wrapped b finalize (s, not_started e) = (s, err e)
  wrapped b finalize (s, finished output failure) =
      let (s', r) = finalize failure s in
      (s', ok (b, record { content = output; failure = failure_of r }))

  -- `WrapSourceCommand`: the reader ends with the error that `finalize` makes of the command's. The state
  -- is the one behind the last read.
  unfoldable pub wrap_source_command :
      Backup
      → List Bytes
      → (Option Failure → Command O.State (Unit {0}))
      → Command O.State (Backup × Stream)
  wrap_source_command b words finalize s = wrapped b finalize (O.execute words none none s)

-- `finalize` of a source that has none.
abbrev pub keep_failure : {St : Type 0} → Option Failure → Command St (Unit {0})
keep_failure none s = (s, ok tt)
keep_failure (some f) s = (s, err f.error)
