-- ===== src/Tools.antt =====
-- The commands of cmd/container.go, cmd/keygen.go and cmd/preset.go, after their flags are read.
pub mod Containers
pub mod KeyPairs
pub mod Presets
use uback.Base.{Bytes, Result}
use uback.Base.Commands.{Command}
use uback.Interfaces.{Stream}

-- The files and the terminal. `create_file` opens a file to be written, and empties it; `is_missing` is
-- `os.IsNotExist`.
pub record Terminal : Type 1 where
  pub State : Type 0
  pub standard_input : State → Stream
  pub open_file : Bytes → State → Result Stream
  pub read_file : Bytes → State → Result Bytes
  pub create_file : Bytes → Command State (Unit {0})
  pub write_file : Bytes → Bytes → Command State (Unit {0})
  pub remove : Bytes → Command State (Unit {0})
  pub make_directories : Bytes → Command State (Unit {0})
  pub print : Bytes → Command State (Unit {0})
