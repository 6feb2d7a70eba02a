-- ===== src/Lib.antt =====
-- uback, a backup tool (github.com/sloonz/uback). A source makes backups of its data from snapshots, in full
-- or against a base snapshot; a destination keeps them, each under a file name that tells its snapshot and
-- its base; retention policies say which are pruned; a state file tells, for each destination, the snapshot
-- of its last backup.
--
-- Parts, and the code that they model:
--   * Snapshot: lib/interfaces.go and the names of lib/utils.go. Snapshot.Filename is ParseBackupFilename
--     with its regular expression as matchers over bytes, Snapshot.Time the parsing of a name's time.
--   * Chain: MakeIndex and GetFullChain of lib/utils.go. Chain.Links says what a chain is.
--   * Interfaces: Source and Destination, each as operations over the state that it keeps outside.
--   * Sorting: the SortedList functions of lib/utils.go.
--   * Retention: lib/retention.go, parsing (Interval, Policy), applying (Apply), what is pruned (Backups,
--     Snapshots). Prune: the removals there, and cmd/prune.go.
--   * Options: lib/options.go (Split is its regular expression), the keys of lib/utils.go (Keys), and
--     the builder of cmd/options.go with ReadPresets (Reads).
--   * Container: container/container.go.
--   * Destinations: Fs, Ftp, ObjectStorage and CommandLine are destinations/fs.go, ftp.go,
--     object-storage.go and command.go, over the client or the calls that each uses.
--   * System: the calls of packages os and os/exec, with CopyFile, BuildCommand, RunCommand and
--     WrapSourceCommand of lib/utils.go. Destinations.Btrfs and Destinations.Zfs, and Sources with Tar,
--     Btrfs, Zfs and MariaBackup, run on it; Sources.CommandLine is sources/command.go. The two modules
--     Constructor are destinations/new.go and sources/new.go.
--   * Proxy: lib/proxy.go, with the constructors of sources/proxy.go and destinations/proxy.go; their
--     operations are in Proxy.Client, the handlers of cmd/proxy.go in Proxy.Server.
--   * Tools: cmd/container.go, cmd/keygen.go and cmd/preset.go.
--   * Backup: cmd/backup.go; Backup.Run is the whole run, in a state of source, destination and state file.
--   * Restore: cmd/restore.go, cmd/fetch.go and cmd/list.go.
--   * History: sequences of the commands of cmd/ on one source and one destination, as a step relation, over laws
--     that Destinations.Fs.Kept fills for the fs destination, and Sources.Tar.Adding for the tar source.
--   * Base: what the others share. Examples: the theorems at concrete data, and small tests.
--
-- A text is the list of its bytes, an int is an integer in the bounds of 64 bits that ParseInterval wraps at,
-- a map is a list of keys with values, an error is a value of Base.Errors. A call of logrus.Fatal ends a
-- command with its error; what is only logged is left out.
--
-- Bounds. GetFullChain, and all that calls it, runs on fuel, one more than there are backups; where bases
-- are older than their backups that is enough. Presets that name presets run on fuel too, and an error tells
-- that it is used up.
--
-- Simplifications. Times are milliseconds since the year 0, which is what a snapshot's name can say. The
-- comparison of float64 seconds is taken as the exact one of rationals. sort.Slice is an insertion sort,
-- which is what it does on short slices; on different names every sort gives the same list. The maps
-- that are ranged over are only read by membership. The state file is taken decoded. A stream is
-- the bytes that it delivers, with an error at its end.
--
-- Parameters stand for packages zstd, age, sha256, flect, shlex, json, text/template, yamux and net/rpc, the
-- clients of ftp and object storage, and packages os and os/exec. The two scripts that are embedded into the
-- mariabackup source are given as bytes. Not modelled: the command line itself (cmd/root.go and main.go), file
-- modes, log messages, and how the goroutines of a pipe interleave: a stream is what it delivers until its end, and
-- the state that goes with it is the one behind the last read.
pub mod Base
pub mod Snapshot
pub mod Chain
pub mod Retention
pub mod Interfaces
pub mod Sorting
pub mod Prune
pub mod Options
pub mod System
pub mod Destinations
pub mod Sources
pub mod Container
pub mod Proxy
pub mod Restore
pub mod Backup
pub mod History
pub mod Tools
pub mod Examples
