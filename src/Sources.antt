-- ===== src/Sources.antt =====
-- The sources of sources/, over the calls that each makes.
pub mod Tar
pub mod CommandLine
pub mod Btrfs
pub mod Zfs
pub mod MariaBackup
pub mod Constructor
use uback.Base.{
  ℕ, Bool, true, false, not, ◌&&◌, ◌||◌, Option, none, some, List, [], ◌∷◌, Bytes, codes,
  has_prefix, if◌then◌else◌, Result, ok, err, ◌>>=◌, ℤ, pos, scale, leb_ℤ,
}
use uback.Snapshot.{Snapshot}
use uback.Snapshot.Time.{snapshot_time}
use uback.Snapshot.Filename.{is_snapshot_name}
use uback.Retention.{elapsed}
use uback.System.{Entry}

abbrev pub is_hidden : Bytes → Bool
is_hidden name = has_prefix name (codes ".") || has_prefix name (codes "_")

-- The snapshots among the entries: directories where they are wanted, and else files. Another name is logged.
unfoldable pub listed_snapshots : Bool → List Entry → List Snapshot
listed_snapshots directories [] = []
listed_snapshots directories ((name, is_dir) ∷ es) =
    let rest = listed_snapshots directories es in
    let wanted = if directories then is_dir else not is_dir in
    if not (is_hidden name) && wanted && is_snapshot_name name then name ∷ rest else rest

-- The snapshots among texts.
unfoldable pub listed_names : List Bytes → List Snapshot
listed_names [] = []
listed_names (name ∷ names) =
    let rest = listed_names names in
    if not (is_hidden name) && is_snapshot_name name then name ∷ rest else rest

-- Whether the snapshot is at most so many seconds old.
unfoldable pub is_recent : ℤ → ℕ → ℕ → Bool
is_recent seconds now t = leb_ℤ (elapsed now t) (scale seconds 1000000000)

-- What is sent: the newest snapshot if it is recent, or one of the given name.
pub record Chosen : Type 0 where
  pub snapshot : Snapshot
  pub reused : Bool

-- The choice from the sorted snapshots; `ReuseSnapshots` is zero if it is not set.
unfoldable pub choose_snapshot : ℤ → ℕ → Snapshot → List Snapshot → Result Chosen
unfolding is_recent
choose_snapshot reuse now fresh [] = ok (record { snapshot = fresh; reused = false })
choose_snapshot reuse now fresh (s ∷ ss) = snapshot_time s >>= λ t. ok (
    if is_recent reuse now t
    then record { snapshot = s; reused = true }
    else record { snapshot = fresh; reused = false })
