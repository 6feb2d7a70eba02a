-- ===== src/Snapshot.antt =====
-- Snapshots and backups: lib/interfaces.go, and their names in lib/utils.go.
pub mod Filename
pub mod Time
use uback.Base.{
  ◌++◌, Bool, true, false, Option, none, some, Bytes, codes, compare_bytes, Ordering, ◌≡◌, refl,
}

-- `type Snapshot string`
abbrev pub Snapshot : Type 0
Snapshot = Bytes

-- `none` is the nil base of a full backup.
pub record Backup : Type 0 where
  pub snapshot : Snapshot
  pub base_snapshot : Option Snapshot

abbrev pub snapshot_name : Snapshot → Bytes
snapshot_name s = s

abbrev pub snapshot_is_full : Snapshot → Bool
snapshot_is_full s = true

abbrev pub name : Backup → Bytes
name b = snapshot_name b.snapshot

abbrev pub is_full_base : Option Snapshot → Bool
is_full_base none = true
is_full_base (some s) = false

abbrev pub is_full : Backup → Bool
is_full b = is_full_base b.base_snapshot

full_name_of : Snapshot → Option Snapshot → Bytes
full_name_of s none = snapshot_name s ++ codes "-full"
full_name_of s (some base) = snapshot_name s ++ (codes "-from-" ++ snapshot_name base)

unfoldable pub full_name : Backup → Bytes
unfolding full_name_of
full_name b = full_name_of b.snapshot b.base_snapshot

unfoldable pub filename : Backup → Bytes
filename b = full_name b ++ codes ".ubkp"

abbrev pub compare_snapshots : Snapshot → Snapshot → Ordering
compare_snapshots a b = compare_bytes a b

abbrev pub compare_backups : Backup → Backup → Ordering
compare_backups a b = compare_snapshots a.snapshot b.snapshot
