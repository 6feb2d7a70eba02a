-- ===== src/Retention.antt =====
-- Retention policies, lib/retention.go: the policy and the interface of what it is applied to.
pub mod Due
pub mod Interval
pub mod Policy
pub mod Apply
pub mod Backups
pub mod Snapshots
mod Tests
use uback.Base.{
  ℕ, ◌*◌, ◌+◌, ◌≤◌, Bool, Bytes, ℤ, pos, sub_ℕ, scale, saturate, leb_ℤ, Result, pos_part, neg_part,
  leb,
}
use uback.Snapshot.{Snapshot, Backup, name, is_full, snapshot_name, snapshot_is_full}
use uback.Snapshot.Time.{snapshot_time, backup_time}

-- `Interval` is in seconds.
pub record RetentionPolicy : Type 0 where
  pub interval : ℤ
  pub count : ℤ
  pub full_only : Bool

-- Times are milliseconds.
pub record RetentionPolicySubject (A : Type 0) : Type 0 where
  pub time : A → Result ℕ
  pub full : A → Bool
  pub called : A → Bytes

abbrev pub backup_subject : RetentionPolicySubject Backup
backup_subject = record { time = backup_time; full = is_full; called = name }

abbrev pub snapshot_subject : RetentionPolicySubject Snapshot
snapshot_subject = record { time = snapshot_time; full = snapshot_is_full; called = snapshot_name }

-- `last.Sub(t)` in nanoseconds.
abbrev pub elapsed : ℕ → ℕ → ℤ
elapsed last t = saturate (sub_ℕ (last * 1000000) (t * 1000000))

-- `last.Sub(t).Seconds() >= 0.9*float64(interval)`, with the quotients cleared: ten times the
-- nanoseconds against 9e9 times the interval.
unfoldable pub due : ℤ → ℕ → ℕ → Bool
unfolding saturate
due interval last t = leb_ℤ (scale interval 9000000000) (scale (elapsed last t) 10)
