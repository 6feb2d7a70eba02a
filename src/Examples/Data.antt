-- ===== src/Examples/Data.antt =====
-- Backups of which the last is incremental, and policies.
use uback.Base.{ℕ, false, none, some, List, [], ◌∷◌, Bytes, Dict, codes, pos, Result, ok, err}
use uback.Snapshot.{Snapshot, Backup}
use uback.Snapshot.Time.{backup_time}
use uback.Retention.{RetentionPolicy}

abbrev pub day_one : Snapshot
day_one = codes "20210101T000000.000"

abbrev pub day_two : Snapshot
day_two = codes "20210102T000000.000"

abbrev pub day_three : Snapshot
day_three = codes "20210103T000000.000"

abbrev pub full_one : Backup
full_one = record { snapshot = day_one; base_snapshot = none }

abbrev pub next_two : Backup
next_two = record { snapshot = day_two; base_snapshot = some day_one }

abbrev pub full_zero : Backup
full_zero = record { snapshot = codes "20201231T000000.000"; base_snapshot = none }

abbrev pub two_backups : List Backup
two_backups = next_two ∷ full_one ∷ []

abbrev pub three_backups : List Backup
three_backups = next_two ∷ full_one ∷ full_zero ∷ []

-- `weekly=1`
abbrev pub one_a_week : RetentionPolicy
one_a_week = record { interval = pos 604800; count = pos 1; full_only = false }

-- `daily=2`
abbrev pub two_a_day : RetentionPolicy
two_a_day = record { interval = pos 86400; count = pos 2; full_only = false }

-- The last backup of a destination was made on the first day.
abbrev pub used_state : Dict Bytes
used_state = (codes "home", day_one) ∷ (codes "office", day_two) ∷ []

-- The milliseconds of the snapshots' times.
abbrev pub time_of : Result ℕ → ℕ
time_of (ok t) = t
time_of (err e) = 0

abbrev pub time_at : Backup → ℕ
time_at b = time_of (backup_time b)
