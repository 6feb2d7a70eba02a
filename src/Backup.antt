-- ===== src/Backup.antt =====
-- `uback backup` (cmd/backup.go): which snapshot the new backup is made from.
pub mod Choice
pub mod Extension
pub mod Run
use uback.Base.{
  ℕ, Bool, true, false, not, ◌&&◌, ◌||◌, Option, none, some, List, [], ◌∷◌, Bytes, codes, Names,
  add, member, ℤ, is_empty, if◌then◌else◌, Result, ok, err, ◌>>=◌,
}
use uback.Snapshot.{Snapshot, Backup}
use uback.Snapshot.Time.{backup_time}
use uback.Interfaces.{Source, Destination}
use uback.Sorting.{sorted_list_backups, sorted_list_archives, sorted_list_bookmarks}
use uback.Retention.{due}
use uback.Retention.Interval.{parse_interval}
use uback.Retention.Snapshots.{names_onto}

-- `snapshotsSet`
unfoldable pub snapshots_set : List Snapshot → List Snapshot → Names
unfolding names_onto
snapshots_set bookmarks archives = names_onto (names_onto [] bookmarks) archives

-- `lastFull` and `lastCommon`.
pub record Found : Type 0 where
  pub last_full : Option Backup
  pub last_common : Option Snapshot

abbrev pub is_none {ℓ} : {A : Type ℓ} → Option A → Bool
is_none none = true
is_none (some a) = false

abbrev pub nothing_found : Found
nothing_found = record { last_full = none; last_common = none }

-- The body of the loop over the backups.
unfoldable pub look_at : Names → Found → Backup → Found
look_at set f b = record {
  last_full = if is_none b.base_snapshot && is_none f.last_full then some b else f.last_full;
  last_common =
      if member b.snapshot set && is_none f.last_common then some b.snapshot else f.last_common;
}

-- The loop, which stops when it has found both.
unfoldable pub look_through : Names → Found → List Backup → Found
unfolding look_at
look_through set f [] = f
look_through set f (b ∷ bs) =
    let g = look_at set f b in
    let rest = look_through set g bs in
    if not (is_none g.last_full) && not (is_none g.last_common) then g else rest

-- The choice from what was found: no full backup, no common snapshot, or the last full one is too old.
unfoldable pub choose_found : ℤ → ℕ → Option Backup → Option Snapshot → Result (Option Snapshot)
choose_found interval now none common = ok none
choose_found interval now (some full) none = ok none
choose_found interval now (some full) (some common) =
    backup_time full >>= λ t. ok (if due interval now t then none else some common)

-- The options of the source that the choice reads; a missing option is the empty text.
pub record BackupOptions : Type 0 where
  pub force_full : Bool
  pub state_file : Bytes
  pub full_interval : Bytes

-- `lastCommon` as it is given to `CreateBackup`; `now` is in milliseconds.
unfoldable pub choose_base : BackupOptions → ℕ → Names → List Backup → Result (Option Snapshot)
unfolding choose_found look_through
choose_base o now set backups =
    if o.force_full || is_empty o.state_file || is_empty o.full_interval
    then ok none
    else (parse_interval o.full_interval >>= λ interval.
        let found = look_through set nothing_found backups in
        choose_found interval now found.last_full found.last_common)

-- The lists, sorted, and the base that they lead to.
unfoldable pub plan_backup :
    (S : Source) (D : Destination)
    → BackupOptions
    → ℕ
    → S.State
    → D.State
    → Result (List Backup × Option Snapshot)
plan_backup S D o now source destination = sorted_list_backups D destination >>= λ backups.
    sorted_list_bookmarks S source >>= λ bookmarks. sorted_list_archives S source >>= λ archives.
    choose_base o now (snapshots_set bookmarks archives) backups >>= λ base. ok (backups, base)
