-- ===== src/Examples/Pruning.antt =====
-- Pruning at concrete backups and snapshots.
use uback.Base.{
  ◌≡◌, ◌≤◌, refl, true, not, ◌&&◌, ◌||◌, List, [], ◌∷◌, ok, member, values, insert, distinct,
  filter, map, length, arith, here, there, lookup, equal,
}
use uback.Snapshot.{Backup, name}
use uback.Base.{cut_prefix, add}
use uback.Snapshot.Time.{snapshot_time}
use uback.Retention.{backup_subject, due}
use uback.Retention.Apply.{apply_retention_policies}
use uback.Retention.Apply.Quota.{add_all, taken_all}
use uback.Retention.Apply.Taken.{
  apply_retention_policies-taken, apply_retention_policies-Apart, apply_retention_policies-first,
  Apart,
}
use uback.Retention.Backups.{get_pruned_backups}
use uback.Retention.Backups.Restorable.{get_pruned_backups-IsRestorable, left_of}
use uback.Retention.Snapshots.{get_pruned_snapshots}
use uback.Retention.Snapshots.Used.{get_pruned_snapshots_lem}
use uback.Chain.{make_index}
use uback.Chain.Links.{IsRestorable}
use uback.Prune.{prune_snapshots}
use uback.Prune.Keeps.{prune_snapshots-keeps}
use uback.Examples.Memory.{Lists, memory_source, memory_source-KeepsOthers}
use uback.Examples.Data.{
  day_one, day_two, day_three, full_one, next_two, full_zero, three_backups, one_a_week, two_a_day,
  time_at, used_state,
}

get_pruned_backups-IsRestorable_example :
    IsRestorable (make_index (left_of three_backups (full_zero ∷ []))) next_two
unfolding get_pruned_backups member distinct filter equal uback.Chain.get_full_chain lookup
    make_index insert apply_retention_policies snapshot_time cut_prefix add
get_pruned_backups-IsRestorable_example =
    get_pruned_backups-IsRestorable three_backups one_a_week [] (full_zero ∷ []) next_two refl refl
      (here refl)

-- The first day has no bookmark, the second one has; the third is not used.
get_pruned_snapshots_lem_example :
    (member day_one (day_three ∷ [])
      ≡ (member day_one (day_three ∷ day_two ∷ []) && not (member day_one (values used_state))))
    × (member day_one (day_two ∷ []) ≡ (
        member day_one (day_two ∷ day_one ∷ [])
        && not (
            (member day_one (values used_state) && not (member day_one (day_three ∷ day_two ∷ [])))
            || member day_one [])))
unfolding get_pruned_snapshots filter member values add equal
get_pruned_snapshots_lem_example =
    get_pruned_snapshots_lem (day_two ∷ day_one ∷ []) (day_three ∷ day_two ∷ []) [] used_state []
      (day_two ∷ []) (day_three ∷ []) day_one refl refl

apply_retention_policies-taken_example :
    apply_retention_policies backup_subject (two_a_day ∷ one_a_week ∷ []) three_backups
    ≡ ok (
        add_all
          (map name (taken_all backup_subject time_at (two_a_day ∷ one_a_week ∷ []) three_backups))
          [])
unfolding snapshot_time cut_prefix
apply_retention_policies-taken_example =
    apply_retention_policies-taken backup_subject time_at (two_a_day ∷ one_a_week ∷ [])
      three_backups (refl, (refl, (refl, tt)))

apply_retention_policies-Apart_example :
    (l : List Backup) × (apply_retention_policies backup_subject (two_a_day ∷ []) three_backups
      ≡ ok (add_all (map name l) []))
    × (length l ≤ 2)
    × Apart backup_subject time_at 86400 l
unfolding snapshot_time cut_prefix
apply_retention_policies-Apart_example =
    apply_retention_policies-Apart backup_subject time_at two_a_day 86400 three_backups refl
      (omega arith) (refl, (refl, (refl, tt)))

apply_retention_policies-first_example : member day_two (day_one ∷ day_two ∷ []) ≡ true
unfolding apply_retention_policies snapshot_time cut_prefix filter add member equal due
apply_retention_policies-first_example =
    apply_retention_policies-first backup_subject time_at (one_a_week ∷ two_a_day ∷ [])
      three_backups (full_one ∷ full_zero ∷ []) two_a_day next_two (refl, (refl, (refl, tt))) refl
      (there (here refl)) (omega arith) refl

-- The second day is an archive and a bookmark, the first an archive.
abbrev pruned_lists : Lists
unfolding prune_snapshots
pruned_lists =
    (prune_snapshots memory_source [] used_state
      (record { archives = day_two ∷ day_one ∷ []; bookmarks = day_two ∷ [] })).0

prune_snapshots-keeps_example :
    (member day_one pruned_lists.bookmarks || member day_one pruned_lists.archives) ≡ true
unfolding member equal values pruned_lists prune_snapshots
prune_snapshots-keeps_example =
    prune_snapshots-keeps memory_source memory_source-KeepsOthers [] used_state
      (record { archives = day_two ∷ day_one ∷ []; bookmarks = day_two ∷ [] }) day_one refl refl
