-- ===== src/Examples/Chains.antt =====
-- Chains, sorting and the choice of the base at concrete backups.
use Prim.Native.Nat.{Ordering}
use uback.Base.{
  ℕ, ◌≡◌, ◌≢◌, refl, sym, subst, false, some, List, [], ◌∷◌, codes, ok, arith, ℤ, In, here, there,
  lookup, equal, insert, compare_bytes, distinct, member,
}
use uback.Base.{cut_prefix, atoi, wrap}
use uback.Snapshot.{Backup, compare_snapshots, compare_backups}
use uback.Snapshot.Time.{snapshot_time, backup_time}
use uback.Retention.{due}
use uback.Retention.Interval.{parse_interval}
use uback.Sorting.{sort_backups}
use uback.Sorting.Descending.{Descending, sort_backups_lem}
use mathlib.Core.List.{Perm}
use uback.Chain.{make_index, get_full_chain, follow, running, complete}
use uback.Chain.Links.{Links, full, link, IsRestorable, Links-follow, get_full_chain-Links}
use uback.Chain.Fuel.{get_full_chain_ends, get_full_chain_runs, HasOlderBase}
use uback.Retention.Backups.{get_pruned_backups}
use uback.Retention.Backups.Total.{get_pruned_backups_ok}
use uback.Backup.{BackupOptions, choose_base}
use uback.Backup.Choice.{first, is_common, is_base_less, choose_base-first, choose_base-newest}
use uback.Backup.Extension.{choose_base-IsRestorable}
use uback.Examples.Data.{
  one_a_week, time_at, day_one, day_two, day_three, full_one, next_two, two_backups,
}

older_one : HasOlderBase full_one
older_one base e = ground arith

older_two : HasOlderBase next_two
unfolding compare_bytes
older_two base e =
    let q : day_one ≡ base = ground arith in
    subst (λ b. compare_snapshots b day_two ≡ Ordering.lt) q refl

get_full_chain_ends_example : get_full_chain 3 next_two (make_index two_backups) ≢ running
unfolding compare_bytes
get_full_chain_ends_example = get_full_chain_ends two_backups next_two (older_two, (older_one, tt))

-- A backup that is its own base.
abbrev loop : Backup
loop = record { snapshot = day_one; base_snapshot = some day_one }

get_full_chain_runs_example : get_full_chain 9 loop (make_index (loop ∷ [])) ≡ running
unfolding make_index lookup insert equal
get_full_chain_runs_example = get_full_chain_runs 9 (make_index (loop ∷ [])) loop refl refl

one_link : Links (make_index two_backups) (some day_one) (full_one ∷ [])
unfolding make_index lookup insert equal
one_link = link refl full

Links-follow_example :
    follow 2 (make_index two_backups) (some day_one) (next_two ∷ [])
    ≡ complete (next_two ∷ full_one ∷ [])
Links-follow_example = Links-follow 2 (next_two ∷ []) one_link (omega arith)

get_full_chain-Links_example :
    (rest : List Backup) × Links (make_index two_backups) (some day_one) rest
    × (two_backups ≡ next_two ∷ rest)
unfolding get_full_chain make_index lookup insert equal
get_full_chain-Links_example = get_full_chain-Links 2 (make_index two_backups) next_two refl

-- The state file is set and full backups are made every week.
abbrev weekly : BackupOptions
weekly = record { force_full = false; state_file = codes "state"; full_interval = codes "weekly" }

-- The third day.
abbrev now : ℕ
now = 63776851200000

choose_base-first_example :
    (interval : ℤ) × (full common : Backup) × (t : ℕ) × (parse_interval (codes "weekly")
      ≡ ok interval)
    × (first is_base_less two_backups ≡ some full)
    × (first (is_common (day_two ∷ [])) two_backups ≡ some common)
    × (common.snapshot ≡ day_two)
    × (backup_time full ≡ ok t)
    × (due interval now t ≡ false)
unfolding choose_base member equal parse_interval snapshot_time cut_prefix lookup atoi due wrap
choose_base-first_example = choose_base-first weekly now (day_two ∷ []) two_backups day_two refl

pub restorable : (b : Backup) → In b two_backups → IsRestorable (make_index two_backups) b
restorable b (here e) =
    subst (IsRestorable (make_index two_backups)) (sym e) (full_one ∷ [], one_link)
restorable b (there (here e)) = subst (IsRestorable (make_index two_backups)) (sym e) ([], full)
restorable b (there (there m)) = elim m [ ]

choose_base-IsRestorable_example :
    IsRestorable
      (make_index (record { snapshot = day_three; base_snapshot = some day_two } ∷ two_backups))
      (record { snapshot = day_three; base_snapshot = some day_two })
unfolding choose_base member equal parse_interval snapshot_time cut_prefix lookup distinct atoi due
    wrap
choose_base-IsRestorable_example =
    choose_base-IsRestorable weekly now (day_two ∷ []) two_backups (some day_two) day_three refl
      refl restorable refl

sort_backups_lem_example :
    Perm (sort_backups (full_one ∷ next_two ∷ [])) (full_one ∷ next_two ∷ [])
    × Descending compare_backups (sort_backups (full_one ∷ next_two ∷ []))
sort_backups_lem_example = sort_backups_lem (full_one ∷ next_two ∷ [])

get_pruned_backups_ok_example :
    (pruned : List Backup) × (get_pruned_backups two_backups (one_a_week ∷ []) ≡ ok pruned)
unfolding snapshot_time cut_prefix
get_pruned_backups_ok_example =
    get_pruned_backups_ok time_at two_backups (one_a_week ∷ []) (older_two, (older_one, tt))
      (refl, (refl, tt))

choose_base-newest_example : choose_base weekly now (day_two ∷ []) two_backups ≡ ok (some day_two)
unfolding parse_interval lookup equal atoi member first snapshot_time cut_prefix due wrap
choose_base-newest_example =
    choose_base-newest weekly now (day_two ∷ []) next_two (full_one ∷ []) full_one _ _ refl refl
      refl refl refl (omega arith) (omega arith)
