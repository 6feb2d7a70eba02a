-- ===== src/Prune.antt =====
-- `PruneBackups` and `PruneSnapshots` of lib/retention.go, and the two commands of cmd/prune.go. An error of
-- a removal is logged and the loop goes on.
pub mod Keeps
use uback.Base.{
  ℕ, Bool, true, false, Option, none, some, List, [], ◌∷◌, ◌++◌, Bytes, Dict, if◌then◌else◌, Result,
  ok, err, Error, ◌>>=◌,
}
use uback.Snapshot.{Snapshot, Backup}
use uback.Interfaces.{Source, Destination}
use uback.Sorting.{sorted_list_backups, sorted_list_archives, sorted_list_bookmarks}
use uback.Retention.{RetentionPolicy}
use uback.Retention.Backups.{get_pruned_backups}
use uback.Retention.Snapshots.{get_pruned_snapshots}

-- The loops that remove one thing after another.
unfoldable pub remove_each {ℓ} :
    {A : Type 0} {St : Type ℓ} → (A → St → St × Result (Unit {0})) → List A → St → St
remove_each remove [] s = s
remove_each remove (x ∷ xs) s = remove_each remove xs (remove x s).0

unfoldable pub prune_backups :
    (D : Destination) → List Backup → List RetentionPolicy → D.State → D.State × Result (Unit {0})
unfolding remove_each
prune_backups D backups policies s = elim (get_pruned_backups backups policies) [
  | err e ↦ (s, err e)
  | ok pruned ↦ (remove_each D.remove_backup pruned s, ok tt)
]

-- What the source removes, from the lists that it gives.
unfoldable pub plan_snapshots :
    (S : Source)
    → List RetentionPolicy
    → Dict Bytes
    → S.State
    → Result (List Snapshot × List Snapshot)
plan_snapshots S policies state s = sorted_list_bookmarks S s >>= λ bookmarks.
    sorted_list_archives S s >>= λ archives. get_pruned_snapshots archives bookmarks policies state

unfoldable pub prune_snapshots :
    (S : Source) → List RetentionPolicy → Dict Bytes → S.State → S.State × Result (Unit {0})
unfolding remove_each
prune_snapshots S policies state s = elim (plan_snapshots S policies state s) [
  | err e ↦ (s, err e)
  | ok (archives, bookmarks) ↦
      (remove_each S.remove_bookmark bookmarks (remove_each S.remove_archive archives s), ok tt)
]

-- `uback prune backups`: the names printed, and the state behind the command.
unfoldable pub cmd_prune_backups :
    (D : Destination) → Bool → List RetentionPolicy → D.State → D.State × Result (List Backup)
unfolding remove_each
cmd_prune_backups D dry_run policies s =
    elim (sorted_list_backups D s >>= λ backups. get_pruned_backups backups policies) [
      | err e ↦ (s, err e)
      | ok pruned ↦ (if dry_run then s else remove_each D.remove_backup pruned s, ok pruned)
    ]

-- The state file, as `os.ReadFile` and `json.Unmarshal` find it. `absent` is `os.IsNotExist`.
pub data StateFile : Type 0 where
  absent : StateFile
  unreadable : Error → StateFile
  holds : Dict Bytes → StateFile

-- The state that a command reads, and whether it must not remove anything. `none` is a source with no
-- `StateFile` option.
unfoldable pub read_state : Option StateFile → Bool → Result (Dict Bytes × Bool)
read_state none dry_run = ok ([], dry_run)
read_state (some absent) dry_run = ok ([], true)
read_state (some (unreadable e)) dry_run = err e
read_state (some (holds state)) dry_run = ok (state, dry_run)

-- What `uback prune snapshots` removes, and whether it must not.
unfoldable pub plan_prune_snapshots :
    (S : Source)
    → Bool
    → List RetentionPolicy
    → Option StateFile
    → S.State
    → Result ((List Snapshot × List Snapshot) × Bool)
unfolding read_state
plan_prune_snapshots S dry_run policies file s = sorted_list_archives S s >>= λ archives.
    sorted_list_bookmarks S s >>= λ bookmarks. read_state file dry_run >>= λ state.
    get_pruned_snapshots archives bookmarks policies state.0 >>= λ pruned. ok (pruned, state.1)

-- `uback prune snapshots`: the names printed, and the state behind the command.
unfoldable pub cmd_prune_snapshots :
    (S : Source)
    → Bool
    → List RetentionPolicy
    → Option StateFile
    → S.State
    → S.State × Result (List Snapshot × List Snapshot)
unfolding remove_each plan_prune_snapshots
cmd_prune_snapshots S dry_run policies file s =
    elim (plan_prune_snapshots S dry_run policies file s) [
      | err e ↦ (s, err e)
      | ok (pruned, dry) ↦ (
        if dry
            then s
            else remove_each S.remove_bookmark pruned.1 (remove_each S.remove_archive pruned.0 s),
        ok pruned,
      )
    ]
