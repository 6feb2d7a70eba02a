-- ===== src/Restore/Ordered.antt =====
-- In which order a chain is restored.
use uback.Base.{suc, ◌≡◌, ◌≤◌, ap, ◌∙◌, List, [], ◌∷◌, Bytes, reverse, length, Result, ok, err}
use uback.Base.Commands.{Command, ◌>>=◌, ask, go_on}
use uback.Snapshot.{Backup}
use uback.Chain.{make_index, get_full_chain}
use uback.Chain.Links.{Links, Links-follow}
use uback.Interfaces.{Destination}
use uback.Sorting.{sorted_list_backups}
use uback.Restore.{find_backup, require_chain, plan_restore, each, Local, run_restore}

plan_restore-Links :
    (target : Bytes) (bs : List Backup) (b : Backup) (rest : List Backup)
    → find_backup target bs ≡ ok b
    → Links (make_index bs) b.base_snapshot rest
    → length rest ≤ suc (length bs)
    → plan_restore target bs ≡ ok (b ∷ rest)
unfolding plan_restore get_full_chain require_chain
plan_restore-Links target bs b rest h l short =
    ap
      (λ r. elim r as (λ _. Result (List Backup)) [
        | err e ↦ err e
        | ok b ↦ require_chain (get_full_chain (suc (length bs)) b (make_index bs))
      ])
      h
    ∙ ap require_chain (Links-follow (suc (length bs)) (b ∷ []) l short)

-- If the backup that is found can be restored by way of `rest`, the command restores exactly these one after
-- another, the full backup first, each on top of its base, and the backup last.
pub run_restore-order :
    (D : Destination) (L : Local D) (step : Backup → Command L.World (Unit {0})) (target : Bytes)
    (bs : List Backup) (b : Backup) (rest : List Backup) (w : L.World)
    → sorted_list_backups D (L.destination w) ≡ ok bs
    → find_backup target bs ≡ ok b
    → Links (make_index bs) b.base_snapshot rest
    → length rest ≤ suc (length bs)
    → run_restore D L step target w ≡ each step (reverse (b ∷ rest)) w
unfolding run_restore ◌>>=◌ ask go_on
run_restore-order D L step target bs b rest w listed found l short =
    rw (listed, plan_restore-Links target bs b rest found l short)
