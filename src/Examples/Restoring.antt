-- ===== src/Examples/Restoring.antt =====
-- A restoration that writes down what it restores.
use uback.Base.{
  ℕ, ◌≡◌, refl, List, [], ◌∷◌, ◌++◌, Option, none, some, Bytes, codes, Result, ok, err, Error,
  arith, reverse,
}
use uback.Base.Commands.{Command}
use uback.Snapshot.{Backup}
use uback.Chain.{make_index}
use uback.Chain.Links.{Links, full, link}
use uback.Restore.{Local, each, run_restore}
use uback.Restore.Ordered.{run_restore-order}
use uback.Examples.Data.{day_one, full_one, next_two, two_backups}
use uback.Examples.Memory.{memory_destination}

-- The world is the destination's backups and those restored.
abbrev notes : Local memory_destination
notes = record {
  World = List Backup × List Backup;
  destination = λ w. w.0;
  open_local = λ b w. none;
  new_for_restoration = λ typ w. err Error.invalid_type;
  write_local = λ name stream w. (w, ok tt);
}

abbrev note : Backup → Command (List Backup × List Backup) (Unit {0})
note b w = ((w.0, w.1 ++ b ∷ []), ok tt)

one_link : Links (make_index two_backups) (some day_one) (full_one ∷ [])
unfolding make_index uback.Base.lookup uback.Base.insert uback.Base.equal
one_link = link {base = day_one} {b = full_one} refl full

run_restore-order_example :
    run_restore memory_destination notes note (codes "20210102") (two_backups, [])
    ≡ each note (full_one ∷ next_two ∷ []) (two_backups, [])
unfolding uback.Sorting.sorted_list_backups uback.Base.compare_bytes uback.Restore.find_backup
    uback.Base.has_prefix uback.Snapshot.full_name
run_restore-order_example =
    run_restore-order memory_destination notes note (codes "20210102") two_backups next_two
      (full_one ∷ []) (two_backups, []) refl refl one_link (omega arith)
