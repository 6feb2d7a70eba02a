-- ===== src/Examples/Runs.antt =====
-- A run of `uback backup` from a source in memory to a destination in memory.
use uback.Base.{
  ℕ, ◌≡◌, refl, Bool, true, false, Option, none, some, List, [], ◌∷◌, Bytes, Dict, codes, insert,
  values, member, ok, equal, lookup, Result, add, cut_prefix, atoi, wrap, distinct, filter,
}
use uback.Snapshot.Time.{snapshot_time}
use uback.Retention.{due}
use uback.Retention.Interval.{parse_interval}
use uback.Prune.{StateFile, holds, absent}
use uback.Backup.{BackupOptions, plan_backup}
use uback.Backup.Run.{World, Settings, run_backup}
use uback.Backup.Run.Records.{Writes, Recorded, Has, run_backup-Recorded, run_backup-Has}
use uback.Examples.Data.{day_one, day_two, day_three, two_backups}
use uback.Examples.Memory.{memory_source, memory_destination, memory_source-KeepsOthers}

abbrev pub settings : Settings
settings = record {
  options = record {
    force_full = false;
    state_file = codes "state";
    full_interval = codes "weekly";
  };
  destination_id = codes "home";
  source_policies = [];
  destination_policies = [];
  no_prune = false;
  now = 63776851200000;
  pack = λ s. s;
  write_file = λ d f. (holds d, ok tt);
}

pub writes : Writes settings
writes = record { written = λ d f e. refl }

abbrev pub before : World memory_source memory_destination
before = record {
  source = record { archives = day_two ∷ day_one ∷ []; bookmarks = [] };
  destination = two_backups;
  file = holds ((codes "home", day_two) ∷ (codes "office", day_one) ∷ []);
}

-- The second day is the base, and pruning removes its archive, which no destination needs any more.
abbrev pub behind : World memory_source memory_destination
behind = record {
  source = record { archives = day_three ∷ day_one ∷ []; bookmarks = [] };
  destination = record { snapshot = day_three; base_snapshot = some day_two } ∷ two_backups;
  file = holds ((codes "home", day_three) ∷ (codes "office", day_one) ∷ []);
}

pub ran :
    run_backup memory_source memory_destination settings before
    ≡ (behind, ok (record { snapshot = day_three; base_snapshot = some day_two }))
unfolding run_backup uback.Base.Commands.◌>>=◌ uback.Base.Commands.ask plan_backup
    uback.Sorting.sorted_list_backups uback.Sorting.sorted_list_bookmarks
    uback.Sorting.sorted_list_archives uback.Backup.choose_base parse_interval lookup equal atoi
    uback.Base.compare_bytes member uback.Backup.snapshots_set add snapshot_time cut_prefix
    uback.Base.Commands.◌>>◌ uback.Backup.Run.read_old_state uback.Base.Commands.pure
    uback.Prune.prune_snapshots uback.Prune.prune_backups insert due uback.Prune.plan_snapshots
    uback.Retention.Backups.get_pruned_backups wrap uback.Retention.Snapshots.get_pruned_snapshots
    uback.Chain.get_full_chain filter uback.Chain.make_index values
ran = refl

run_backup-Recorded_example :
    Recorded
      (codes "home")
      before
      behind
      (record { snapshot = day_three; base_snapshot = some day_two })
run_backup-Recorded_example =
    run_backup-Recorded memory_source memory_destination settings writes refl before behind _ ran

run_backup-Has_example : Has memory_source-KeepsOthers behind.source day_one
unfolding member values equal
run_backup-Has_example =
    run_backup-Has memory_source memory_destination settings memory_source-KeepsOthers writes refl
      before behind _ _ day_one ran refl refl (λ base. refl)
