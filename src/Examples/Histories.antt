-- ===== src/Examples/Histories.antt =====
-- A history of commands from a source in memory to a destination in memory.
use uback.Base.{
  ◌≡◌, refl, sym, ap, ◌∙◌, subst, true, false, none, some, List, [], ◌∷◌, arith, inl, inr,
  Option-cases, ok, Result, err, Error, Option, member, map, here, there, In,
}
use uback.Snapshot.{Snapshot, Backup, name}
use uback.Snapshot.Filename.Shape.{is_valid}
use uback.Interfaces.{Stream}
use uback.Backup.{plan_backup}
use uback.History.Kept.{ok-injective}
use uback.Sorting.Reordered.{untouched}
use uback.Chain.Sound.{IsSound}
use uback.History.{KeepsBackups, UsesBase, IsFresh, Step, stays, goes, backs_up, prunes_snapshots}
use uback.History.Restorable.{Reaches-IsSound}
use uback.Examples.Data.{day_two, day_three, two_backups}
use uback.Examples.Memory.{Lists, memory_source, memory_destination, empty_stream}
use uback.Examples.Runs.{settings, before, behind, ran}
use uback.Examples.Chains.{restorable}

pub made_three :
    (base : Option Snapshot) (s s' : Lists) (b : Backup) (stream : Stream)
    → memory_source.create_backup base s ≡ (s', ok (b, stream))
    → record { snapshot = day_three; base_snapshot = base } ≡ b
made_three base s s' b stream h =
    let q : Result.ok (record { snapshot = day_three; base_snapshot = base }, empty_stream)
        ≡ ok (b, stream) =
      ap (λ r. r.1) h in
    ground arith

abbrev pub memory_destination-KeepsBackups : KeepsBackups memory_destination
memory_destination-KeepsBackups = record {
  backups = λ s. s;
  list_backups-backups = λ s. refl;
  backups-remove_backup = λ b s i names. refl;
  backups_sent = λ b stream s valid fresh h. elim (Option-cases stream.failure) [
    | inl q ↦ rw q untouched
    | inr (x, q) ↦ let h' = rw q at h in ground arith
  ];
  backups_failed = λ b stream s e valid h. elim (Option-cases stream.failure) [
    | inl q ↦ let h' = rw q at h in ground arith
    | inr (x, q) ↦ rw q refl
  ];
}

pub memory_source-UsesBase : UsesBase memory_source
memory_source-UsesBase base s s' b stream h =
    inr (ap (λ b. b.base_snapshot) (sym (made_three base s s' b stream h)))

before_plan :
    plan_backup memory_source memory_destination settings.options settings.now before.source
      before.destination
    ≡ ok (two_backups, some day_two)
unfolding plan_backup uback.Sorting.sorted_list_backups uback.Sorting.sorted_list_bookmarks
    uback.Sorting.sorted_list_archives uback.Backup.choose_base
    uback.Retention.Interval.parse_interval uback.Base.lookup uback.Base.equal uback.Base.atoi
    uback.Base.compare_bytes member uback.Backup.snapshots_set uback.Base.add
    uback.Snapshot.Time.snapshot_time uback.Base.cut_prefix uback.Retention.due uback.Base.wrap
before_plan = refl

before-IsFresh :
    IsFresh memory_source memory_destination memory_destination-KeepsBackups settings before
unfolding member uback.Base.equal uback.Snapshot.Filename.is_snapshot_name
    uback.Snapshot.Filename.match_snapshot uback.Base.Matcher.◌>>=◌
    uback.Snapshot.Filename.match_digits uback.Base.Matcher.◌>>◌ uback.Base.Matcher.literal
    uback.Base.cut_prefix uback.Base.Matcher.pure
before-IsFresh bs base plan s b stream h =
    let q : Result.ok (two_backups, some day_two) ≡ ok (bs, base) = sym before_plan ∙ plan in
    let q' : some day_two ≡ base = ap (λ p. p.1) (ok-injective q) in
    subst (λ b. (is_valid b ≡ true) × (member (name b) (map name two_backups) ≡ false))
      (made_three (some day_two) before.source s b stream
        (ap (λ base. memory_source.create_backup base before.source) q' ∙ h))
      (refl, refl)

two-IsSound : IsSound two_backups
unfolding uback.Base.distinct uback.Base.equal
two-IsSound = record { names = refl; restorable = restorable }

-- The backup of the third day, and then a pruning of the source.
Reaches-IsSound_example : IsSound behind.destination
Reaches-IsSound_example =
    Reaches-IsSound memory_source memory_destination memory_destination-KeepsBackups
      memory_source-UsesBase before _
      (goes
        (goes stays (
          subst (Step memory_source memory_destination memory_destination-KeepsBackups before)
            (ap (λ r. r.0) ran) (backs_up settings before before-IsFresh)))
        (prunes_snapshots false [] none behind))
      two-IsSound
