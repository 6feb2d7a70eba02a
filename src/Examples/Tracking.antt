-- ===== src/Examples/Tracking.antt =====
-- A history of commands with a state file.
use uback.Base.{
  inl, inr, Option-cases, refl, ap, subst, ◌∷◌, arith, member, equal, values, or-true_right,
}
use uback.Snapshot.{Snapshot}
use uback.Backup.Run.Records.{Has}
use uback.History.Tracked.{
  Spoils, Refuses, AddsSnapshot, HasNamed, TrackedStep, stays, goes, backs_up,
}
use uback.History.Tracked.Named.{TrackedReaches-HasNamed}
use uback.Examples.Data.{day_one, day_three}
use uback.Examples.Memory.{Lists, memory_source, memory_destination, memory_source-KeepsOthers}
use uback.Examples.Runs.{settings, before, behind, ran, writes}
use uback.Examples.Histories.{made_three}

kept_three :
    (s : Lists) (k : Snapshot)
    → Has memory_source-KeepsOthers s k
    → Has memory_source-KeepsOthers (record s { archives = day_three ∷ s.archives }) k
unfolding member
kept_three s k h = ground arith

three-Has :
    (s : Lists)
    → Has memory_source-KeepsOthers (record s { archives = day_three ∷ s.archives }) day_three
unfolding member equal
three-Has s = or-true_right _

memory_source-AddsSnapshot : AddsSnapshot memory_source memory_source-KeepsOthers
memory_source-AddsSnapshot = record {
  kept = λ base s k h. kept_three s k h;
  added = λ base s s' b stream h whole.
      subst (λ s'. Has memory_source-KeepsOthers s' b.snapshot) (ap (λ r. r.0) h)
        (subst
          (λ b.
            Has memory_source-KeepsOthers (record s { archives = day_three ∷ s.archives })
              b.snapshot)
          (made_three base s s' b stream h) (three-Has s));
}

spoils : Spoils settings
spoils = record { spoiled = λ d f e h. ground arith }

refuses : Refuses memory_destination settings
refuses b stream d h = elim (Option-cases stream.failure) [
  | inl q ↦ q
  | inr (x, q) ↦ let h' = rw q at h in ground arith
]

before-HasNamed : HasNamed memory_source memory_destination memory_source-KeepsOthers before
unfolding member values
before-HasNamed k h = h

-- The same history with its state file.
TrackedReaches-HasNamed_example : Has memory_source-KeepsOthers behind.source day_one
unfolding member values equal
TrackedReaches-HasNamed_example =
    TrackedReaches-HasNamed memory_source memory_destination memory_source-KeepsOthers
      memory_source-AddsSnapshot before behind
      (goes stays (
        subst (TrackedStep memory_source memory_destination memory_source-KeepsOthers before)
          (ap (λ r. r.0) ran) (backs_up settings writes spoils refuses refl before)))
      before-HasNamed day_one refl
