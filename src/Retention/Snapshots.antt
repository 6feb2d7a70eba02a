-- ===== src/Retention/Snapshots.antt =====
-- `GetPrunedSnapshots`.
pub mod Used
use uback.Base.{
  Bool, true, false, not, List, [], ◌∷◌, Bytes, filter, Dict, values, Names, add, member, Result,
  ok, err, ◌>>=◌, if◌then◌else◌,
}
use uback.Snapshot.{Snapshot, snapshot_name}
use uback.Retention.{RetentionPolicy, snapshot_subject}
use uback.Retention.Apply.{apply_retention_policies}

-- With no policy no archive is retained.
unfoldable pub retained_archives : List RetentionPolicy → List Snapshot → Result Names
retained_archives [] archives = ok []
retained_archives (p ∷ ps) archives = apply_retention_policies snapshot_subject (p ∷ ps) archives

unfoldable pub names_onto : Names → List Snapshot → Names
names_onto set [] = set
names_onto set (b ∷ bs) = names_onto (add (snapshot_name b) set) bs

-- The two sets that the loop over the state writes.
pub record Retained : Type 0 where
  pub bookmarks : Names
  pub archives : Names

unfoldable pub retain_used : Names → Retained → List Bytes → Retained
retain_used covered r [] = r
retain_used covered r (s ∷ ss) =
    retain_used covered
      (record {
        bookmarks = add s r.bookmarks;
        archives = if member s covered then r.archives else add s r.archives;
      })
      ss

-- The archives and the bookmarks to remove. `state` maps a destination to the snapshot that its last
-- backup was made from.
unfoldable pub get_pruned_snapshots :
    List Snapshot
    → List Snapshot
    → List RetentionPolicy
    → Dict Bytes
    → Result (List Snapshot × List Snapshot)
unfolding retained_archives names_onto retain_used
get_pruned_snapshots archives bookmarks policies state =
    retained_archives policies archives >>= λ kept.
    let used =
      retain_used (names_onto [] bookmarks) (record { bookmarks = []; archives = kept })
        (values state) in
    ok (
      filter (λ a. not (member (snapshot_name a) used.archives)) archives,
      filter (λ b. not (member (snapshot_name b) used.bookmarks)) bookmarks,
    )
