-- ===== src/Prune/Keeps.antt =====
-- Pruning a source keeps the snapshots that the state file names.
use uback.Base.{
  ◌≡◌, refl, sym, ◌∙◌, subst, true, false, ◌||◌, List, [], ◌∷◌, Bytes, Dict, values, member, Result,
  ok, err, or-true_right, Result-cases, Bool-cases, inl, inr, arith,
}
use uback.Snapshot.{Snapshot}
use uback.Interfaces.{Source, KeepsOthers}
use uback.Sorting.{sorted_list_archives, sorted_list_bookmarks, sort_snapshots}
use uback.Sorting.Descending.{member-sort_snapshots}
use uback.Retention.{RetentionPolicy}
use uback.Retention.Snapshots.{get_pruned_snapshots}
use uback.Retention.Snapshots.Used.{get_pruned_snapshots_lem, get_pruned_snapshots-retained}
use uback.Prune.{remove_each, plan_snapshots, prune_snapshots}

module _ (S : Source) (K : KeepsOthers S) where
  remove_archives-archives :
      (l : List Snapshot) (s : S.State) (k : Snapshot)
      → member k l ≡ false
      → member k (K.archives s) ≡ true
      → member k (K.archives (remove_each S.remove_archive l s)) ≡ true
  unfolding remove_each member
  remove_archives-archives [] s k out h = h
  remove_archives-archives (a ∷ l) s k out h =
      remove_archives-archives l (S.remove_archive a s).0 k (ground arith)
        (K.archives-remove_archive s a k (ground arith) h)

  remove_archives-bookmarks :
      (l : List Snapshot) (s : S.State) (k : Snapshot)
      → member k (K.bookmarks s) ≡ true
      → member k (K.bookmarks (remove_each S.remove_archive l s)) ≡ true
  unfolding remove_each
  remove_archives-bookmarks [] s k h = h
  remove_archives-bookmarks (a ∷ l) s k h =
      remove_archives-bookmarks l (S.remove_archive a s).0 k (K.bookmarks-remove_archive s a k h)

  remove_bookmarks-archives :
      (l : List Snapshot) (s : S.State) (k : Snapshot)
      → member k (K.archives s) ≡ true
      → member k (K.archives (remove_each S.remove_bookmark l s)) ≡ true
  unfolding remove_each
  remove_bookmarks-archives [] s k h = h
  remove_bookmarks-archives (a ∷ l) s k h =
      remove_bookmarks-archives l (S.remove_bookmark a s).0 k (K.archives-remove_bookmark s a k h)

  remove_bookmarks-bookmarks :
      (l : List Snapshot) (s : S.State) (k : Snapshot)
      → member k l ≡ false
      → member k (K.bookmarks s) ≡ true
      → member k (K.bookmarks (remove_each S.remove_bookmark l s)) ≡ true
  unfolding remove_each member
  remove_bookmarks-bookmarks [] s k out h = h
  remove_bookmarks-bookmarks (a ∷ l) s k out h =
      remove_bookmarks-bookmarks l (S.remove_bookmark a s).0 k (ground arith)
        (K.bookmarks-remove_bookmark s a k (ground arith) h)

  -- The plan is made from the sorted lists.
  plan_snapshots-lists :
      (policies : List RetentionPolicy) (state : Dict Bytes) (s : S.State)
      → plan_snapshots S policies state s
        ≡ get_pruned_snapshots
            (sort_snapshots (K.archives s))
            (sort_snapshots (K.bookmarks s))
            policies
            state
  unfolding plan_snapshots sorted_list_archives sorted_list_bookmarks
  plan_snapshots-lists policies state s =
      rw K.list_bookmarks-bookmarks (rw K.list_archives-archives)

  module _ (policies : List RetentionPolicy) (state : Dict Bytes) (s : S.State) (k : Snapshot) where
    -- What the plan removes leaves the snapshot in one of the two lists.
    pub removals-keep :
        (pa pb : List Snapshot)
        → plan_snapshots S policies state s ≡ ok (pa, pb)
        → member k (values state) ≡ true
        → (member k (K.bookmarks s) || member k (K.archives s)) ≡ true
        → let t = remove_each S.remove_bookmark pb (remove_each S.remove_archive pa s) in
          (member k (K.bookmarks t) || member k (K.archives t)) ≡ true
    removals-keep pa pb e used h =
        let planned = sym (plan_snapshots-lists policies state s) ∙ e in
        let (kept, r) = get_pruned_snapshots-retained _ _ policies state planned in
        let (not_b, not_a) = get_pruned_snapshots_lem _ _ policies state kept pa pb k r planned in
        let same_b = member-sort_snapshots k (K.bookmarks s) in
        let same_a = member-sort_snapshots k (K.archives s) in
        elim (Bool-cases (member k (K.bookmarks s))) [
          | inl marked ↦
              let stays =
                remove_bookmarks-bookmarks pb _ k (ground arith)
                  (remove_archives-bookmarks pa s k marked) in
              rw stays refl
          | inr unmarked ↦
              let stays =
                remove_bookmarks-archives pb _ k
                  (remove_archives-archives pa s k (ground arith) (ground arith)) in
              rw stays (or-true_right _)
        ]

    -- A snapshot that the state names, and that the source has as a bookmark or an archive, is still
    -- there after pruning, whether the removals succeed or not.
    pub prune_snapshots-keeps :
        member k (values state) ≡ true
        → (member k (K.bookmarks s) || member k (K.archives s)) ≡ true
        → let t = (prune_snapshots S policies state s).0 in
          (member k (K.bookmarks t) || member k (K.archives t)) ≡ true
    unfolding prune_snapshots
    prune_snapshots-keeps used h = elim (Result-cases (plan_snapshots S policies state s)) [
      | inl ((pa, pb), e) ↦
          subst
            (λ r.
              (let t =
                  (elim r as (λ _. S.State × Result (Unit {0})) [
                    | err e ↦ (s, err e)
                    | ok (archives, bookmarks) ↦ (
                      remove_each S.remove_bookmark bookmarks
                          (remove_each S.remove_archive archives s),
                      ok tt,
                    )
                  ]).0 in
                (member k (K.bookmarks t) || member k (K.archives t)) ≡ true))
            (sym e) (removals-keep pa pb e used h)
      | inr (x, e) ↦ rw (e, prune_snapshots) h
    ]
