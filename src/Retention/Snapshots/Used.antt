-- ===== src/Retention/Snapshots/Used.antt =====
-- Exactly which snapshots `GetPrunedSnapshots` removes.
use uback.Base.{
  ◌≡◌, refl, ap, ◌∙◌, false, not, ◌&&◌, ◌||◌, List, [], ◌∷◌, Bytes, filter, Dict, values, Names,
  add, member, member-add, ok, bind-eq-ok, equal_iff, arith,
}
use uback.Snapshot.{Snapshot, snapshot_name}
use uback.Retention.{RetentionPolicy}
use uback.Retention.Snapshots.{
  retained_archives, names_onto, Retained, retain_used, get_pruned_snapshots,
}

member-nil : (k : Bytes) → member k [] ≡ false
unfolding member
member-nil k = refl

member-names_onto :
    (bs : List Snapshot) (set : Names) (k : Bytes)
    → member k (names_onto set bs) ≡ (member k bs || member k set)
unfolding names_onto member
member-names_onto [] set k = refl
member-names_onto (b ∷ bs) set k =
    ground (arith, member-names_onto bs (add b set) k, member-add b k set)

bookmarks-retain_used :
    (covered : Names) (ss : List Bytes) (r : Retained) (k : Bytes)
    → member k (retain_used covered r ss).bookmarks ≡ (member k ss || member k r.bookmarks)
unfolding retain_used member
bookmarks-retain_used covered [] r k = refl
bookmarks-retain_used covered (s ∷ ss) r k =
    bookmarks-retain_used covered ss _ k ∙ ground (arith, member-add s k r.bookmarks)

archives-retain_used :
    (covered : Names) (ss : List Bytes) (r : Retained) (k : Bytes)
    → member k (retain_used covered r ss).archives
      ≡ ((member k ss && not (member k covered)) || member k r.archives)
unfolding retain_used member
archives-retain_used covered [] r k = refl
archives-retain_used covered (s ∷ ss) r k =
    archives-retain_used covered ss _ k ∙ ground (arith, equal_iff k s, member-add s k r.archives)

member-filter_out :
    (set : Names) (l : List Snapshot) (k : Bytes)
    → member k (filter (λ a. not (member (snapshot_name a) set)) l)
      ≡ (member k l && not (member k set))
unfolding filter member
member-filter_out set [] k = refl
member-filter_out set (a ∷ l) k = ground (arith, equal_iff k a, member-filter_out set l k)

-- A bookmark is removed exactly if no destination's last backup was made from it. An archive is removed
-- exactly if the policies do not retain it and it is not one from which a destination's last backup was
-- made without a bookmark of that name.
pub get_pruned_snapshots_lem :
    (archives bookmarks : List Snapshot) (policies : List RetentionPolicy) (state : Dict Bytes)
    (kept : Names) (pruned_archives pruned_bookmarks : List Snapshot) (k : Bytes)
    → retained_archives policies archives ≡ ok kept
    → get_pruned_snapshots archives bookmarks policies state
      ≡ ok (pruned_archives, pruned_bookmarks)
    → (member k pruned_bookmarks ≡ (member k bookmarks && not (member k (values state))))
      × (member k pruned_archives ≡ (
          member k archives
          && not ((member k (values state) && not (member k bookmarks)) || member k kept)))
unfolding get_pruned_snapshots
get_pruned_snapshots_lem archives bookmarks policies state kept pa pb k e h =
    let covered = names_onto [] bookmarks in
    let start : Retained = record { bookmarks = []; archives = kept } in
    let used = retain_used covered start (values state) in
    let removed : ok (
      filter (λ a. not (member (snapshot_name a) used.archives)) archives,
      filter (λ b. not (member (snapshot_name b) used.bookmarks)) bookmarks,
    )
        ≡ ok (pa, pb) =
      rw e at h in
    let pa_is : pa ≡ filter (λ a. not (member (snapshot_name a) used.archives)) archives =
      ground arith in
    let pb_is : pb ≡ filter (λ b. not (member (snapshot_name b) used.bookmarks)) bookmarks =
      ground arith in
    (
      ap (member k) pb_is
          ∙ member-filter_out used.bookmarks bookmarks k
          ∙ ground (arith, bookmarks-retain_used covered (values state) start k, member-nil k),
      ap (member k) pa_is
          ∙ member-filter_out used.archives archives k
          ∙ ground (
            arith,
            archives-retain_used covered (values state) start k,
            member-names_onto bookmarks [] k,
            member-nil k,
          ),
    )

-- If snapshots are chosen for removal, the policies have chosen what to retain.
pub get_pruned_snapshots-retained :
    (archives bookmarks : List Snapshot) (policies : List RetentionPolicy) (state : Dict Bytes)
    {pruned : List Snapshot × List Snapshot}
    → get_pruned_snapshots archives bookmarks policies state ≡ ok pruned
    → (kept : Names) × (retained_archives policies archives ≡ ok kept)
unfolding get_pruned_snapshots
get_pruned_snapshots-retained archives bookmarks policies state h =
    let (kept, e, _) = bind-eq-ok (retained_archives policies archives) _ h in (kept, e)
