-- ===== src/Sources/Tar/Keeping.antt =====
-- The snapshot files of a tar source as the bookmarks that pruning relies on.
use uback.Base.{
  ◌≡◌, refl, sym, ap, subst, Bool, true, false, not, ◌&&◌, ◌||◌, Bool-cases, or-true_right, inl,
  inr, List, [], ◌∷◌, Bytes, Dict, values, equal, equal_iff, member, In, here, there, is_empty, ok,
  arith,
}
use uback.Snapshot.{Snapshot}
use uback.Snapshot.Filename.{is_snapshot_name}
use uback.Interfaces.{KeepsOthers}
use uback.Retention.{RetentionPolicy}
use uback.Prune.{prune_snapshots}
use uback.Prune.Keeps.{prune_snapshots-keeps}
use uback.System.{Entry, System}
use uback.Sources.{is_hidden, listed_snapshots}
use uback.Sources.Tar.{Tar, list_bookmarks, remove_bookmark, tar_source}

-- The directory can be read, and removing one of its files leaves the entries of other names.
pub record HoldsEntries (O : System) (path : Bytes) : Type 0 where
  pub entries : O.State → List Entry
  pub read_directory-entries : (s : O.State) → O.read_directory path s ≡ ok (entries s)
  pub entries-remove :
      (s : O.State) (name : Bytes) (e : Entry)
      → In e (entries s)
      → equal e.0 name ≡ false
      → In e (entries (O.remove (O.join path name) s).0)

pub or-false_right : (b : Bool) → (b || false) ≡ true → b ≡ true
or-false_right true h = refl
or-false_right false h = h

not_wanted : (hidden valid : Bool) → (not hidden && false && valid) ≡ false
not_wanted true valid = refl
not_wanted false valid = refl

-- The entry of a listed snapshot.
pub listed-In :
    (es : List Entry) (k : Snapshot)
    → member k (listed_snapshots false es) ≡ true
    → In (k, false) es × (is_hidden k ≡ false) × (is_snapshot_name k ≡ true)
unfolding listed_snapshots member
listed-In [] k h = ground arith
listed-In ((name, true) ∷ es) k h =
    let h' : member k (listed_snapshots false es) ≡ true =
      rw (not_wanted (is_hidden name) (is_snapshot_name name)) at h in
    let (i, p, v) = listed-In es k h' in (there i, p, v)
listed-In ((name, false) ∷ es) k h =
    elim (Bool-cases (not (is_hidden name) && true && is_snapshot_name name)) [
      | inl e ↦
          let h' = rw e at h in
          elim (Bool-cases (equal k name)) [
            | inl same ↦
                let q = (equal_iff k name).0 same in
                (
                  here (ap (λ n. (n, false)) q),
                  subst (λ n. is_hidden n ≡ false) (sym q) (ground arith),
                  subst (λ n. is_snapshot_name n ≡ true) (sym q) (ground arith),
                )
            | inr other ↦
                let h'' : member k (listed_snapshots false es) ≡ true = ground arith in
                let (i, p, v) = listed-In es k h'' in (there i, p, v)
          ]
      | inr e ↦ let (i, p, v) = listed-In es k (rw e at h) in (there i, p, v)
    ]

pub In-listed :
    (es : List Entry) (k : Snapshot)
    → In (k, false) es
    → is_hidden k ≡ false
    → is_snapshot_name k ≡ true
    → member k (listed_snapshots false es) ≡ true
unfolding listed_snapshots member
In-listed [] k i hidden valid = elim i [ ]
In-listed ((name, dir) ∷ es) k (here e) hidden valid =
    let q : k ≡ name = ap (λ e. e.0) e in
    let d : false ≡ dir = ap (λ e. e.1) e in
    let wanted : (not (is_hidden name) && not dir && is_snapshot_name name) ≡ true =
      subst (λ n. (not (is_hidden n) && not dir && is_snapshot_name n) ≡ true) q
        (ground (arith, hidden, valid, d)) in
    let same : equal k name ≡ true = (equal_iff k name).1 q in rw (wanted, same) refl
In-listed ((name, dir) ∷ es) k (there i) hidden valid =
    let later = In-listed es k i hidden valid in
    elim (Bool-cases (not (is_hidden name) && not dir && is_snapshot_name name)) [
      | inl e ↦ rw (e, later) (or-true_right _)
      | inr e ↦ rw e later
    ]

module _ (O : System) (t : Tar) (H : HoldsEntries O t.snapshots_path)
    (named : is_empty t.snapshots_path ≡ false) where
  unfoldable pub tar_source-KeepsOthers : KeepsOthers (tar_source O t)
  unfolding tar_source list_bookmarks remove_bookmark member
  tar_source-KeepsOthers = record {
    archives = λ s. [];
    bookmarks = λ s. listed_snapshots false (H.entries s);
    list_archives-archives = λ s. refl;
    list_bookmarks-bookmarks = λ s. rw (named, H.read_directory-entries s) refl;
    archives-remove_archive = λ s a k other h. h;
    bookmarks-remove_archive = λ s a k h. h;
    archives-remove_bookmark = λ s a k h. h;
    bookmarks-remove_bookmark = λ s a k other h.
        let (i, hidden, valid) = listed-In (H.entries s) k h in
        rw named (In-listed _ k (H.entries-remove s a (k, false) i other) hidden valid);
  }

  -- For a tar source with a directory of snapshot files, which can be read and in which a removal leaves the
  -- entries of other names, pruning leaves the file of every listed snapshot that the state names, whether the
  -- removals succeed or not.
  pub prune_snapshots-tar_source :
      (policies : List RetentionPolicy) (state : Dict Bytes) (s : O.State) (k : Snapshot)
      → member k (values state) ≡ true
      → member k (listed_snapshots false (H.entries s)) ≡ true
      → unfold tar_source in
        member k
          (listed_snapshots false (H.entries (prune_snapshots (tar_source O t) policies state s).0))
        ≡ true
  unfolding tar_source tar_source-KeepsOthers
  prune_snapshots-tar_source policies state s k used has =
      let kept =
        prune_snapshots-keeps (tar_source O t) tar_source-KeepsOthers policies state s k used
          (rw has refl) in
      or-false_right _ kept
