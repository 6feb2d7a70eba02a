-- ===== src/Sorting.antt =====
-- `SortedListBackups`, `SortedListArchives` and `SortedListBookmarks` of lib/utils.go. `sort.Slice` is the
-- insertion sort that package sort runs on short slices: among different names every sort of these
-- gives the same list.
pub mod Reordered
pub mod Descending
use Prim.Native.Nat.{Ordering}
use uback.Base.{
  ℕ, Bool, true, false, List, [], ◌∷◌, Bytes, compare_bytes, if◌then◌else◌, Result, ok, err, ◌>>=◌,
}
use uback.Snapshot.{Snapshot, Backup, name, compare_snapshots, compare_backups}
use uback.Interfaces.{Source, Destination}

-- `compare(a, b) >= 0`
abbrev pub at_least : Ordering → Bool
at_least Ordering.lt = false
at_least Ordering.eq = true
at_least Ordering.gt = true

module _ {A : Type 0} (compare : A → A → Ordering) where
  -- The element moves to the left past all that it is at least as great as.
  unfoldable pub insert_desc : A → List A → List A
  insert_desc x [] = x ∷ []
  insert_desc x (y ∷ ys) = if at_least (compare x y) then x ∷ y ∷ ys else y ∷ insert_desc x ys

  unfoldable pub sort_onto : List A → List A → List A
  unfolding insert_desc
  sort_onto sorted [] = sorted
  sort_onto sorted (x ∷ xs) = sort_onto (insert_desc x sorted) xs

unfoldable pub sort_backups : List Backup → List Backup
unfolding sort_onto
sort_backups = sort_onto compare_backups []

unfoldable pub sort_snapshots : List Snapshot → List Snapshot
unfolding sort_onto
sort_snapshots = sort_onto compare_snapshots []

unfoldable pub sorted_list_backups : (D : Destination) → D.State → Result (List Backup)
unfolding sort_backups
sorted_list_backups D s = D.list_backups s >>= λ backups. ok (sort_backups backups)

unfoldable pub sorted_list_archives : (S : Source) → S.State → Result (List Snapshot)
unfolding sort_snapshots
sorted_list_archives S s = S.list_archives s >>= λ archives. ok (sort_snapshots archives)

unfoldable pub sorted_list_bookmarks : (S : Source) → S.State → Result (List Snapshot)
unfolding sort_snapshots
sorted_list_bookmarks S s = S.list_bookmarks s >>= λ bookmarks. ok (sort_snapshots bookmarks)
