-- ===== src/Sorting/Descending.antt =====
-- Sorting keeps the elements, and puts the newest name first.
use Prim.Native.Nat.{Ordering}
use mathlib.Core.List.{Perm, append-nil}
use uback.Base.{
  subst, ◌≡◌, refl, ◌∙◌, true, false, ◌||◌, List, [], ◌∷◌, ◌++◌, Bool-cases, inl, inr, member,
  equal, arith,
}
use uback.Base.Text.Order.{compare_bytes_swap_lt}
use uback.Snapshot.{Snapshot, Backup, compare_snapshots, compare_backups}
use uback.Sorting.Reordered.{
  Reordered, untouched, cons, swap, trans, append_left, middle, Reordered-Perm,
}
use uback.Sorting.{at_least, insert_desc, sort_onto, sort_backups, sort_snapshots}

module _ {A : Type 0} (compare : A → A → Ordering) where
  insert_desc-Reordered : (x : A) (ys : List A) → Reordered (insert_desc compare x ys) (x ∷ ys)
  unfolding insert_desc
  insert_desc-Reordered x [] = untouched
  insert_desc-Reordered x (y ∷ ys) = elim (Bool-cases (at_least (compare x y))) [
    | inl h ↦ rw h untouched
    | inr h ↦ rw h (trans (cons (insert_desc-Reordered x ys)) (swap))
  ]

  sort_onto-Reordered :
      (xs sorted : List A) → Reordered (sort_onto compare sorted xs) (xs ++ sorted)
  unfolding sort_onto
  sort_onto-Reordered [] sorted = untouched
  sort_onto-Reordered (x ∷ xs) sorted =
      trans (sort_onto-Reordered xs (insert_desc compare x sorted))
        (trans (append_left xs (insert_desc-Reordered x sorted)) (middle x xs sorted))

  -- No element is less than the next.
  abbrev pub Descending : List A → Type 0
  Descending [] = Unit
  Descending (x ∷ []) = Unit
  Descending (x ∷ y ∷ l) = (at_least (compare x y) ≡ true) × Descending (y ∷ l)

  module _ (swap : (x y : A) → compare x y ≡ Ordering.lt → at_least (compare y x) ≡ true) where
    not_less : (x y : A) → at_least (compare x y) ≡ false → at_least (compare y x) ≡ true
    not_less x y h = ground (arith, swap x y)

    insert_desc-Descending :
        (x : A) (ys : List A) → Descending ys → Descending (insert_desc compare x ys)
    unfolding insert_desc
    insert_desc-Descending x [] h = tt
    insert_desc-Descending x (y ∷ []) h = elim (Bool-cases (at_least (compare x y))) [
      | inl e ↦ rw e (e, tt)
      | inr e ↦ rw e (not_less x y e, tt)
    ]
    insert_desc-Descending x (y ∷ z ∷ l) h = elim (Bool-cases (at_least (compare x y))) [
      | inl e ↦ rw e (e, h)
      | inr e ↦ rw e (elim (Bool-cases (at_least (compare x z))) [
        | inl f ↦ rw f (not_less x y e, (f, h.1))
        | inr f ↦ let later = insert_desc-Descending x (z ∷ l) h.1 in rw f (h.0, rw f at later)
      ])
    ]

    sort_onto-Descending :
        (xs sorted : List A) → Descending sorted → Descending (sort_onto compare sorted xs)
    unfolding sort_onto
    sort_onto-Descending [] sorted h = h
    sort_onto-Descending (x ∷ xs) sorted h =
        sort_onto-Descending xs (insert_desc compare x sorted) (insert_desc-Descending x sorted h)

swap_snapshots :
    (a b : Snapshot) → compare_snapshots a b ≡ Ordering.lt → at_least (compare_snapshots b a) ≡ true
swap_snapshots a b h = rw (compare_bytes_swap_lt a b h, at_least)

pub sort_backups-Reordered : (bs : List Backup) → Reordered (sort_backups bs) bs
unfolding sort_backups
sort_backups-Reordered bs =
    subst (Reordered (sort_backups bs)) (append-nil bs) (sort_onto-Reordered compare_backups bs [])

-- The sorted backups are those of the list, each as often, and none is older than the next.
pub sort_backups_lem :
    (bs : List Backup) → Perm (sort_backups bs) bs × Descending compare_backups (sort_backups bs)
unfolding sort_backups
sort_backups_lem bs = (
  Reordered-Perm (sort_backups-Reordered bs),
  sort_onto-Descending compare_backups (λ a b. swap_snapshots a.snapshot b.snapshot) bs [] tt,
)

insert_desc-member :
    (k x : Snapshot) (ys : List Snapshot)
    → member k (insert_desc compare_snapshots x ys) ≡ (equal k x || member k ys)
unfolding insert_desc member
insert_desc-member k x [] = refl
insert_desc-member k x (y ∷ ys) = elim (Bool-cases (at_least (compare_snapshots x y))) [
  | inl h ↦ rw h
  | inr h ↦ rw h (ground (arith, insert_desc-member k x ys))
]

member-sort_onto :
    (k : Snapshot) (xs sorted : List Snapshot)
    → member k (sort_onto compare_snapshots sorted xs) ≡ (member k xs || member k sorted)
unfolding sort_onto member
member-sort_onto k [] sorted = refl
member-sort_onto k (x ∷ xs) sorted =
    member-sort_onto k xs (insert_desc compare_snapshots x sorted)
    ∙ ground (arith, insert_desc-member k x sorted)

-- Sorting changes nothing about which names are listed.
pub member-sort_snapshots :
    (k : Snapshot) (xs : List Snapshot) → member k (sort_snapshots xs) ≡ member k xs
unfolding sort_snapshots member
member-sort_snapshots k xs = member-sort_onto k xs [] ∙ ground arith
