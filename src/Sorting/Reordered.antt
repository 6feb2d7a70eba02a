-- ===== src/Sorting/Reordered.antt =====
-- One list is another in a different order, by exchanges of neighbours.
use mathlib.Core.List.{Perm}
use mathlib.Core.List.Perm
use uback.Base.{
  ◌≡◌, refl, ◌∙◌, ap, Bool, ◌||◌, List, [], ◌∷◌, ◌++◌, Bytes, arith, map, In, here, there, member,
  distinct, equal, equal_sym, filter, Bool-cases, inl, inr,
}

pub data Reordered {A : Type 0} : List A → List A → Type 0 where
  untouched : {xs : List A} → Reordered xs xs
  cons : {x : A} {xs ys : List A} → Reordered xs ys → Reordered (x ∷ xs) (x ∷ ys)
  swap : {x y : A} {xs : List A} → Reordered (x ∷ y ∷ xs) (y ∷ x ∷ xs)
  trans : {xs ys zs : List A} → Reordered xs ys → Reordered ys zs → Reordered xs zs

module _ {A : Type 0} where
  pub Reordered-Perm : {xs ys : List A} → Reordered xs ys → Perm xs ys
  Reordered-Perm (untouched {xs}) = Perm.refl xs
  Reordered-Perm (cons {x} r) = Perm.cons x (Reordered-Perm r)
  Reordered-Perm (swap {x} {y} {xs}) = Perm.swap y x xs
  Reordered-Perm (trans r s) = Perm.trans (Reordered-Perm r) (Reordered-Perm s)

  pub back : {xs ys : List A} → Reordered xs ys → Reordered ys xs
  back untouched = untouched
  back (cons r) = cons (back r)
  back swap = swap
  back (trans r s) = trans (back s) (back r)

  pub append_left :
      (zs : List A) {xs ys : List A} → Reordered xs ys → Reordered (zs ++ xs) (zs ++ ys)
  append_left [] r = r
  append_left (z ∷ zs) r = cons (append_left zs r)

  pub middle : (x : A) (xs ys : List A) → Reordered (xs ++ x ∷ ys) (x ∷ (xs ++ ys))
  middle x [] ys = untouched
  middle x (z ∷ xs) ys = trans (cons (middle x xs ys)) swap

  pub In-Reordered : {a : A} {xs ys : List A} → Reordered xs ys → In a xs → In a ys
  In-Reordered untouched i = i
  In-Reordered (cons r) (here e) = here e
  In-Reordered (cons r) (there i) = there (In-Reordered r i)
  In-Reordered swap (here e) = there (here e)
  In-Reordered swap (there (here e)) = here e
  In-Reordered swap (there (there i)) = there (there i)
  In-Reordered (trans r s) i = In-Reordered s (In-Reordered r i)

  pub member-Reordered :
      (f : A → Bytes) (k : Bytes) {xs ys : List A}
      → Reordered xs ys
      → member k (map f xs) ≡ member k (map f ys)
  unfolding member
  member-Reordered f k untouched = refl
  member-Reordered f k (cons {x} r) = ap (λ t. equal k (f x) || t) (member-Reordered f k r)
  member-Reordered f k swap = ground arith
  member-Reordered f k (trans r s) = member-Reordered f k r ∙ member-Reordered f k s

  pub distinct-Reordered :
      (f : A → Bytes) {xs ys : List A} → Reordered xs ys → distinct (map f xs) ≡ distinct (map f ys)
  unfolding member distinct
  distinct-Reordered f untouched = refl
  distinct-Reordered f (cons {x} r) =
      ground (arith, member-Reordered f (f x) r, distinct-Reordered f r)
  distinct-Reordered f (swap {x} {y}) = ground (arith, equal_sym (f x) (f y))
  distinct-Reordered f (trans r s) = distinct-Reordered f r ∙ distinct-Reordered f s

  pub filter-Reordered :
      (p : A → Bool) {xs ys : List A} → Reordered xs ys → Reordered (filter p xs) (filter p ys)
  unfolding filter
  filter-Reordered p untouched = untouched
  filter-Reordered p (cons {x} r) = elim (Bool-cases (p x)) [
    | inl e ↦ rw e (cons (filter-Reordered p r))
    | inr e ↦ rw e (filter-Reordered p r)
  ]
  filter-Reordered p (swap {x} {y} {xs}) = elim (Bool-cases (p x)) [
    | inl e ↦ elim (Bool-cases (p y)) [ inl f ↦ rw (e, f) swap | inr f ↦ rw (e, f) untouched ]
    | inr e ↦ elim (Bool-cases (p y)) [ inl f ↦ rw (e, f) untouched | inr f ↦ rw (e, f) untouched ]
  ]
  filter-Reordered p (trans r s) = trans (filter-Reordered p r) (filter-Reordered p s)
