-- ===== src/Base/Lists.antt =====
-- Lists measured by native numbers, a Boolean filter, and membership as a family.
use Prim.Native.Nat.{ℕ, zero, suc, ◌+◌, ◌≤◌}
use mathlib.Core.Path.{◌≡◌, ap, sym, ◌∙◌}
use mathlib.Core.Logic.{◌⊎◌, inl, inr}
use mathlib.Core.Bool.{Bool, true}
use mathlib.Core.List.{List, [], ◌∷◌, ◌++◌}
use native.Mathlib.Omega.{arith}
use uback.Base.Tests.{if◌then◌else◌, Bool-cases}

module _ {ℓ} {A : Type ℓ} where
  abbrev pub length : List A → ℕ
  length [] = 0
  length (x ∷ xs) = suc (length xs)

  abbrev pub take : ℕ → List A → List A
  take zero xs = []
  take (suc n) [] = []
  take (suc n) (x ∷ xs) = x ∷ take n xs

  abbrev pub drop : ℕ → List A → List A
  drop zero xs = xs
  drop (suc n) [] = []
  drop (suc n) (x ∷ xs) = drop n xs

  -- The elements that pass a test, in order.
  unfoldable pub filter : (A → Bool) → List A → List A
  filter p [] = []
  filter p (x ∷ xs) = if p x then x ∷ filter p xs else filter p xs

  pub data In (a : A) : List A → Type ℓ where
    here : {x : A} {xs : List A} → a ≡ x → In a (x ∷ xs)
    there : {x : A} {xs : List A} → In a xs → In a (x ∷ xs)

  abbrev pub All {κ} : (A → Type κ) → List A → Type κ
  All P [] = Unit
  All P (x ∷ xs) = P x × All P xs

module _ {ℓ} {A : Type ℓ} where
  pub length-append : (xs ys : List A) → length (xs ++ ys) ≡ length xs + length ys
  length-append [] ys = omega arith
  length-append (x ∷ xs) ys = omega (arith, length-append xs ys)

  pub filter-length : (p : A → Bool) (xs : List A) → length (filter p xs) ≤ length xs
  unfolding filter
  filter-length p [] = omega arith
  filter-length p (x ∷ xs) = ground (arith, filter-length p xs)

  pub not-In-nil : {a : A} → ¬ In a []
  not-In-nil m = elim m [ ]

  pub In-cases : {a x : A} {xs : List A} → In a (x ∷ xs) → (a ≡ x) ⊎ In a xs
  In-cases (here e) = inl e
  In-cases (there m) = inr m

  pub In-filter : {a : A} {xs : List A} (p : A → Bool) → In a xs → p a ≡ true → In a (filter p xs)
  unfolding filter
  In-filter p (here e) h = rw (sym (ap p e) ∙ h) (here e)
  In-filter p (there {x} m) h = elim (Bool-cases (p x)) [
    | inl e ↦ rw e (there (In-filter p m h))
    | inr e ↦ rw e (In-filter p m h)
  ]

  pub filter-In : {a : A} (xs : List A) (p : A → Bool) → In a (filter p xs) → In a xs × (p a ≡ true)
  unfolding filter
  filter-In [] p m = absurd (not-In-nil m)
  filter-In {a} (x ∷ xs) p m = elim (Bool-cases (p x)) [
    | inl e ↦ elim (In-cases (rw e at m)) [
      | inl q ↦ (here q, ap p q ∙ e)
      | inr i ↦ let (i', h) = filter-In xs p i in (there i', h)
    ]
    | inr e ↦ let (i, h) = filter-In xs p (rw e at m) in (there i, h)
  ]

  pub In-append_left : {a : A} {xs : List A} (ys : List A) → In a xs → In a (xs ++ ys)
  In-append_left ys (here e) = here e
  In-append_left ys (there m) = there (In-append_left ys m)

  pub In-append_right : {a : A} (xs : List A) {ys : List A} → In a ys → In a (xs ++ ys)
  In-append_right [] m = m
  In-append_right (x ∷ xs) m = there (In-append_right xs m)

  pub All-In {κ} : (P : A → Type κ) {a : A} {xs : List A} → In a xs → All P xs → P a
  All-In P (here e) h = rw e h.0
  All-In P (there m) h = All-In P m h.1

  pub In-append_cases : {a : A} (xs : List A) {ys : List A} → In a (xs ++ ys) → In a xs ⊎ In a ys
  In-append_cases [] m = inr m
  In-append_cases (x ∷ xs) (here e) = inl (here e)
  In-append_cases (x ∷ xs) (there m) = elim (In-append_cases xs m) [
    | inl i ↦ inl (there i)
    | inr i ↦ inr i
  ]
