-- ===== src/Base/NameSet.antt =====
-- A `map[string]struct{}` is a list of names, each at most once, read by `member` alone.
use mathlib.Core.Path.{◌≡◌, refl}
use mathlib.Core.Logic.{inl, inr}
use mathlib.Core.Bool.{Bool, true, false, not, ◌&&◌, ◌||◌}
use mathlib.Core.List.{List, [], ◌∷◌, ◌++◌}
use native.Mathlib.Omega.{arith}
use uback.Base.Tests.{if◌then◌else◌, Bool-cases, or-true_right}
use uback.Base.Text.{Bytes, equal, equal_iff, equal_refl}

abbrev pub Names : Type 0
Names = List Bytes

unfoldable pub member : Bytes → Names → Bool
member k [] = false
member k (j ∷ js) = equal k j || member k js

-- `set[k] = struct{}{}`
unfoldable pub add : Bytes → Names → Names
add k js = if member k js then js else k ∷ js

-- No name stands twice.
unfoldable pub distinct : Names → Bool
unfolding member
distinct [] = true
distinct (k ∷ ks) = not (member k ks) && distinct ks

pub member-add : (k j : Bytes) (js : Names) → member j (add k js) ≡ (equal j k || member j js)
unfolding add member
member-add k j js = elim (Bool-cases (member k js)) [
  | inl old ↦ elim (Bool-cases (equal j k)) [
    | inl e ↦ ground (arith, equal_iff j k)
    | inr n ↦ rw (old, n)
  ]
  | inr new ↦ rw new
]

pub member-add_self : (k : Bytes) (js : Names) → member k (add k js) ≡ true
member-add_self k js = rw (member-add, equal_refl k)

pub member-add_mono : (k j : Bytes) (js : Names) → member j js ≡ true → member j (add k js) ≡ true
member-add_mono k j js h = rw (member-add, h) (or-true_right _)

pub member-append : (k : Bytes) (a b : Names) → member k (a ++ b) ≡ (member k a || member k b)
unfolding member
member-append k [] b = refl
member-append k (j ∷ a) b = ground (arith, member-append k a b)
