-- ===== src/Base/Text/Order.antt =====
-- `compare_bytes` is a strict order in its `lt` results.
use Prim.Native.Nat.{Ordering}
use mathlib.Core.Path.{◌≡◌, refl}
use mathlib.Core.List.{[], ◌∷◌}
use native.Mathlib.Omega.{arith}
use uback.Base.Text.{Bytes, compare_bytes}

pub compare_bytes_self : (a : Bytes) → compare_bytes a a ≡ Ordering.eq
unfolding compare_bytes
compare_bytes_self [] = refl
compare_bytes_self (x ∷ a) = ground (arith, compare_bytes_self a)

pub compare_bytes_swap_lt :
    (a b : Bytes) → compare_bytes a b ≡ Ordering.lt → compare_bytes b a ≡ Ordering.gt
unfolding compare_bytes
compare_bytes_swap_lt [] [] h = ground arith
compare_bytes_swap_lt [] (y ∷ b) h = refl
compare_bytes_swap_lt (x ∷ a) [] h = ground arith
compare_bytes_swap_lt (x ∷ a) (y ∷ b) h = ground (arith, compare_bytes_swap_lt a b)

pub compare_bytes_swap_gt :
    (a b : Bytes) → compare_bytes a b ≡ Ordering.gt → compare_bytes b a ≡ Ordering.lt
unfolding compare_bytes
compare_bytes_swap_gt [] [] h = ground arith
compare_bytes_swap_gt (x ∷ a) [] h = refl
compare_bytes_swap_gt [] (y ∷ b) h = ground arith
compare_bytes_swap_gt (x ∷ a) (y ∷ b) h = ground (arith, compare_bytes_swap_gt a b)

pub compare_bytes_eq : (a b : Bytes) → compare_bytes a b ≡ Ordering.eq → a ≡ b
unfolding compare_bytes
compare_bytes_eq [] [] h = refl
compare_bytes_eq [] (y ∷ b) h = ground arith
compare_bytes_eq (x ∷ a) [] h = ground arith
compare_bytes_eq (x ∷ a) (y ∷ b) h = ground (arith, compare_bytes_eq a b)

pub compare_bytes_trans :
    (a b c : Bytes)
    → compare_bytes a b ≡ Ordering.lt
    → compare_bytes b c ≡ Ordering.lt
    → compare_bytes a c ≡ Ordering.lt
unfolding compare_bytes
compare_bytes_trans [] [] c h k = ground arith
compare_bytes_trans [] (y ∷ b) [] h k = ground arith
compare_bytes_trans [] (y ∷ b) (z ∷ c) h k = refl
compare_bytes_trans (x ∷ a) [] c h k = ground arith
compare_bytes_trans (x ∷ a) (y ∷ b) [] h k = ground arith
compare_bytes_trans (x ∷ a) (y ∷ b) (z ∷ c) h k = ground (arith, compare_bytes_trans a b c)
