-- ===== src/Base/Signed.antt =====
-- Go's `int` and `time.Duration`: 64-bit words read as signed integers, with their wrap-around.
use Prim.Native.Nat.{ℕ, suc, ◌+◌, ◌-◌, ◌*◌, ◌%◌, ◌≤◌, ◌<◌}
use mathlib.Core.Path.{◌≡◌}
use mathlib.Core.Bool.{Bool}
use native.Mathlib.Omega.{arith}
use uback.Base.Tests.{ltb, leb, if◌then◌else◌}

-- `negsuc n` is -(n + 1).
pub data ℤ : Type 0 where
  pos : ℕ → ℤ
  negsuc : ℕ → ℤ

abbrev pub pos_part : ℤ → ℕ
pos_part (pos n) = n
pos_part (negsuc n) = 0

abbrev pub neg_part : ℤ → ℕ
neg_part (pos n) = 0
neg_part (negsuc n) = suc n

-- a - b, as an integer.
abbrev pub sub_ℕ : ℕ → ℕ → ℤ
sub_ℕ a b = if leb b a then pos (a - b) else negsuc (b - a - 1)

abbrev pub leb_ℤ : ℤ → ℤ → Bool
leb_ℤ a b = leb (pos_part a + neg_part b) (pos_part b + neg_part a)

infix 50 ◌≤ℤ◌
abbrev pub ◌≤ℤ◌ : ℤ → ℤ → Type 0
a ≤ℤ b = pos_part a + neg_part b ≤ pos_part b + neg_part a

-- a * k for a factor k ≥ 0.
abbrev pub scale : ℤ → ℕ → ℤ
scale a k = sub_ℕ (pos_part a * k) (neg_part a * k)

abbrev pub word_mod : ℕ
word_mod = 18446744073709551616

abbrev pub half_mod : ℕ
half_mod = 9223372036854775808

-- The integer that a word stands for in two's complement.
unfoldable pub of_word : ℕ → ℤ
of_word w = if ltb w half_mod then pos w else negsuc (word_mod - 1 - w)

-- An integer cut to 64 bits.
unfoldable pub wrap : ℤ → ℤ
unfolding of_word
wrap (pos n) = of_word (n % word_mod)
wrap (negsuc n) = of_word (word_mod - 1 - n % word_mod)

abbrev pub Fits : ℤ → Type 0
Fits a = (pos_part a < half_mod) × (neg_part a ≤ half_mod)

pub wrap-Fits : (a : ℤ) → Fits (wrap a)
unfolding wrap
wrap-Fits (pos n) = ground arith
wrap-Fits (negsuc n) = ground arith

pub wrap_exact : (a : ℤ) → Fits a → wrap a ≡ a
unfolding wrap
wrap_exact (pos n) h = ground arith
wrap_exact (negsuc n) h = ground arith

-- A value out of range is replaced by the bound, as `time.Time.Sub` does.
unfoldable pub saturate : ℤ → ℤ
saturate a =
    if leb half_mod (pos_part a)
    then pos (half_mod - 1)
    else if leb half_mod (neg_part a)
    then negsuc (half_mod - 1)
    else a
