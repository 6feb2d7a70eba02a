-- ===== src/Base/Numbers.antt =====
-- `strconv.Atoi`: an optional sign and decimal digits, in the range of a 64-bit integer.
use uback.Base.Tests.{leb, ltb, ◌==◌, if◌then◌else◌}
use uback.Base.Text.{Bytes}
use uback.Base.Signed.{ℤ, pos, sub_ℕ, half_mod}
use uback.Base.Errors.{Result, ok, err, Error}
use Prim.Native.Nat.{ℕ, ◌+◌, ◌-◌, ◌*◌}
use mathlib.Core.Bool.{Bool, true, false, ◌&&◌}
use mathlib.Core.Option.{Option, none, some}
use mathlib.Core.List.{[], ◌∷◌}

-- The number that decimal digits spell behind those read before; `none` at any other byte.
unfoldable pub decimal : ℕ → Bytes → Option ℕ
decimal acc [] = some acc
decimal acc (c ∷ s) =
    let rest = decimal (acc * 10 + (c - b'0')) s in if leb b'0' c && leb c b'9' then rest else none

unfoldable pub magnitude : Bytes → Option ℕ
magnitude [] = none
magnitude (c ∷ s) = decimal 0 (c ∷ s)

-- `limit` is the first magnitude out of range.
unfoldable pub signed : Bool → Option ℕ → Result ℤ
signed negative none = err Error.invalid_number
signed true (some n) = if leb n half_mod then ok (sub_ℕ 0 n) else err Error.invalid_number
signed false (some n) = if ltb n half_mod then ok (pos n) else err Error.invalid_number

unfoldable pub atoi : Bytes → Result ℤ
unfolding signed magnitude decimal
atoi [] = err Error.invalid_number
atoi (c ∷ s) =
    if c == b'-'
    then signed true (magnitude s)
    else if c == b'+'
    then signed false (magnitude s)
    else signed false (magnitude (c ∷ s))
