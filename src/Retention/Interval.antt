-- ===== src/Retention/Interval.antt =====
-- `ParseInterval`.
pub mod Units
use uback.Base.{
  ℕ, ◌*◌, Bool, true, false, ◌||◌, Option, none, some, List, [], ◌∷◌, Bytes, codes, Dict, lookup, ℤ,
  scale, wrap, ◌==◌, if◌then◌else◌, Result, ok, err, Error, ◌>>=◌, atoi, equal,
}

abbrev pub interval_aliases : Dict Bytes
interval_aliases =
    (codes "yearly", codes "1y")
    ∷ (codes "monthly", codes "1m")
    ∷ (codes "weekly", codes "1w")
    ∷ (codes "daily", codes "1d")
    ∷ (codes "hourly", codes "1h")
    ∷ []

-- The seconds of a unit, `none` if the byte is none of "ymwdh".
unfoldable pub unit_seconds : ℕ → Option ℕ
unit_seconds c =
    if c == b'y'
    then some (365 * 24 * 3600)
    else if c == b'm'
    then some (30 * 24 * 3600)
    else if c == b'w'
    then some (7 * 24 * 3600)
    else if c == b'd'
    then some (24 * 3600)
    else if c == b'h'
    then some 3600
    else none

-- A text as all but its last byte, and that byte.
unfoldable pub split_last : ℕ → Bytes → Bytes × ℕ
split_last c [] = ([], c)
split_last c (d ∷ s) = let rest = split_last d s in (c ∷ rest.0, rest.1)

-- The product is taken in 64 bits.
unfoldable pub interval_of : Bytes → Bytes → ℕ → Result ℤ
unfolding unit_seconds
interval_of whole front last = elim (unit_seconds last) [
  | none ↦ atoi whole
  | some seconds ↦ atoi front >>= λ n. ok (wrap (scale n seconds))
]

unfoldable pub parse_plain_interval : Bytes → Result ℤ
unfolding interval_of split_last
parse_plain_interval [] = err Error.empty_interval
parse_plain_interval (c ∷ s) = let parts = split_last c s in interval_of (c ∷ s) parts.0 parts.1

unfoldable pub expand_alias : Option Bytes → Bytes → Bytes
expand_alias none intv = intv
expand_alias (some alias) intv = alias

unfoldable pub parse_interval : Bytes → Result ℤ
unfolding parse_plain_interval expand_alias
parse_interval intv = parse_plain_interval (expand_alias (lookup intv interval_aliases) intv)
