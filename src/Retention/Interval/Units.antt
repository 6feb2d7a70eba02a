-- ===== src/Retention/Interval/Units.antt =====
-- `ParseInterval` on digits and a unit: the seconds, as long as they fit in 64 bits.
use uback.Base.{
  ℕ, ◌-◌, ◌*◌, ◌<◌, ◌≤◌, ◌≡◌, refl, ap, ◌∙◌, true, ◌&&◌, none, some, [], ◌∷◌, ◌++◌, Bytes, codes,
  lookup, pos, negsuc, scale, wrap, wrap_exact, word_mod, half_mod, leb, ok, atoi, magnitude,
  decimal, equal, arith,
}
use uback.Retention.Interval.{
  interval_aliases, unit_seconds, split_last, interval_of, parse_plain_interval, expand_alias,
  parse_interval,
}

-- A number begins with a digit.
first_digit :
    (c : ℕ) (s : Bytes) {n : ℕ} → magnitude (c ∷ s) ≡ some n → (leb b'0' c && leb c b'9') ≡ true
unfolding magnitude decimal
first_digit c s h = ground arith

lookup-digit :
    (c : ℕ) (s : Bytes) → (leb b'0' c && leb c b'9') ≡ true → lookup (c ∷ s) interval_aliases ≡ none
unfolding lookup equal
lookup-digit c s h = ground arith

split_last-append : (c : ℕ) (s : Bytes) (unit : ℕ) → split_last c (s ++ unit ∷ []) ≡ (c ∷ s, unit)
unfolding split_last
split_last-append c [] unit = refl
split_last-append c (d ∷ s) unit = rw (split_last-append d s unit)

atoi-digits :
    (c : ℕ) (s : Bytes) (n : ℕ)
    → magnitude (c ∷ s) ≡ some n
    → n < half_mod
    → atoi (c ∷ s) ≡ ok (pos n)
unfolding atoi
atoi-digits c s n h k = ground (arith, first_digit c s h)

interval_of-unit :
    (whole front : Bytes) (n unit seconds : ℕ)
    → unit_seconds unit ≡ some seconds
    → atoi front ≡ ok (pos n)
    → interval_of whole front unit ≡ ok (wrap (pos (n * seconds)))
unfolding interval_of
interval_of-unit whole front n unit seconds u a =
    let exact : scale (pos n) seconds ≡ pos (n * seconds) = ground arith in ground arith

-- Digits and a unit give the product, cut to 64 bits.
parse_interval-wrap :
    (ds : Bytes) (n unit seconds : ℕ)
    → magnitude ds ≡ some n
    → n < half_mod
    → unit_seconds unit ≡ some seconds
    → parse_interval (ds ++ unit ∷ []) ≡ ok (wrap (pos (n * seconds)))
unfolding parse_interval interval_of
parse_interval-wrap [] n unit seconds h k u = unfold magnitude in ground arith
parse_interval-wrap (c ∷ ds) n unit seconds h k u =
    let whole = c ∷ (ds ++ unit ∷ []) in
    ap (λ o. parse_plain_interval (expand_alias o whole))
      (lookup-digit c (ds ++ unit ∷ []) (first_digit c ds h))
    ∙ ap (λ t. interval_of whole t.0 t.1) (split_last-append c ds unit)
    ∙ interval_of-unit whole (c ∷ ds) n unit seconds u (atoi-digits c ds n h k)

unit_seconds-pos : (unit seconds : ℕ) → unit_seconds unit ≡ some seconds → 0 < seconds
unfolding unit_seconds
unit_seconds-pos unit seconds h = ground arith

factor_le : (n seconds : ℕ) → 0 < seconds → n ≤ n * seconds
factor_le n seconds h = grind arith

wrap_negative : (m : ℕ) → half_mod ≤ m → m < word_mod → wrap (pos m) ≡ negsuc (word_mod - 1 - m)
unfolding wrap
wrap_negative m lo hi = ground arith

-- The seconds of a unit, if they are below 2^63.
parse_interval-unit :
    (ds : Bytes) (n unit seconds : ℕ)
    → magnitude ds ≡ some n
    → unit_seconds unit ≡ some seconds
    → n * seconds < half_mod
    → parse_interval (ds ++ unit ∷ []) ≡ ok (pos (n * seconds))
parse_interval-unit ds n unit seconds h u k =
    parse_interval-wrap ds n unit seconds h
      (omega (
        arith,
        unit_seconds-pos unit seconds u,
        factor_le n seconds (unit_seconds-pos unit seconds u),
      ))
      u
    ∙ ap ok (wrap_exact (pos (n * seconds)) (omega arith))

unit_le : (n seconds : ℕ) → n * 31536000 < half_mod → seconds ≤ 31536000 → n * seconds < half_mod
unit_le n seconds h k = grind arith

-- A number of years of 365 days, months of 30, weeks of 7, days of 24 hours or hours of 3600 seconds is parsed to
-- its seconds, if so many years have fewer than 2^63 of them.
pub parse_interval-units :
    (ds : Bytes) (n : ℕ)
    → magnitude ds ≡ some n
    → n * 31536000 < half_mod
    → (parse_interval (ds ++ codes "y") ≡ ok (pos (n * 31536000)))
      × (parse_interval (ds ++ codes "m") ≡ ok (pos (n * 2592000)))
      × (parse_interval (ds ++ codes "w") ≡ ok (pos (n * 604800)))
      × (parse_interval (ds ++ codes "d") ≡ ok (pos (n * 86400)))
      × (parse_interval (ds ++ codes "h") ≡ ok (pos (n * 3600)))
unfolding unit_seconds
parse_interval-units ds n h k = (
  parse_interval-unit ds n b'y' 31536000 h refl k,
  parse_interval-unit ds n b'm' 2592000 h refl (unit_le n 2592000 k (omega arith)),
  parse_interval-unit ds n b'w' 604800 h refl (unit_le n 604800 k (omega arith)),
  parse_interval-unit ds n b'd' 86400 h refl (unit_le n 86400 k (omega arith)),
  parse_interval-unit ds n b'h' 3600 h refl (unit_le n 3600 k (omega arith)),
)

-- If the number is below 2^63 and the seconds are between 2^63 and 2^64, the interval comes out negative, with no error.
pub parse_interval_overflow :
    (ds : Bytes) (n unit seconds : ℕ)
    → magnitude ds ≡ some n
    → n < half_mod
    → unit_seconds unit ≡ some seconds
    → half_mod ≤ n * seconds
    → n * seconds < word_mod
    → parse_interval (ds ++ unit ∷ []) ≡ ok (negsuc (word_mod - 1 - n * seconds))
parse_interval_overflow ds n unit seconds h k u lo hi =
    parse_interval-wrap ds n unit seconds h k u ∙ ap ok (wrap_negative (n * seconds) lo hi)
