-- ===== src/Snapshot/Time.antt =====
-- `Snapshot.Time` of lib/utils.go: `time.ParseInLocation` with the layout 20060102T150405.000, in UTC.
-- A time is the number of milliseconds since the start of the year 0.
use uback.Base.{
  ℕ, zero, suc, ◌+◌, ◌-◌, ◌*◌, ◌/◌, ◌%◌, Bool, true, false, not, ◌&&◌, ◌||◌, none, some, [], ◌∷◌,
  codes, ◌==◌, leb, ltb, if◌then◌else◌, is_empty, Result, ok, err, Error,
}
use uback.Base.Matcher.{Matcher, ◌>>=◌, ◌>>◌, pure, literal}
use uback.Snapshot.{Snapshot, Backup}
use uback.Snapshot.Filename.{is_digit}

abbrev digit : ℕ → ℕ
digit c = c - b'0'

-- Four digits, the year.
unfoldable pub get_year : Matcher ℕ
unfolding is_digit
get_year (a ∷ b ∷ c ∷ d ∷ s) =
    if is_digit a && is_digit b && is_digit c && is_digit d
    then some (digit a * 1000 + digit b * 100 + digit c * 10 + digit d, s)
    else none
get_year s = none

-- Package time's `getnum(s, true)`: exactly two digits.
unfoldable pub get_two : Matcher ℕ
unfolding is_digit
get_two (a ∷ b ∷ s) = if is_digit a && is_digit b then some (digit a * 10 + digit b, s) else none
get_two s = none

-- `getnum(s, false)`, by which the hour is read: one digit is enough.
unfoldable pub get_hour : Matcher ℕ
unfolding is_digit
get_hour [] = none
get_hour (a ∷ []) = if is_digit a then some (digit a, []) else none
get_hour (a ∷ b ∷ s) =
    if is_digit a
    then if is_digit b then some (digit a * 10 + digit b, s) else some (digit a, b ∷ s)
    else none

-- `parseNanoseconds` on a period or comma and three more bytes, where `atoi` takes a sign too; a
-- negative fraction is out of range.
unfoldable pub get_millis : Matcher ℕ
unfolding is_digit
get_millis (p ∷ a ∷ b ∷ c ∷ s) =
    let small = digit b * 10 + digit c in
    if not (p == b'.' || p == b',') || not (is_digit b && is_digit c)
    then none
    else if is_digit a
    then some (digit a * 100 + small, s)
    else if a == b'+' || (a == b'-' && small == 0)
    then some (small, s)
    else none
get_millis s = none

-- A field that is refused outside `lo ≤ v < hi`.
unfoldable pub within : ℕ → ℕ → ℕ → Matcher ℕ
within lo hi v s = if leb lo v && ltb v hi then some (v, s) else none

abbrev pub is_leap : ℕ → Bool
is_leap y = y % 4 == 0 && ((if y % 100 == 0 then false else true) || y % 400 == 0)

-- The days of a month, and those of the year before it.
unfoldable pub days_in : ℕ → ℕ → ℕ
days_in y m =
    if m == 2
    then if is_leap y then 29 else 28
    else if m == 4 || m == 6 || m == 9 || m == 11
    then 30
    else 31

unfoldable pub days_before_month : ℕ → ℕ → ℕ
unfolding days_in
days_before_month y zero = 0
days_before_month y (suc zero) = 0
days_before_month y (suc (suc m)) = days_before_month y (suc m) + days_in y (suc m)

-- The leap years below `y`.
abbrev pub leap_years : ℕ → ℕ
leap_years y = (y + 3) / 4 - (y + 99) / 100 + (y + 399) / 400

unfoldable pub days_before_year : ℕ → ℕ
days_before_year y = 365 * y + leap_years y

pub record Civil : Type 0 where
  pub year : ℕ
  pub month : ℕ
  pub day : ℕ
  pub hour : ℕ
  pub minute : ℕ
  pub second : ℕ
  pub milli : ℕ

-- `time.Date`, for fields in range.
unfoldable pub date : Civil → ℕ
unfolding days_before_year days_before_month
date c =
    let days = days_before_year c.year + days_before_month c.year c.month + (c.day - 1) in
    (((days * 24 + c.hour) * 60 + c.minute) * 60 + c.second) * 1000 + c.milli

unfoldable pub get_civil : Matcher Civil
unfolding get_year get_two get_hour get_millis within ◌>>=◌ ◌>>◌ pure literal
get_civil = do
  year ← get_year
  month ← get_two
  month ← within 1 13 month
  day ← get_two
  literal (codes "T")
  hour ← get_hour
  hour ← within 0 24 hour
  minute ← get_two
  minute ← within 0 60 minute
  second ← get_two
  second ← within 0 60 second
  milli ← get_millis
  pure (record {
    year = year;
    month = month;
    day = day;
    hour = hour;
    minute = minute;
    second = second;
    milli = milli;
  })

-- `time.ParseInLocation`: nothing may follow, and the day must exist.
unfoldable pub snapshot_time : Snapshot → Result ℕ
unfolding get_civil date days_in
snapshot_time s = elim (get_civil s) [
  | none ↦ err Error.invalid_time
  | some (c, rest) ↦
      if is_empty rest && leb 1 c.day && leb c.day (days_in c.year c.month)
      then ok (date c)
      else err Error.invalid_time
]

abbrev pub backup_time : Backup → Result ℕ
backup_time b = snapshot_time b.snapshot
