-- ===== src/Retention/Policy.antt =====
-- `ParseRetentionPolicy`.
pub mod Text
use uback.Base.{
  Bool, true, false, Option, none, some, List, [], ◌∷◌, Bytes, codes, equal, if◌then◌else◌, Result,
  ok, err, Error, ◌>>=◌, atoi, trim_space, split_once, split,
}
use uback.Retention.{RetentionPolicy}
use uback.Retention.Interval.{parse_interval}

-- The loop over the options behind the count.
unfoldable pub parse_options : RetentionPolicy → List Bytes → Result RetentionPolicy
parse_options p [] = ok p
parse_options p (opt ∷ opts) =
    let rest = parse_options (record p { full_only = true }) opts in
    if equal (trim_space opt) (codes "full") then rest else err Error.invalid_option

-- The value behind the `=`, split at its colons.
unfoldable pub parse_fields : Bytes → Bytes × List Bytes → Result RetentionPolicy
parse_fields k (count, options) = atoi (trim_space count) >>= λ count.
    parse_interval (trim_space k) >>= λ intv.
    parse_options (record { interval = intv; count = count; full_only = false }) options

unfoldable pub parse_item : Bytes × Option Bytes → Result RetentionPolicy
unfolding parse_options parse_fields
parse_item (k, none) = err Error.invalid_item
parse_item (k, some value) = parse_fields k (split b':' value)

unfoldable pub parse_retention_policy : Bytes → Result RetentionPolicy
unfolding parse_item
parse_retention_policy policy = parse_item (split_once b'=' policy)
