-- ===== src/Retention/Tests.antt =====
-- The definitions at the inputs of lib/retention_test.go and others, and the theorems at concrete data.
use uback.Base.{
  ◌≡◌, refl, true, codes, ok, pos, negsuc, wrap, lookup, equal, trim_space, split_once, split, atoi,
  cut_prefix,
}
use uback.Snapshot.Time.{snapshot_time}
use uback.Retention.Interval.{parse_interval}
use uback.Retention.Policy.{parse_retention_policy}

parse_interval_week : parse_interval (codes "2w") ≡ ok (pos 1209600)
unfolding parse_interval lookup equal atoi wrap
parse_interval_week = refl

parse_interval_alias : parse_interval (codes "daily") ≡ ok (pos 86400)
unfolding parse_interval lookup equal atoi wrap
parse_interval_alias = refl

-- Three hundred thousand million years are 2^63 seconds and more.
parse_interval_wraps : parse_interval (codes "300000000000y") ≡ ok (negsuc 8985944073709551615)
unfolding parse_interval lookup equal atoi wrap
parse_interval_wraps = refl

parse_retention_policy_full :
    parse_retention_policy (codes " 1d = 3 : full")
    ≡ ok (record { interval = pos 86400; count = pos 3; full_only = true })
unfolding parse_retention_policy parse_interval lookup equal atoi wrap trim_space split_once split
parse_retention_policy_full = refl

snapshot_time_example : snapshot_time (codes "20210101T000000.001") ≡ ok 63776678400001
unfolding snapshot_time cut_prefix
snapshot_time_example = refl
