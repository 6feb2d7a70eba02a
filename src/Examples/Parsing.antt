-- ===== src/Examples/Parsing.antt =====
-- File names, intervals and policies at concrete texts.
use uback.Base.{
  ℕ, ◌≡◌, ◌↔◌, ◌⊎◌, ◌*◌, ◌<◌, ◌≤◌, refl, Bool, true, false, Option, none, some, List, [], ◌∷◌, ◌++◌,
  Bytes, codes, ok, arith, pos, negsuc, Result, ◌>>=◌, atoi, trim_space, magnitude, half_mod,
  word_mod,
}
use uback.Snapshot.{Snapshot, Backup, filename, full_name}
use uback.Snapshot.Filename.{parse_backup_filename, path_base}
use uback.Snapshot.Filename.Shape.{is_valid}
use uback.Snapshot.Filename.RoundTrip.{parse_backup_filename_iff, parse_backup_filename-filename}
use uback.Retention.Interval.{parse_interval, unit_seconds}
use uback.Retention.Interval.Units.{parse_interval-units, parse_interval_overflow}
use uback.Retention.Policy.{parse_retention_policy}
use uback.Retention.Policy.Text.{lacks, full_options, parse_retention_policy-text, is_positive}
use uback.Examples.Data.{full_one, next_two}

parse_backup_filename_iff_example :
    (parse_backup_filename (codes "backups/20210101T000000.000-full.ubkp") true ≡ ok full_one) ↔ (
      (is_valid full_one ≡ true)
      × ((path_base (codes "backups/20210101T000000.000-full.ubkp") ≡ filename full_one)
          ⊎ ((true ≡ false)
              × (path_base (codes "backups/20210101T000000.000-full.ubkp") ≡ full_name full_one))))
parse_backup_filename_iff_example =
    parse_backup_filename_iff (codes "backups/20210101T000000.000-full.ubkp") true full_one

parse_backup_filename-filename_example :
    parse_backup_filename (filename next_two) true ≡ ok next_two
unfolding uback.Snapshot.Filename.is_snapshot_name uback.Snapshot.Filename.match_snapshot
    uback.Base.Matcher.◌>>=◌ uback.Snapshot.Filename.match_digits uback.Base.Matcher.◌>>◌
    uback.Base.Matcher.literal uback.Base.cut_prefix uback.Base.Matcher.pure
parse_backup_filename-filename_example = parse_backup_filename-filename next_two true refl

parse_interval-units_example :
    (parse_interval (codes "2y") ≡ ok (pos 63072000))
    × (parse_interval (codes "2m") ≡ ok (pos 5184000))
    × (parse_interval (codes "2w") ≡ ok (pos 1209600))
    × (parse_interval (codes "2d") ≡ ok (pos 172800))
    × (parse_interval (codes "2h") ≡ ok (pos 7200))
unfolding magnitude uback.Base.decimal
parse_interval-units_example = parse_interval-units (codes "2") 2 refl (omega arith)

parse_interval_overflow_example :
    parse_interval (codes "300000000000y") ≡ ok (negsuc 8985944073709551615)
unfolding magnitude unit_seconds uback.Base.decimal
parse_interval_overflow_example =
    parse_interval_overflow (codes "300000000000") 300000000000 b'y' 31536000 refl (omega arith)
      refl (omega arith) (omega arith)

parse_retention_policy-text_example : parse_retention_policy (codes "1d=3:full") ≡ (
    atoi (trim_space (codes "3")) >>= λ count. parse_interval (trim_space (codes "1d")) >>= λ intv.
    ok (record { interval = intv; count = count; full_only = is_positive 1 }))
unfolding lacks full_options
parse_retention_policy-text_example =
    parse_retention_policy-text (codes "1d") (codes "3") 1 refl refl
