-- ===== src/Snapshot/Filename.antt =====
-- `ParseBackupFilename` of lib/utils.go and the regular expressions that it and the sources match.
use uback.Base.{
  ℕ, zero, suc, ◌≡◌, refl, Bool, true, false, not, ◌&&◌, Option, none, some, List, [], ◌∷◌, ◌++◌,
  Bytes, codes, equal, cut_prefix, is_empty, ◌==◌, leb, if◌then◌else◌, Result, ok, err, Error,
}
use uback.Base.Matcher.{Matcher, ◌>>=◌, ◌>>◌, pure, literal}
use uback.Snapshot.{Snapshot, Backup, full_name, filename}
mod Match
mod Base
pub mod Shape
pub mod RoundTrip

unfoldable pub is_digit : ℕ → Bool
is_digit c = leb b'0' c && leb c b'9'

-- `\d{n}`
unfoldable pub match_digits : ℕ → Matcher Bytes
unfolding is_digit
match_digits zero s = some ([], s)
match_digits (suc n) [] = none
match_digits (suc n) (c ∷ s) = elim (match_digits n s) [
  | none ↦ none
  | some (ds, rest) ↦ if is_digit c then some (c ∷ ds, rest) else none
]

-- `SnapshotRe`. Its matches all have 19 bytes, so that no match is tried again with another length.
unfoldable pub match_snapshot : Matcher Snapshot
match_snapshot = do
  date ← match_digits 8
  literal (codes "T")
  clock ← match_digits 6
  literal (codes ".")
  millis ← match_digits 3
  pure (date ++ (b'T' ∷ (clock ++ (b'.' ∷ millis))))

-- `^SnapshotRe$`, by which the sources test a name.
unfoldable pub is_snapshot_name : Bytes → Bool
is_snapshot_name s = elim (match_snapshot s) [ none ↦ false | some (_, rest) ↦ is_empty rest ]

match_base : Matcher (Option Snapshot)
match_base = do literal (codes "from-"); base ← match_snapshot; pure (some base)

-- `full|from-(SnapshotRe)`, the second and third group of `backupFilenameRe`.
unfoldable pub match_kind : Matcher (Option Snapshot)
unfolding match_base
match_kind s = elim (literal (codes "full") s) [
  | some (_, rest) ↦ some (none, rest)
  | none ↦ match_base s
]

unfoldable pub match_backup : Matcher Backup
match_backup = do
  s ← match_snapshot
  literal (codes "-")
  base ← match_kind
  pure (record { snapshot = s; base_snapshot = base })

-- `(\.ubkp)?$`: whether the extension is there, `none` if something else follows.
unfoldable pub match_extension : Bytes → Option Bool
match_extension s =
    if is_empty s then some false else if equal s (codes ".ubkp") then some true else none

-- `backupFilenameRe.FindStringSubmatch`: the backup that the groups spell, and whether the fourth
-- group is there.
unfoldable pub match_filename : Bytes → Option (Backup × Bool)
unfolding match_extension
match_filename f = elim (match_backup f) [
  | none ↦ none
  | some (b, e) ↦ elim (match_extension e) [ none ↦ none | some has_ext ↦ some (b, has_ext) ]
]

-- A text without its trailing slashes.
unfoldable pub strip_slashes : Bytes → Bytes
strip_slashes [] = []
strip_slashes (c ∷ s) =
    let rest = strip_slashes s in if c == b'/' && is_empty rest then [] else c ∷ rest

-- What follows the last slash, if there is one.
unfoldable pub after_last_slash : Bytes → Option Bytes
after_last_slash [] = none
after_last_slash (c ∷ s) = elim (after_last_slash s) [
  | some r ↦ some r
  | none ↦ if c == b'/' then some s else none
]

-- `path.Base`
unfoldable pub path_base : Bytes → Bytes
path_base [] = codes "."
path_base (c ∷ s) =
    let t = strip_slashes (c ∷ s) in
    if is_empty t then codes "/" else elim (after_last_slash t) [ none ↦ t | some r ↦ r ]

unfoldable pub parse_backup_filename : Bytes → Bool → Result Backup
parse_backup_filename f require_ext = elim (match_filename (path_base f)) [
  | none ↦ err Error.unparsable_filename
  | some (b, has_ext) ↦ if require_ext && not has_ext then err Error.missing_extension else ok b
]
