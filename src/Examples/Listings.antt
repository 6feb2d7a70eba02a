-- ===== src/Examples/Listings.antt =====
-- An fs destination in the working directory, whose entries are a list in memory.
use mathlib.Core.Bool.{false≢true}
use uback.Base.{
  ◌≡◌, ◌↔◌, ◌⊎◌, refl, sym, ap, ◌∙◌, Bool, true, false, not, none, some, Option, inl, inr, List, [],
  ◌∷◌, Bytes, codes, Result, ok, err, Error, filter, In, In-cases, In-filter, filter-In, here,
  there, equal, equal_refl, arith,
}
use uback.Snapshot.{Backup}
use uback.Destinations.{Entry, listed_backups}
use uback.Destinations.Fs.{Files, list_backups, send_backup}
use uback.Destinations.Fs.Entries.{ListsFiles}
use uback.Destinations.Fs.Sent.{send_backup-list_backups}
use uback.Examples.Data.{full_one, next_two}

abbrev without : Bytes → List Entry → List Entry
without name = filter (λ e. not (equal e.0 name))

abbrev with_file : Bytes → List Entry → List Entry
with_file name s = (name, false) ∷ without name s

abbrev copied : Option Error → Result (Unit {0})
copied none = ok tt
copied (some e) = err e

-- The path of an entry of the directory "." is its name.
abbrev working_directory : Files
working_directory = record {
  State = List Entry;
  join = λ a b. b;
  make_directories = λ p s. (s, ok tt);
  read_directory = λ p s. ok s;
  create = λ p s. (with_file p s, ok tt);
  copy = λ p stream s. (s, copied stream.failure);
  rename = λ p r s. (with_file r (without p s), ok tt);
  remove = λ p s. (without p s, ok tt);
  open_file = λ p s. err (Error.external 2);
}

In-without :
    (name : Bytes) (s : List Entry) (e : Entry)
    → equal e.0 name ≡ false
    → In e (without name s) ↔ In e s
In-without name s e other = (λ i. (filter-In s _ i).0, λ i. In-filter _ i (rw other refl))

In-with_file :
    (name : Bytes) (s : List Entry) (e : Entry)
    → equal e.0 name ≡ false
    → In e (with_file name s) ↔ In e s
In-with_file name s e other = (
  λ i. elim (In-cases i) [
    | inl q ↦
        let same = ap (λ e. equal e.0 name) q ∙ equal_refl name in
        absurd (false≢true (sym other ∙ same))
    | inr j ↦ (In-without name s e other).0 j
  ],
  λ i. there ((In-without name s e other).1 i),
)

abbrev lists_files : ListsFiles working_directory (codes ".")
lists_files = record {
  entries = λ s. s;
  read_directory-entries = λ s. refl;
  In-create = In-with_file;
  created-In = λ name s h. here refl;
  In-copy = λ path stream s e. (λ i. i, λ i. i);
  In-remove = In-without;
  In-rename = λ old new s e other other'. (
    λ i. (In-without old s e other).0 ((In-with_file new (without old s) e other').0 i),
    λ i. (In-with_file new (without old s) e other').1 ((In-without old s e other).1 i),
  );
  renamed-In = λ old new s i h. here refl;
  In-rename_failed = λ old new s x e h. ground arith;
}

abbrev first_file : List Entry
first_file = (codes "20210101T000000.000-full.ubkp", false) ∷ []

send_backup-list_backups_example :
    In next_two (next_two ∷ full_one ∷ [])
    ↔ (((send_backup working_directory
            (codes ".")
            next_two
            (record { content = codes "data"; failure = none })
            first_file).1
          ≡ ok tt)
        × (next_two ≡ next_two))
      ⊎ In next_two (full_one ∷ [])
unfolding list_backups send_backup listed_backups filter equal uback.Snapshot.filename
    uback.Snapshot.full_name uback.Destinations.Fs.and_remove uback.Destinations.Fs.copy_created
    uback.Destinations.Fs.rename_copied uback.Snapshot.Filename.is_snapshot_name
    uback.Snapshot.Filename.match_snapshot uback.Base.Matcher.◌>>=◌
    uback.Snapshot.Filename.match_digits uback.Base.Matcher.◌>>◌ uback.Base.Matcher.literal
    uback.Base.cut_prefix uback.Base.Matcher.pure uback.Base.has_prefix
    uback.Snapshot.Filename.parse_backup_filename uback.Snapshot.Filename.match_filename
    uback.Snapshot.Filename.match_backup uback.Snapshot.Filename.path_base
    uback.Snapshot.Filename.strip_slashes uback.Snapshot.Filename.after_last_slash
    uback.Snapshot.Filename.match_kind
send_backup-list_backups_example =
    send_backup-list_backups working_directory (codes ".") lists_files next_two
      (record { content = codes "data"; failure = none }) first_file next_two (full_one ∷ [])
      (next_two ∷ full_one ∷ []) refl refl refl
