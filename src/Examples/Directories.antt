-- ===== src/Examples/Directories.antt =====
-- A tar source whose directory of snapshot files is a list of names in memory.
use uback.Base.{
  ◌≡◌, refl, sym, ap, ◌∙◌, Bool, Bool-cases, inl, inr, true, false, not, none, List, [], ◌∷◌, ◌++◌,
  Bytes, codes, ok, err, Error, filter, In, In-filter, member, equal, arith,
}
use uback.System.{Entry, System, finished}
use uback.Sources.{listed_snapshots}
use uback.Sources.Tar.{Tar, tar_source}
use uback.Sources.Tar.Keeping.{HoldsEntries, prune_snapshots-tar_source}
use uback.Prune.{prune_snapshots}
use uback.Examples.Data.{day_one, day_two, day_three, used_state}

abbrev without : Bytes → List Entry → List Entry
without path = filter (λ e. not (equal (codes "s/" ++ e.0) path))

abbrev directory : System
directory = record {
  State = List Entry;
  now = λ s. 0;
  stamp = λ s. day_three;
  join = λ a b. a ++ (b'/' ∷ b);
  make_directories = λ p s. (s, ok tt);
  read_directory = λ p s. ok s;
  open_file = λ p s. err (Error.external 2);
  create = λ p s. (s, ok tt);
  copy = λ p stream s. (s, ok tt);
  rename = λ p q s. (s, ok tt);
  remove = λ p s. (without p s, ok tt);
  remove_all = λ p s. (without p s, ok tt);
  read_file = λ p s. err (Error.external 2);
  write_file = λ p v s. (s, ok tt);
  create_temporary = λ p s. (s, ok p);
  write = λ p v s. (s, ok tt);
  sync = λ p s. (s, ok tt);
  execute = λ words env input s. (s, finished [] none);
}

In-without :
    (s : List Entry) (name : Bytes) (e : Entry)
    → In e s
    → equal e.0 name ≡ false
    → In e (without (codes "s/" ++ name) s)
unfolding equal
In-without s name e i other = In-filter _ i (rw other refl)

abbrev holds_entries : HoldsEntries directory (codes "s")
holds_entries = record {
  entries = λ s. s;
  read_directory-entries = λ s. refl;
  entries-remove = In-without;
}

abbrev tar_files : Tar
tar_files = record { snapshots_path = codes "s"; base_path = codes "b"; command = codes "tar" ∷ [] }

abbrev three_files : List Entry
three_files = (day_one, false) ∷ (day_two, false) ∷ (day_three, false) ∷ []

prune_snapshots-tar_source_example :
    unfold tar_source in
    member day_one (
      listed_snapshots false
        (prune_snapshots (tar_source directory tar_files) [] used_state three_files).0)
    ≡ true
unfolding tar_source listed_snapshots member equal uback.Base.values uback.Base.has_prefix
    uback.Snapshot.Filename.is_snapshot_name uback.Snapshot.Filename.match_snapshot
    uback.Base.Matcher.◌>>=◌ uback.Snapshot.Filename.match_digits uback.Base.Matcher.◌>>◌
    uback.Base.Matcher.literal uback.Base.cut_prefix uback.Base.Matcher.pure
prune_snapshots-tar_source_example =
    prune_snapshots-tar_source directory tar_files holds_entries refl [] used_state three_files
      day_one refl refl
