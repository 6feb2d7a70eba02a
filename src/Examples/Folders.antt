-- ===== src/Examples/Folders.antt =====
-- A directory in memory that meets what the fs destination relies on, and a pruning there.
use uback.Base.{
  ◌≡◌, refl, sym, ap, ◌∙◌, subst, Bool, false, not, Bool-cases, none, some, Option, inl, inr, List,
  [], ◌∷◌, Bytes, codes, Result, ok, err, Error, filter, filter-In, equal, equal_iff, equal_refl,
  if◌then◌else◌, arith,
}
use uback.Snapshot.Filename.{path_base}
use uback.Sorting.Reordered.{Reordered, untouched}
use uback.Chain.Sound.{IsSound}
use uback.Destinations.{Entry}
use uback.Destinations.Fs.{Files, fs_destination}
use uback.Destinations.Fs.Parts.{others}
use uback.Retention.{RetentionPolicy}
use uback.Prune.{cmd_prune_backups}
use uback.Backup.Run.{World}
use uback.History.{KeepsBackups, stays, goes, prunes_backups}
use uback.History.Restorable.{Reaches-IsSound}
use uback.Examples.Memory.{memory_source}
use uback.Examples.Histories.{memory_source-UsesBase}
use uback.Destinations.Fs.Kept.{KeepsEntries, fs_destination-KeepsBackups}

abbrev is_plain : Bytes → Bool
is_plain n = equal (path_base n) n

abbrev names : List Entry → List Entry
names = filter (λ e. is_plain e.0)

abbrev with_file : Bytes → List Entry → List Entry
with_file n s = (n, false) ∷ others n s

abbrev copied : Option Error → Result (Unit {0})
copied none = ok tt
copied (some e) = err e

-- Only plain names are entries.
abbrev folder : Files
folder = record {
  State = List Entry;
  join = λ a b. b;
  make_directories = λ p s. (s, ok tt);
  read_directory = λ p s. ok (names s);
  create = λ p s. (with_file p s, ok tt);
  copy = λ p stream s. (s, copied stream.failure);
  rename = λ p r s.
      if is_plain r then (with_file r (others p s), ok tt) else (s, err (Error.external 3));
  remove = λ p s. (others p s, ok tt);
  open_file = λ p s. err (Error.external 2);
}

filter-filter :
    (p q : Entry → Bool) (s : List Entry) → filter p (filter q s) ≡ filter q (filter p s)
unfolding filter
filter-filter p q [] = refl
filter-filter p q (e ∷ s) =
    let rest = filter-filter p q s in
    elim (Bool-cases (p e)) [
      | inl h ↦ elim (Bool-cases (q e)) [
        | inl k ↦ rw (h, k, h) (ap (λ l. e ∷ l) rest)
        | inr k ↦ rw (h, k) rest
      ]
      | inr h ↦ elim (Bool-cases (q e)) [ inl k ↦ rw (h, k, h) rest | inr k ↦ rw (h, k) rest ]
    ]

filter_again : (p : Entry → Bool) (s : List Entry) → filter p (filter p s) ≡ filter p s
unfolding filter
filter_again p [] = refl
filter_again p (e ∷ s) = elim (Bool-cases (p e)) [
  | inl h ↦ rw (h, h) (ap (λ l. e ∷ l) (filter_again p s))
  | inr h ↦ rw h (filter_again p s)
]

others-names : (n : Bytes) (s : List Entry) → names (others n s) ≡ others n (names s)
others-names n s = filter-filter (λ e. is_plain e.0) (λ e. not (equal e.0 n)) s

others_removed : (n : Bytes) (s : List Entry) → others n (names (others n s)) ≡ others n (names s)
others_removed n s = ap (others n) (others-names n s) ∙ filter_again _ (names s)

others_made : (n : Bytes) (s : List Entry) → others n (names (with_file n s)) ≡ others n (names s)
unfolding filter
others_made n s = elim (Bool-cases (is_plain n)) [
  | inl h ↦ rw (h, equal_refl n) (others_removed n s)
  | inr h ↦ rw h (others_removed n s)
]

rename_plain :
    (old new : Bytes) (s : List Entry)
    → (folder.rename old new s).1 ≡ ok tt
    → names (folder.rename old new s).0 ≡ (new, false) ∷ others old (others new (names s))
unfolding filter
rename_plain old new s h = elim (Bool-cases (is_plain new)) [
  | inl p ↦
      rw (p, p)
        (ap (λ l. (new, false) ∷ l)
          (others-names new (others old s)
            ∙ ap (others new) (others-names old s)
            ∙ filter-filter (λ e. not (equal e.0 new)) (λ e. not (equal e.0 old)) (names s)))
  | inr p ↦ let h' = rw p at h in ground arith
]

rename_refused :
    (old new : Bytes) (s : List Entry) (x : Error)
    → (folder.rename old new s).1 ≡ err x
    → names (folder.rename old new s).0 ≡ names s
rename_refused old new s x h = elim (Bool-cases (is_plain new)) [
  | inl p ↦ let h' = rw p at h in ground arith
  | inr p ↦ rw p refl
]

folder-KeepsEntries : KeepsEntries folder (codes ".")
folder-KeepsEntries = record {
  entries = names;
  read_directory-entries = λ s. refl;
  plain = λ s e i. (equal_iff (path_base e.0) e.0).0 (filter-In s (λ e. is_plain e.0) i).1;
  entries-create = others_made;
  entries-copy = λ p stream s. refl;
  entries-remove = others_removed;
  entries-removed = λ n s i. others-names n s;
  entries-renamed = λ old new s h.
      subst (λ l. Reordered ((new, false) ∷ others old (others new (names s))) l)
        (sym (rename_plain old new s h)) untouched;
  entries-rename_failed = rename_refused;
}

abbrev folder-KeepsBackups : KeepsBackups (fs_destination folder (codes "."))
folder-KeepsBackups = fs_destination-KeepsBackups folder (codes ".") folder-KeepsEntries

-- A pruning of the backups that the files of such a directory are.
pruned-IsSound :
    (policies : List RetentionPolicy) (w : World memory_source (fs_destination folder (codes ".")))
    → IsSound (folder-KeepsBackups.backups w.destination)
    → IsSound (
        folder-KeepsBackups.backups
          (cmd_prune_backups (fs_destination folder (codes ".")) false policies w.destination).0)
pruned-IsSound policies w =
    Reaches-IsSound memory_source (fs_destination folder (codes ".")) folder-KeepsBackups
      memory_source-UsesBase w _ (goes stays (prunes_backups false policies w))
