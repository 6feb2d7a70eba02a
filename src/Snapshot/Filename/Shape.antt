-- ===== src/Snapshot/Filename/Shape.antt =====
-- What `backupFilenameRe` matches: the names of backups, with or without the extension.
use mathlib.Core.List.{append_assoc}
use mathlib.Core.Path.{subst₂}
use uback.Base.{
  ◌≡◌, refl, ap, ◌∙◌, subst, Bool, true, false, ◌&&◌, Option, none, some, [], ◌∷◌, ◌++◌, arith, inl,
  inr, Bytes, codes, equal, equal_iff, cut_prefix, Option-cases,
}
use uback.Base.Matcher.{
  ◌>>=◌, ◌>>◌, pure, literal, Spells, bind-Spells, pure-Spells, literal-Spells, Ensures,
  bind-Ensures, then-Ensures, literal-eq-some, pure-Ensures,
}
use uback.Snapshot.{Snapshot, Backup, full_name}
use uback.Snapshot.Filename.{
  is_snapshot_name, match_base, match_kind, match_backup, match_extension, match_filename,
}
use uback.Snapshot.Filename.Match.{
  match_snapshot-append, match_snapshot-Spells, match_snapshot-valid,
}

abbrev pub is_valid_base : Option Snapshot → Bool
is_valid_base none = true
is_valid_base (some s) = is_snapshot_name s

-- Both names of the backup are of the form of `SnapshotRe`.
abbrev pub is_valid : Backup → Bool
is_valid b = is_snapshot_name b.snapshot && is_valid_base b.base_snapshot

abbrev pub extension : Bool → Bytes
extension true = codes ".ubkp"
extension false = []

match_kind-full : (t : Bytes) → match_kind (codes "full" ++ t) ≡ some (none, t)
unfolding match_kind literal cut_prefix
match_kind-full t = refl

match_kind-from :
    (s t : Bytes)
    → is_snapshot_name s ≡ true
    → match_kind (codes "from-" ++ (s ++ t)) ≡ some (some s, t)
unfolding match_kind literal cut_prefix ◌>>◌ pure
match_kind-from s t h = rw (match_snapshot-append s t h, ◌>>=◌)

match_backup-append :
    (s : Snapshot) (base : Option Snapshot) (t : Bytes)
    → is_snapshot_name s ≡ true
    → is_valid_base base ≡ true
    → match_backup (full_name (record { snapshot = s; base_snapshot = base }) ++ t)
      ≡ some (record { snapshot = s; base_snapshot = base }, t)
unfolding match_backup full_name ◌>>◌ literal cut_prefix pure
match_backup-append s none t h k =
    rw append_assoc (rw (match_snapshot-append s _ h, ◌>>=◌) (rw (match_kind-full t, ◌>>=◌)))
match_backup-append s (some base) t h k =
    rw append_assoc (rw (match_snapshot-append s _ h, ◌>>=◌) (rw (match_kind-from base t k, ◌>>=◌)))

pub match_filename-append :
    (s : Snapshot) (base : Option Snapshot) (has_ext : Bool)
    → is_snapshot_name s ≡ true
    → is_valid_base base ≡ true
    → match_filename
        (full_name (record { snapshot = s; base_snapshot = base }) ++ extension has_ext)
      ≡ some (record { snapshot = s; base_snapshot = base }, has_ext)
unfolding match_filename equal
match_filename-append s base true h k = rw (match_backup-append s base _ h k, match_filename)
match_filename-append s base false h k = rw (match_backup-append s base [] h k, match_filename)

show_kind : Option Snapshot → Bytes
show_kind none = codes "full"
show_kind (some base) = codes "from-" ++ base

match_base-Spells : Spells show_kind [] match_base
unfolding match_base ◌>>◌ show_kind
match_base-Spells =
    bind-Spells _ _ (λ _. codes "from-") show_kind [] (literal-Spells _)
      λ _. bind-Spells _ _ _ _ (codes "from-") match_snapshot-Spells λ base. pure-Spells _ _ _ refl

match_kind-Spells : Spells show_kind [] match_kind
unfolding match_kind show_kind
match_kind-Spells s a rest h = elim (Option-cases (literal (codes "full") s)) [
  | inl e ↦ match_base-Spells s a rest (ground arith)
  | inr ((u, r), e) ↦
      let full : a ≡ none = ground arith in
      let same : r ≡ rest = ground arith in rw (full, ← same) (literal-eq-some (codes "full") s e)
]

append-show_kind :
    (s : Snapshot) (base : Option Snapshot)
    → (s ++ codes "-") ++ show_kind base ≡ full_name (record { snapshot = s; base_snapshot = base })
unfolding full_name show_kind
append-show_kind s none = append_assoc s _ _
append-show_kind s (some base) = append_assoc s _ _

match_backup-Spells : Spells full_name [] match_backup
unfolding match_backup ◌>>◌ full_name show_kind
match_backup-Spells = bind-Spells _ _ _ full_name [] match_snapshot-Spells λ s.
    bind-Spells _ _ (λ _. codes "-") full_name s (literal-Spells _)
      λ _.
        bind-Spells _ _ _ full_name (s ++ codes "-") match_kind-Spells
          λ base. pure-Spells _ _ (s ++ codes "-" ++ show_kind base) (append-show_kind s base)

match_base-valid : Ensures (λ base. is_valid_base base ≡ true) match_base
unfolding match_base
match_base-valid =
    then-Ensures _ _ _ (bind-Ensures _ _ _ _ match_snapshot-valid λ base h. pure-Ensures _ _ h)

match_kind-valid : Ensures (λ base. is_valid_base base ≡ true) match_kind
unfolding match_kind
match_kind-valid s a rest h = elim (Option-cases (literal (codes "full") s)) [
  | inl e ↦ match_base-valid s a rest (ground arith)
  | inr ((u, r), e) ↦ ground arith
]

match_backup-valid : Ensures (λ b. is_valid b ≡ true) match_backup
unfolding match_backup
match_backup-valid = bind-Ensures _ _ _ _ match_snapshot-valid λ s h.
    then-Ensures _ _ _
      (bind-Ensures _ _ _ _ match_kind-valid λ base k. pure-Ensures _ _ (rw (h, k)))

match_extension-splits :
    (e : Bytes) (has_ext : Bool) → match_extension e ≡ some has_ext → e ≡ extension has_ext
unfolding match_extension
match_extension-splits [] has_ext h = ground arith
match_extension-splits (c ∷ e) true h = ground (arith, equal_iff (c ∷ e) (codes ".ubkp"))
match_extension-splits (c ∷ e) false h = ground (arith, equal_iff (c ∷ e) (codes ".ubkp"))

-- What the regular expression accepts is the name of a valid backup, with or without extension.
pub match_filename_sound :
    (f : Bytes) (b : Backup) (has_ext : Bool)
    → match_filename f ≡ some (b, has_ext)
    → (is_valid b ≡ true) × (f ≡ full_name b ++ extension has_ext)
unfolding match_filename
match_filename_sound f b has_ext h = elim (Option-cases (match_backup f)) [
  | inl e ↦ ground arith
  | inr ((b', r), e) ↦ elim (Option-cases (match_extension r)) [
    | inl e' ↦ ground arith
    | inr (x, e') ↦
        let same : b' ≡ b = ground arith in
        let ext : x ≡ has_ext = ground arith in
        let parts =
          match_backup-Spells f b' r e ∙ ap (◌++◌ (full_name b')) (match_extension-splits r x e') in
        (
          subst (λ b. is_valid b ≡ true) same (match_backup-valid f b' r e),
          subst₂ (λ b x. f ≡ full_name b ++ extension x) same ext parts,
        )
  ]
]
