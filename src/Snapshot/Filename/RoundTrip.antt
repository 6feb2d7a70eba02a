-- ===== src/Snapshot/Filename/RoundTrip.antt =====
-- `ParseBackupFilename` reverses `Filename` and `FullName`.
use mathlib.Core.List.{append_assoc, append-nil}
use uback.Base.{
  ℕ, ◌≡◌, refl, sym, ap, ◌∙◌, subst, Bool, true, false, not, ◌&&◌, Option, none, some, [], ◌∷◌,
  ◌++◌, arith, inl, inr, ◌⊎◌, ◌↔◌, ◌↔◌, Bytes, codes, is_empty, if◌then◌else◌, Option-cases,
  and-eq-true, ok, err, Error,
}
use uback.Snapshot.{Snapshot, Backup, full_name, filename}
use uback.Snapshot.Filename.{is_snapshot_name, match_filename, path_base, parse_backup_filename}
use uback.Snapshot.Filename.Base.{no_slash, no_slash-append, path_base-no_slash, snapshot_no_slash}
use uback.Snapshot.Filename.Shape.{
  is_valid, is_valid_base, extension, match_filename-append, match_filename_sound,
}

is_empty-append : (a : Bytes) (c : ℕ) (t : Bytes) → is_empty (a ++ (c ∷ t)) ≡ false
is_empty-append [] c t = refl
is_empty-append (x ∷ a) c t = refl

is_empty-full_name :
    (s : Snapshot) (base : Option Snapshot) (t : Bytes)
    → is_empty (full_name (record { snapshot = s; base_snapshot = base }) ++ t) ≡ false
unfolding full_name
is_empty-full_name s none t = rw append_assoc (is_empty-append s _ _)
is_empty-full_name s (some base) t = rw append_assoc (is_empty-append s _ _)

full_name-no_slash :
    (s : Snapshot) (base : Option Snapshot)
    → is_snapshot_name s ≡ true
    → is_valid_base base ≡ true
    → no_slash (full_name (record { snapshot = s; base_snapshot = base })) ≡ true
unfolding full_name no_slash
full_name-no_slash s none h k = no_slash-append s _ (snapshot_no_slash s h) refl
full_name-no_slash s (some base) h k =
    no_slash-append s _ (snapshot_no_slash s h) (snapshot_no_slash base k)

extension-no_slash : (has_ext : Bool) → no_slash (extension has_ext) ≡ true
unfolding no_slash
extension-no_slash true = refl
extension-no_slash false = refl

path_base-name :
    (b : Backup) (has_ext : Bool)
    → is_valid b ≡ true
    → path_base (full_name b ++ extension has_ext) ≡ full_name b ++ extension has_ext
path_base-name b has_ext h =
    let (h₁, h₂) = and-eq-true (is_snapshot_name b.snapshot) _ h in
    path_base-no_slash _
      (no_slash-append (full_name b) _ (full_name-no_slash b.snapshot b.base_snapshot h₁ h₂)
        (extension-no_slash has_ext))
      (is_empty-full_name b.snapshot b.base_snapshot _)

parse_of_name :
    (f : Bytes) (b : Backup) (require_ext has_ext : Bool)
    → is_valid b ≡ true
    → path_base f ≡ full_name b ++ extension has_ext
    → parse_backup_filename f require_ext
      ≡ (if require_ext && not has_ext then err Error.missing_extension else ok b)
unfolding parse_backup_filename
parse_of_name f b require_ext has_ext h e =
    let (h₁, h₂) = and-eq-true (is_snapshot_name b.snapshot) _ h in
    ground (arith, match_filename-append b.snapshot b.base_snapshot has_ext h₁ h₂)

-- The forward half: what is parsed is spelled by the last element of the path.
parse_backup_filename_sound :
    (f : Bytes) (require_ext : Bool) (b : Backup)
    → parse_backup_filename f require_ext ≡ ok b
    → (is_valid b ≡ true)
      × ((path_base f ≡ filename b) ⊎ ((require_ext ≡ false) × (path_base f ≡ full_name b)))
unfolding parse_backup_filename filename
parse_backup_filename_sound f require_ext b h = elim (Option-cases (match_filename (path_base f))) [
  | inl e ↦ ground arith
  | inr ((b', true), e) ↦
      let (v, s) = match_filename_sound (path_base f) b' true e in
      let same : b' ≡ b = ground arith in
      (subst (λ b. is_valid b ≡ true) same v, inl (s ∙ ap (λ b. full_name b ++ codes ".ubkp") same))
  | inr ((b', false), e) ↦
      let (v, s) = match_filename_sound (path_base f) b' false e in
      let same : b' ≡ b = ground arith in
      let optional : require_ext ≡ false = ground arith in
      (
        subst (λ b. is_valid b ≡ true) same v,
        inr (optional, s ∙ append-nil (full_name b') ∙ ap full_name same),
      )
]

-- A backup is parsed from a path exactly if its names are valid and the last element of the path is
-- its file name, or its full name where the extension is not required.
pub parse_backup_filename_iff :
    (f : Bytes) (require_ext : Bool) (b : Backup)
    → (parse_backup_filename f require_ext ≡ ok b) ↔ (
        (is_valid b ≡ true)
        × ((path_base f ≡ filename b) ⊎ ((require_ext ≡ false) × (path_base f ≡ full_name b))))
unfolding filename
parse_backup_filename_iff f require_ext b = (
  parse_backup_filename_sound f require_ext b,
  λ (v, named). elim named [
    | inl e ↦ parse_of_name f b require_ext true v e ∙ ground arith
    | inr (optional, e) ↦
        parse_of_name f b require_ext false v (e ∙ sym (append-nil (full_name b))) ∙ ground arith
  ],
)

-- `ParseBackupFilename` reverses `Filename`, with or without a required extension, for every backup
-- whose names are valid.
pub parse_backup_filename-filename :
    (b : Backup) (require_ext : Bool)
    → is_valid b ≡ true
    → parse_backup_filename (filename b) require_ext ≡ ok b
unfolding filename
parse_backup_filename-filename b require_ext h =
    parse_of_name (filename b) b require_ext true h (path_base-name b true h) ∙ ground arith
