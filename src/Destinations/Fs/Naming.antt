-- ===== src/Destinations/Fs/Naming.antt =====
-- The names that the fs destination gives its files, and which of them it lists.
use uback.Base.{
  ℕ, Option, suc, some, none, ◌≡◌, sym, subst, true, false, Bool-cases, Option-cases, inl, inr, [],
  ◌∷◌, ◌++◌, Bytes, codes, has_prefix, equal, equal_iff, arith,
}
use uback.Base.Matcher.{◌>>=◌, bind-eq-some}
use mathlib.Core.List.{append_assoc}
use uback.Snapshot.{Snapshot, Backup, filename, full_name}
use uback.Snapshot.Filename.{is_digit, is_snapshot_name, match_snapshot, match_digits}
use uback.Destinations.{Entry, is_skipped}

-- What matches eight digits starts with one.
first_of_digits :
    (n c : ℕ) (s : Bytes) (r : Bytes × Bytes)
    → match_digits (suc n) (c ∷ s) ≡ some r
    → is_digit c ≡ true
unfolding match_digits is_digit
first_of_digits n c s r h = elim (Option-cases (match_digits n s)) [
  | inl e ↦ let h' = rw e at h in ground arith
  | inr ((ds, rest), e) ↦ elim (Bool-cases (is_digit c)) [
    | inl d ↦ d
    | inr d ↦ let h' = rw (e, d) at h in ground arith
  ]
]

pub first_digit : (c : ℕ) (s : Bytes) → is_snapshot_name (c ∷ s) ≡ true → is_digit c ≡ true
unfolding is_snapshot_name match_snapshot
first_digit c s h = elim (Option-cases (match_snapshot (c ∷ s))) [
  | inl e ↦ ground arith
  | inr ((a, rest), e) ↦
      let (date, r, digits, later) = bind-eq-some (match_digits 8) _ (c ∷ s) e in
      first_of_digits 7 c s (date, r) digits
]

shown_with_snapshot : (s t : Bytes) → is_snapshot_name s ≡ true → is_skipped (s ++ t, false) ≡ false
unfolding is_snapshot_name match_snapshot match_digits ◌>>=◌ has_prefix is_digit
shown_with_snapshot [] t h = ground arith
shown_with_snapshot (c ∷ s) t h = ground (arith, first_digit c s h)

pub shown_filename :
    (s : Snapshot) (base : Option Snapshot)
    → is_snapshot_name s ≡ true
    → is_skipped (filename (record { snapshot = s; base_snapshot = base }), false) ≡ false
unfolding filename full_name
shown_filename s none named =
    subst (λ n. is_skipped (n, false) ≡ false) (sym (append_assoc s _ _))
      (shown_with_snapshot s _ named)
shown_filename s (some base) named =
    subst (λ n. is_skipped (n, false) ≡ false) (sym (append_assoc s _ _))
      (shown_with_snapshot s _ named)

abbrev pub temporary_name : Backup → Bytes
temporary_name b = codes "_tmp-" ++ filename b

-- A name that is shown is not that of the temporary file.
pub not_temporary :
    (b : Backup) (e : Entry) → is_skipped e ≡ false → equal e.0 (temporary_name b) ≡ false
unfolding has_prefix
not_temporary b (name, dir) shown = elim (Bool-cases (equal name (temporary_name b))) [
  | inl same ↦
      let q = (equal_iff name (temporary_name b)).0 same in
      let hidden = subst (λ n. is_skipped (n, dir) ≡ false) q shown in ground arith
  | inr other ↦ other
]
