-- ===== src/Snapshot/Filename/Match.antt =====
-- A valid name is read whole, whatever follows it, and what is read is spelled like the name.
use mathlib.Core.List.{append_assoc, append-nil}
use uback.Base.{
  ℕ, zero, suc, ◌≡◌, sym, ap, ◌∙◌, subst, true, some, [], ◌∷◌, ◌++◌, arith, inl, inr, Bytes, codes,
  Option-cases,
}
use uback.Base.Matcher.{
  again_of_Spells, Spells, bind-Spells, pure-Spells, literal-Spells, ◌>>◌, IsExact, bind-IsExact,
  literal-IsExact, pure-IsExact,
}
use uback.Snapshot.Filename.{match_digits, match_snapshot, is_snapshot_name}

match_digits-again :
    (n : ℕ) (s ds rest t : Bytes)
    → match_digits n s ≡ some (ds, rest)
    → match_digits n (ds ++ t) ≡ some (ds, t)
unfolding match_digits
match_digits-again zero s ds rest t h = ground arith
match_digits-again (suc n) [] ds rest t h = ground arith
match_digits-again (suc n) (c ∷ s) ds rest t h = elim (Option-cases (match_digits n s)) [
  | inl e ↦ ground arith
  | inr ((ds', rest'), e) ↦ ground (arith, match_digits-again n s ds' rest' t)
]

match_digits-splits :
    (n : ℕ) (s ds rest : Bytes) → match_digits n s ≡ some (ds, rest) → s ≡ ds ++ rest
unfolding match_digits
match_digits-splits zero s ds rest h = ground arith
match_digits-splits (suc n) [] ds rest h = ground arith
match_digits-splits (suc n) (c ∷ s) ds rest h = elim (Option-cases (match_digits n s)) [
  | inl e ↦ ground arith
  | inr ((ds', rest'), e) ↦ ground (arith, match_digits-splits n s ds' rest')
]

match_digits-IsExact : (n : ℕ) → IsExact (match_digits n)
match_digits-IsExact n s ds rest h = record {
  word = ds;
  splits = match_digits-splits n s ds rest h;
  again = λ t. match_digits-again n s ds rest t h;
}

match_snapshot-IsExact : IsExact match_snapshot
unfolding match_snapshot ◌>>◌
match_snapshot-IsExact = bind-IsExact _ _ (match_digits-IsExact 8) λ date.
    bind-IsExact _ _ (literal-IsExact _) λ _. bind-IsExact _ _ (match_digits-IsExact 6) λ clock.
      bind-IsExact _ _ (literal-IsExact _)
        λ _. bind-IsExact _ _ (match_digits-IsExact 3) λ millis. pure-IsExact _

-- A match of `SnapshotRe` spells the name that it gives.
pub match_snapshot-Spells : Spells (λ a. a) [] match_snapshot
unfolding match_snapshot ◌>>◌
match_snapshot-Spells = bind-Spells _ _ _ _ [] (match_digits-splits 8) λ date.
    bind-Spells _ _ (λ x. codes "T") _ date (literal-Spells _)
      λ _. bind-Spells _ _ _ _ (date ++ codes "T") (match_digits-splits 6) λ clock.
        bind-Spells _ _ (λ x. codes ".") _ (date ++ codes "T" ++ clock) (literal-Spells _)
          λ _.
            bind-Spells _ _ _ _ (date ++ codes "T" ++ clock ++ codes ".") (match_digits-splits 3)
              λ millis.
                pure-Spells _ _ (date ++ codes "T" ++ clock ++ codes "." ++ millis)
                  (simp append_assoc)

match_snapshot-again :
    (s a rest t : Bytes) → match_snapshot s ≡ some (a, rest) → match_snapshot (a ++ t) ≡ some (a, t)
match_snapshot-again =
    again_of_Spells match_snapshot (λ a. a) match_snapshot-IsExact match_snapshot-Spells

-- What is read as a name is a valid one.
pub match_snapshot-valid :
    (s a rest : Bytes) → match_snapshot s ≡ some (a, rest) → is_snapshot_name a ≡ true
unfolding is_snapshot_name
match_snapshot-valid s a rest h =
    let e = match_snapshot-again s a rest [] h in ground (arith, append-nil a, e)

-- A valid name is read whole, whatever follows it.
pub match_snapshot-append :
    (s t : Bytes) → is_snapshot_name s ≡ true → match_snapshot (s ++ t) ≡ some (s, t)
unfolding is_snapshot_name
match_snapshot-append s t h = elim (Option-cases (match_snapshot s)) [
  | inl e ↦ ground arith
  | inr ((a, rest), e) ↦
      let nil : rest ≡ [] = ground arith in
      let whole : s ≡ a = match_snapshot-Spells s a rest e ∙ ap (◌++◌ a) nil ∙ append-nil a in
      subst (λ w. match_snapshot (w ++ t) ≡ some (w, t)) (sym whole)
        (match_snapshot-again s a rest t e)
]
