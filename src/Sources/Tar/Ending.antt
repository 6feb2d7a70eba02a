-- ===== src/Sources/Tar/Ending.antt =====
-- What becomes of an error of tar.
use mathlib.Core.Bool.{false≢true}
use uback.Base.{
  ℕ, ◌≡◌, ◌↔◌, ◌⊎◌, refl, sym, ap, ◌∙◌, Bool, true, false, ◌==◌, ==_iff, Bool-cases, inl, inr,
  Option, none, some, List, Bytes, ok, Error,
}
use uback.Snapshot.{Snapshot, Backup}
use uback.System.{System, Failure, finished, wrap_source_command}
use uback.Sources.Tar.{Tar, is_warning, keep_snapshot, finalize}

module _ (O : System) (t : Tar) where
  is_warning_iff : (f : Failure) → (is_warning O t f ≡ true) ↔ (f.code ≡ some 1)
  is_warning_iff f = (λ h. code_of f.code h, λ h. rw h refl)
    where
      code_of :
          (code : Option ℕ)
          → (elim code as (λ _. Bool) [ none ↦ false | some c ↦ c == 1 ]) ≡ true
          → code ≡ some 1
      code_of none h = absurd (false≢true h)
      code_of (some c) h = ap (λ c. some c) ((==_iff c 1).0 h)

  -- If tar fails, and its snapshot file could be put in place, then the data ends as if it were whole exactly if
  -- tar's exit code is 1; a failure with another exit code or with none ends the data with its error.
  pub finalize-is_warning :
      (b : Backup) (words : List Bytes) (new : Snapshot) (f : Failure) (output : Bytes)
      (s s' s'' : O.State)
      → O.execute words none none s ≡ (s', finished output (some f))
      → keep_snapshot O t new s' ≡ (s'', ok tt)
      → (failure : Option Error) × ((wrap_source_command O b words (finalize O t new) s).1
          ≡ ok (b, record { content = output; failure = failure }))
        × ((failure ≡ none) ↔ (f.code ≡ some 1))
        × ((failure ≡ none) ⊎ (failure ≡ some f.error))
  unfolding wrap_source_command finalize
  finalize-is_warning b words new f output s s' s'' h r = elim (Bool-cases (is_warning O t f)) [
    | inl e ↦ (none, rw (h, e, r) refl, (λ q. (is_warning_iff f).0 e, λ q. refl), inl refl)
    | inr e ↦ (
      some f.error,
      rw (h, e) refl,
      (λ q. cc, λ q. absurd (false≢true (sym e ∙ (is_warning_iff f).1 q))),
      inr refl,
    )
  ]
