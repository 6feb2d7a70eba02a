-- ===== src/Snapshot/Filename/Base.antt =====
-- `path.Base` leaves a file name alone, and drops the directory in front of one.
use uback.Base.{
  ℕ, ◌≡◌, refl, Bool, true, false, not, ◌&&◌, none, [], ◌∷◌, ◌++◌, arith, inl, inr, Bytes, is_empty,
  ◌==◌, Option-cases, zero, suc,
}
use uback.Base.Matcher.{then-Ensures, Ensures, bind-Ensures, pure-Ensures}
use uback.Snapshot.Filename.{
  match_digits, match_snapshot, is_snapshot_name, strip_slashes, after_last_slash, path_base,
}
use uback.Snapshot.Filename.Match.{match_snapshot-append}

unfoldable pub no_slash : Bytes → Bool
no_slash [] = true
no_slash (c ∷ s) = not (c == b'/') && no_slash s

pub no_slash-append :
    (a b : Bytes) → no_slash a ≡ true → no_slash b ≡ true → no_slash (a ++ b) ≡ true
unfolding no_slash
no_slash-append [] b h k = k
no_slash-append (c ∷ a) b h k = ground (arith, no_slash-append a b)

strip_slashes-no_slash : (s : Bytes) → no_slash s ≡ true → strip_slashes s ≡ s
unfolding no_slash strip_slashes
strip_slashes-no_slash [] h = refl
strip_slashes-no_slash (c ∷ s) h = ground (arith, strip_slashes-no_slash s)

after_last_slash-no_slash : (s : Bytes) → no_slash s ≡ true → after_last_slash s ≡ none
unfolding no_slash after_last_slash
after_last_slash-no_slash [] h = refl
after_last_slash-no_slash (c ∷ s) h = ground (arith, after_last_slash-no_slash s)

-- A name with no slash is its own base.
pub path_base-no_slash : (s : Bytes) → no_slash s ≡ true → is_empty s ≡ false → path_base s ≡ s
unfolding path_base
path_base-no_slash [] h k = ground arith
path_base-no_slash (c ∷ s) h k =
    ground (arith, strip_slashes-no_slash (c ∷ s) h, after_last_slash-no_slash (c ∷ s) h)

match_digits-no_slash : (n : ℕ) → Ensures (λ ds. no_slash ds ≡ true) (match_digits n)
unfolding match_digits no_slash
match_digits-no_slash zero s ds rest h = ground arith
match_digits-no_slash (suc n) [] ds rest h = ground arith
match_digits-no_slash (suc n) (c ∷ s) ds rest h = elim (Option-cases (match_digits n s)) [
  | inl e ↦ ground arith
  | inr ((ds', rest'), e) ↦ ground (arith, match_digits-no_slash n s ds' rest')
]

match_snapshot-no_slash : Ensures (λ a. no_slash a ≡ true) match_snapshot
unfolding match_snapshot no_slash
match_snapshot-no_slash = bind-Ensures _ _ _ _ (match_digits-no_slash 8) λ date h.
    then-Ensures _ _ _ (
      bind-Ensures _ _ _ _ (match_digits-no_slash 6) λ clock k. then-Ensures _ _ _ (
        bind-Ensures _ _ _ _ (match_digits-no_slash 3)
          λ millis l. pure-Ensures _ _ (no_slash-append date _ h (no_slash-append clock _ k l))))

pub snapshot_no_slash : (s : Bytes) → is_snapshot_name s ≡ true → no_slash s ≡ true
snapshot_no_slash s h = match_snapshot-no_slash (s ++ []) s [] (match_snapshot-append s [] h)
