-- ===== src/Retention/Apply.antt =====
-- `ApplyRetentionPolicies`.
pub mod Quota
pub mod Taken
pub mod Keeps
use uback.Base.{
  ℕ, zero, suc, ◌+◌, Bool, true, false, not, ◌&&◌, ◌||◌, List, [], ◌∷◌, Bytes, ℤ, pos, leb_ℤ, leb,
  pos_part, neg_part, ◌==◌, if◌then◌else◌, Names, add, Result, ok, err, Error, ◌>>=◌, ◌≡◌,
}
use uback.Retention.{RetentionPolicy, RetentionPolicySubject, due}

-- What the body of the inner loop does with a subject.
pub data Verdict : Type 0 where
  stop skip : Verdict
  fail : Error → Verdict
  keep : ℕ → Verdict

-- The test behind `subject.Time()`, with `lastRetainedTime` and `retainedCount`.
unfoldable pub judge_time : RetentionPolicy → ℕ → ℕ → Result ℕ → Verdict
judge_time p last n (err e) = fail e
judge_time p last n (ok t) = if n == 0 || due p.interval last t then keep t else skip

module _ {A : Type 0} (S : RetentionPolicySubject A) where
  unfoldable pub judge : RetentionPolicy → ℕ → ℕ → A → Verdict
  unfolding judge_time
  judge p last n s =
      if leb_ℤ p.count (pos n)
      then stop
      else if p.full_only && not (S.full s)
      then skip
      else judge_time p last n (S.time s)

  -- The inner loop.
  unfoldable pub apply_policy : RetentionPolicy → ℕ → ℕ → Names → List A → Result Names
  apply_policy p last n retained [] = ok retained
  apply_policy p last n retained (s ∷ ss) = elim (judge p last n s) [
    | stop ↦ ok retained
    | skip ↦ apply_policy p last n retained ss
    | fail e ↦ err e
    | keep t ↦ apply_policy p t (suc n) (add (S.called s) retained) ss
  ]

  -- The outer loop.
  unfoldable pub apply_all : List RetentionPolicy → Names → List A → Result Names
  apply_all [] retained ss = ok retained
  apply_all (p ∷ ps) retained ss =
      apply_policy p 0 0 retained ss >>= λ retained. apply_all ps retained ss

  unfoldable pub apply_retention_policies : List RetentionPolicy → List A → Result Names
  unfolding apply_all apply_policy judge
  apply_retention_policies ps ss = apply_all ps [] ss
