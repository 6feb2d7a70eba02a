-- ===== src/Retention/Apply/Quota.antt =====
-- `ApplyRetentionPolicies` against a definition without counters: each policy takes the first `Count`
-- of the subjects that a greedy walk over the eligible ones picks, each due after the one before.
use uback.Base.{
  ℕ, zero, suc, ◌-◌, ◌≡◌, refl, sym, ap, ◌∙◌, inl, inr, Bool, true, false, not, ◌&&◌, ◌||◌, List,
  [], ◌∷◌, ◌++◌, map, Option, none, some, Bytes, ℤ, pos, leb_ℤ, take, filter, All, pos_part, ◌==◌,
  if◌then◌else◌, Names, add, Result, ok, Bool-cases, arith,
}
use uback.Retention.{RetentionPolicy, RetentionPolicySubject, due}
use uback.Retention.Apply.{judge, stop, skip, keep, apply_policy}

-- The names are added one by one.
unfoldable pub add_all : List Bytes → Names → Names
add_all [] retained = retained
add_all (k ∷ ks) retained = add_all ks (add k retained)

module _ {A : Type 0} (S : RetentionPolicySubject A) (at : A → ℕ) where
  -- Those that the walk picks, after the time of the last one picked.
  unfoldable pub greedy : ℤ → Option ℕ → List A → List A
  greedy interval last [] = []
  greedy interval none (s ∷ ss) = s ∷ greedy interval (some (at s)) ss
  greedy interval (some last) (s ∷ ss) =
      let next = s ∷ greedy interval (some (at s)) ss in
      let other = greedy interval (some last) ss in if due interval last (at s) then next else other

  abbrev pub eligible : RetentionPolicy → A → Bool
  eligible p s = not (p.full_only && not (S.full s))

  abbrev since : ℕ → ℕ → Option ℕ
  since zero last = none
  since (suc n) last = some last

  -- What one policy takes.
  unfoldable pub taken : RetentionPolicy → List A → List A
  taken p ss = take (pos_part p.count) (greedy p.interval none (filter (eligible p) ss))

  take-nil : {B : Type 0} (n : ℕ) → take {A = B} n [] ≡ []
  take-nil zero = refl
  take-nil (suc n) = refl

  module _ (p : RetentionPolicy) (last n : ℕ) (s : A) where
    judge-full : leb_ℤ p.count (pos n) ≡ true → judge S p last n s ≡ stop
    unfolding judge
    judge-full h = rw (h, judge)

    judge-other : leb_ℤ p.count (pos n) ≡ false → eligible p s ≡ false → judge S p last n s ≡ skip
    unfolding judge
    judge-other h k = ground arith

    judge-early :
        leb_ℤ p.count (pos n) ≡ false
        → eligible p s ≡ true
        → S.time s ≡ ok (at s)
        → (n == 0 || due p.interval last (at s)) ≡ false
        → judge S p last n s ≡ skip
    unfolding judge
    judge-early h k t e = ground arith

    judge-due :
        leb_ℤ p.count (pos n) ≡ false
        → eligible p s ≡ true
        → S.time s ≡ ok (at s)
        → (n == 0 || due p.interval last (at s)) ≡ true
        → judge S p last n s ≡ keep (at s)
    unfolding judge
    judge-due h k t e = ground arith

  greedy-due :
      (i : ℤ) (n last : ℕ) (s : A) (ss : List A)
      → (n == 0 || due i last (at s)) ≡ true
      → greedy i (since n last) (s ∷ ss) ≡ s ∷ greedy i (since (suc n) (at s)) ss
  unfolding greedy
  greedy-due i zero last s ss h = refl
  greedy-due i (suc n) last s ss h = ground arith

  greedy-early :
      (i : ℤ) (n last : ℕ) (s : A) (ss : List A)
      → (n == 0 || due i last (at s)) ≡ false
      → greedy i (since n last) (s ∷ ss) ≡ greedy i (since n last) ss
  unfolding greedy
  greedy-early i zero last s ss h = ground arith
  greedy-early i (suc n) last s ss h = ground arith

  module _ (p : RetentionPolicy) (last n : ℕ) (retained : Names) (s : A) (ss : List A) where
    apply-stop : judge S p last n s ≡ stop → apply_policy S p last n retained (s ∷ ss) ≡ ok retained
    unfolding apply_policy
    apply-stop h = ground arith

    apply-skip :
        judge S p last n s ≡ skip
        → apply_policy S p last n retained (s ∷ ss) ≡ apply_policy S p last n retained ss
    unfolding apply_policy
    apply-skip h = ground arith

    apply-keep :
        {t : ℕ}
        → judge S p last n s ≡ keep t
        → apply_policy S p last n retained (s ∷ ss)
          ≡ apply_policy S p t (suc n) (add (S.called s) retained) ss
    unfolding apply_policy
    apply-keep h = ground arith

  filter-out : (q : A → Bool) (s : A) (ss : List A) → q s ≡ false → filter q (s ∷ ss) ≡ filter q ss
  unfolding filter
  filter-out q s ss h = rw h

  filter_in :
      (q : A → Bool) (s : A) (ss : List A) → q s ≡ true → filter q (s ∷ ss) ≡ s ∷ filter q ss
  unfolding filter
  filter_in q s ss h = rw h

  -- The outcome of a policy that takes the first `k` of some subjects.
  outcome : Names → ℕ → List A → Result Names
  outcome retained k ss = ok (add_all (map S.called (take k ss)) retained)

  apply_policy-greedy :
      (p : RetentionPolicy) (last n : ℕ) (retained : Names) (ss : List A)
      → All (λ s. S.time s ≡ ok (at s)) ss
      → apply_policy S p last n retained ss
        ≡ outcome retained
            (pos_part p.count - n)
            (greedy p.interval (since n last) (filter (eligible p) ss))
  unfolding outcome add_all
  apply_policy-greedy p last n retained [] h = unfold greedy apply_policy filter in rw take-nil
  apply_policy-greedy p last n retained (s ∷ ss) (t, h) =
      elim (Bool-cases (leb_ℤ p.count (pos n))) [
        | inl full ↦
            let no_room : 0 ≡ pos_part p.count - n = ground arith in
            apply-stop p last n retained s ss (judge-full p last n s full)
            ∙ ap
                (λ k.
                  outcome retained k
                    (greedy p.interval (since n last) (filter (eligible p) (s ∷ ss))))
                no_room
        | inr more ↦ elim (Bool-cases (eligible p s)) [
          | inr other ↦
              apply-skip p last n retained s ss (judge-other p last n s more other)
              ∙ apply_policy-greedy p last n retained ss h
              ∙ ap
                  (λ l.
                    outcome retained (pos_part p.count - n) (greedy p.interval (since n last) l))
                  (sym (filter-out (eligible p) s ss other))
          | inl fits ↦ elim (Bool-cases (n == 0 || due p.interval last (at s))) [
            | inl is_due ↦
                let room : suc (pos_part p.count - suc n) ≡ pos_part p.count - n = ground arith in
                apply-keep p last n retained s ss (judge-due p last n s more fits t is_due)
                ∙ apply_policy-greedy p (at s) (suc n) (add (S.called s) retained) ss h
                ∙ ap
                    (λ k.
                      outcome retained k
                        (s ∷ greedy p.interval (some (at s)) (filter (eligible p) ss)))
                    room
                ∙ ap (outcome retained (pos_part p.count - n)) (
                    sym (
                      ap (greedy p.interval (since n last)) (filter_in (eligible p) s ss fits)
                      ∙ greedy-due p.interval n last s _ is_due))
            | inr early ↦
                apply-skip p last n retained s ss (judge-early p last n s more fits t early)
                ∙ apply_policy-greedy p last n retained ss h
                ∙ ap (outcome retained (pos_part p.count - n)) (
                    sym (
                      ap (greedy p.interval (since n last)) (filter_in (eligible p) s ss fits)
                      ∙ greedy-early p.interval n last s _ early))
          ]
        ]
      ]

  -- What all policies take, in order.
  unfoldable pub taken_all : List RetentionPolicy → List A → List A
  taken_all [] ss = []
  taken_all (p ∷ ps) ss = taken p ss ++ taken_all ps ss

  -- The loop of one policy, from its start.
  pub apply_policy-taken :
      (p : RetentionPolicy) (retained : Names) (ss : List A)
      → All (λ s. S.time s ≡ ok (at s)) ss
      → apply_policy S p 0 0 retained ss ≡ ok (add_all (map S.called (taken p ss)) retained)
  unfolding taken outcome
  apply_policy-taken p retained ss h =
      let start : pos_part p.count - 0 ≡ pos_part p.count = omega arith in
      apply_policy-greedy p 0 0 retained ss h
      ∙ ap (λ k. outcome retained k (greedy p.interval none (filter (eligible p) ss))) start
