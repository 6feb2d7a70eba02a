-- ===== src/Retention/Apply/Keeps.antt =====
-- The names that `ApplyRetentionPolicies` returns are names of subjects.
use uback.Base.{
  ℕ, suc, ◌≡◌, refl, sym, ◌⊎◌, inl, inr, true, List, [], ◌∷◌, Bytes, Names, add, member, member-add,
  equal, equal_iff, ok, Error, bind-eq-ok, In, here, there, Bool-cases, arith,
}
use uback.Retention.{RetentionPolicy, RetentionPolicySubject}
use uback.Retention.Apply.{
  Verdict, stop, skip, fail, keep, judge, apply_policy, apply_all, apply_retention_policies,
}

Verdict-cases :
    (v : Verdict)
    → (v ≡ stop) ⊎ (v ≡ skip) ⊎ ((e : Error) × (v ≡ fail e)) ⊎ ((t : ℕ) × (v ≡ keep t))
Verdict-cases stop = inl refl
Verdict-cases skip = inr (inl refl)
Verdict-cases (fail e) = inr (inr (inl (e, refl)))
Verdict-cases (keep t) = inr (inr (inr (t, refl)))

module _ {A : Type 0} (S : RetentionPolicySubject A) where
  -- `k` is the name of one of the subjects.
  abbrev pub NamesOne : List A → Bytes → Type 0
  NamesOne ss k = (s : A) × In s ss × (S.called s ≡ k)

  later_one : (s : A) (ss : List A) (k : Bytes) → NamesOne ss k → NamesOne (s ∷ ss) k
  later_one s ss k (x, m, e) = (x, there m, e)

  apply_policy-source :
      (p : RetentionPolicy) (last n : ℕ) (retained : Names) (ss : List A) {result : Names}
      (k : Bytes)
      → apply_policy S p last n retained ss ≡ ok result
      → member k result ≡ true
      → (member k retained ≡ true) ⊎ NamesOne ss k
  unfolding apply_policy
  apply_policy-source p last n retained [] k h m = inl (ground arith)
  apply_policy-source p last n retained (s ∷ ss) k h m = elim (Verdict-cases (judge S p last n s)) [
    | inl v ↦ inl (ground arith)
    | inr (inl v) ↦ elim (apply_policy-source p last n retained ss k (ground arith) m) [
      | inl old ↦ inl old
      | inr one ↦ inr (later_one s ss k one)
    ]
    | inr (inr (inl (e, v))) ↦ ground arith
    | inr (inr (inr (t, v))) ↦
        elim (apply_policy-source p t (suc n) (add (S.called s) retained) ss k (ground arith) m) [
          | inl old ↦ elim (Bool-cases (equal k (S.called s))) [
            | inl same ↦ inr (s, here refl, sym ((equal_iff k (S.called s)).0 same))
            | inr other ↦ inl (ground (arith, member-add (S.called s) k retained))
          ]
          | inr one ↦ inr (later_one s ss k one)
        ]
  ]

  apply_all-source :
      (ps : List RetentionPolicy) (retained : Names) (ss : List A) {result : Names} (k : Bytes)
      → apply_all S ps retained ss ≡ ok result
      → member k result ≡ true
      → (member k retained ≡ true) ⊎ NamesOne ss k
  unfolding apply_all
  apply_all-source [] retained ss k h m = inl (ground arith)
  apply_all-source (p ∷ ps) retained ss k h m =
      let (one, e, later) = bind-eq-ok (apply_policy S p 0 0 retained ss) _ h in
      elim (apply_all-source ps one ss k later m) [
        | inl old ↦ apply_policy-source p 0 0 retained ss k e old
        | inr named ↦ inr named
      ]

  -- Only names of subjects are returned.
  pub apply_retention_policies-source :
      (ps : List RetentionPolicy) (ss : List A) {result : Names} (k : Bytes)
      → apply_retention_policies S ps ss ≡ ok result
      → member k result ≡ true
      → NamesOne ss k
  unfolding apply_retention_policies member
  apply_retention_policies-source ps ss k h m = elim (apply_all-source ps [] ss k h m) [
    | inl none_yet ↦ cc
    | inr one ↦ one
  ]
