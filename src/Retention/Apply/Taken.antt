-- ===== src/Retention/Apply/Taken.antt =====
-- What `ApplyRetentionPolicies` returns, by the reference definition, and what each policy takes.
use mathlib.Core.List.{append-nil}
use uback.Base.{
  ℕ, zero, suc, ◌≤◌, ◌<◌, ◌+◌, ◌*◌, pos, ◌≡◌, refl, sym, ap, ◌∙◌, subst, inl, inr, true, List, [],
  ◌∷◌, ◌++◌, map, none, some, Bytes, ℤ, length, take, filter, All, In, here, there, In-append_left,
  In-append_right, pos_part, Names, add, member, member-add_self, member-add_mono, ok, ◌>>=◌,
  Bool-cases, arith,
}
use uback.Retention.{RetentionPolicy, RetentionPolicySubject, due}
use uback.Retention.Due.{due-elapsed}
use uback.Retention.Apply.{apply_all, apply_retention_policies}
use uback.Retention.Apply.Quota.{add_all, greedy, eligible, taken, taken_all, apply_policy-taken}

add_all-append :
    (a b : List Bytes) (retained : Names)
    → add_all (a ++ b) retained ≡ add_all b (add_all a retained)
unfolding add_all
add_all-append [] b retained = refl
add_all-append (k ∷ a) b retained = add_all-append a b (add k retained)

add_all_mono :
    (ks : List Bytes) (retained : Names) (k : Bytes)
    → member k retained ≡ true
    → member k (add_all ks retained) ≡ true
unfolding add_all
add_all_mono [] retained k h = h
add_all_mono (j ∷ ks) retained k h =
    add_all_mono ks (add j retained) k (member-add_mono j k retained h)

add_all-In :
    (ks : List Bytes) (retained : Names) (k : Bytes)
    → In k ks
    → member k (add_all ks retained) ≡ true
unfolding add_all
add_all-In [] retained k m = elim m [ ]
add_all-In (j ∷ ks) retained k (here e) =
    subst (λ k. member k (add_all ks (add j retained)) ≡ true) (sym e)
      (add_all_mono ks _ j (member-add_self j retained))
add_all-In (j ∷ ks) retained k (there m) = add_all-In ks (add j retained) k m

module _ {A : Type 0} (S : RetentionPolicySubject A) (at : A → ℕ) where
  map-append : (xs ys : List A) → map S.called (xs ++ ys) ≡ map S.called xs ++ map S.called ys
  map-append [] ys = refl
  map-append (x ∷ xs) ys = ap (◌∷◌ (S.called x)) (map-append xs ys)

  apply_all-taken :
      (ps : List RetentionPolicy) (retained : Names) (ss : List A)
      → All (λ s. S.time s ≡ ok (at s)) ss
      → apply_all S ps retained ss ≡ ok (add_all (map S.called (taken_all S at ps ss)) retained)
  unfolding apply_all taken_all
  apply_all-taken [] retained ss h = unfold add_all in refl
  apply_all-taken (p ∷ ps) retained ss h =
      ap (λ r. r >>= λ retained. apply_all S ps retained ss)
        (apply_policy-taken S at p retained ss h)
      ∙ apply_all-taken ps _ ss h
      ∙ ap ok (
          sym (add_all-append (map S.called (taken S at p ss)) _ retained)
          ∙ ap (λ l. add_all l retained) (sym (map-append (taken S at p ss) _)))

  -- If every subject has a time, the names that the loops return are exactly those of the subjects
  -- that the reference definition takes, policy by policy.
  pub apply_retention_policies-taken :
      (ps : List RetentionPolicy) (ss : List A)
      → All (λ s. S.time s ≡ ok (at s)) ss
      → apply_retention_policies S ps ss ≡ ok (add_all (map S.called (taken_all S at ps ss)) [])
  unfolding apply_retention_policies
  apply_retention_policies-taken ps ss h = apply_all-taken ps [] ss h

  -- Each is due after the one before it.
  abbrev Spaced : ℤ → List A → Type 0
  Spaced i [] = Unit
  Spaced i (a ∷ []) = Unit
  Spaced i (a ∷ b ∷ l) = (due i (at a) (at b) ≡ true) × Spaced i (b ∷ l)

  abbrev Follows : ℤ → ℕ → List A → Type 0
  Follows i last [] = Unit
  Follows i last (a ∷ l) = (due i last (at a) ≡ true) × Spaced i (a ∷ l)

  cons-Spaced : (i : ℤ) (a : A) (l : List A) → Follows i (at a) l → Spaced i (a ∷ l)
  cons-Spaced i a [] h = tt
  cons-Spaced i a (b ∷ l) h = h

  greedy-Follows : (i : ℤ) (last : ℕ) (ss : List A) → Follows i last (greedy S at i (some last) ss)
  unfolding greedy
  greedy-Follows i last [] = tt
  greedy-Follows i last (s ∷ ss) = elim (Bool-cases (due i last (at s))) [
    | inl h ↦ rw h (h, cons-Spaced i s _ (greedy-Follows i (at s) ss))
    | inr h ↦ rw h (greedy-Follows i last ss)
  ]

  greedy-Spaced : (i : ℤ) (ss : List A) → Spaced i (greedy S at i none ss)
  unfolding greedy
  greedy-Spaced i [] = tt
  greedy-Spaced i (s ∷ ss) = cons-Spaced i s _ (greedy-Follows i (at s) ss)

  take-Spaced : (i : ℤ) (n : ℕ) (l : List A) → Spaced i l → Spaced i (take n l)
  take-Spaced i zero l h = tt
  take-Spaced i (suc n) [] h = tt
  take-Spaced i (suc zero) (a ∷ l) h = tt
  take-Spaced i (suc (suc n)) (a ∷ []) h = tt
  take-Spaced i (suc (suc n)) (a ∷ b ∷ l) h = (h.0, take-Spaced i (suc n) (b ∷ l) h.1)

  length-take : (n : ℕ) (l : List A) → length (take n l) ≤ n
  length-take zero l = omega arith
  length-take (suc n) [] = omega arith
  length-take (suc n) (a ∷ l) = omega (arith, length-take n l)

  taken_bounds :
      (p : RetentionPolicy) (ss : List A)
      → (length (taken S at p ss) ≤ pos_part p.count) × Spaced p.interval (taken S at p ss)
  unfolding taken
  taken_bounds p ss = (
    length-take (pos_part p.count) _,
    take-Spaced p.interval (pos_part p.count) _ (greedy-Spaced p.interval _),
  )

  -- Each is at least nine tenths of so many seconds older than the one before it.
  abbrev pub Apart : ℕ → List A → Type 0
  Apart seconds [] = Unit
  Apart seconds (a ∷ []) = Unit
  Apart seconds (a ∷ b ∷ l) = (at b + 900 * seconds ≤ at a) × Apart seconds (b ∷ l)

  Spaced-Apart : (n : ℕ) (l : List A) → 0 < n → Spaced (pos n) l → Apart n l
  Spaced-Apart n [] positive h = tt
  Spaced-Apart n (a ∷ []) positive h = tt
  Spaced-Apart n (a ∷ b ∷ l) positive (h, hs) =
      (due-elapsed n (at a) (at b) positive h, Spaced-Apart n (b ∷ l) positive hs)

  -- If every subject has a time, in milliseconds, a policy with a positive interval retains the names of at most
  -- `Count` subjects, each at least nine tenths of the interval older than the one retained before it.
  pub apply_retention_policies-Apart :
      (p : RetentionPolicy) (n : ℕ) (ss : List A)
      → p.interval ≡ pos n
      → 0 < n
      → All (λ s. S.time s ≡ ok (at s)) ss
      → (l : List A) × (apply_retention_policies S (p ∷ []) ss ≡ ok (add_all (map S.called l) []))
        × (length l ≤ pos_part p.count)
        × Apart n l
  unfolding taken_all
  apply_retention_policies-Apart p n ss interval positive h =
      let (short, spaced) = taken_bounds p ss in
      let e = ap (λ l. ok (add_all (map S.called l) [])) (append-nil (taken S at p ss)) in
      let apart =
        Spaced-Apart n _ positive (subst (λ i. Spaced i (taken S at p ss)) interval spaced) in
      (taken S at p ss, apply_retention_policies-taken (p ∷ []) ss h ∙ e, short, apart)

  take-head : (k : ℕ) (s : A) (l : List A) → 1 ≤ k → In s (take k (s ∷ l))
  take-head zero s l h = absurd (omega arith)
  take-head (suc k) s l h = here refl

  taken-first :
      (p : RetentionPolicy) (ss rest : List A) (s : A)
      → 1 ≤ pos_part p.count
      → filter (eligible S at p) ss ≡ s ∷ rest
      → In s (taken S at p ss)
  unfolding taken greedy
  taken-first p ss rest s h e =
      subst (λ l. In s (take (pos_part p.count) (greedy S at p.interval none l))) (sym e)
        (take-head (pos_part p.count) s _ h)

  taken_all-In :
      (ps : List RetentionPolicy) (ss : List A) (p : RetentionPolicy) (s : A)
      → In p ps
      → In s (taken S at p ss)
      → In s (taken_all S at ps ss)
  unfolding taken_all
  taken_all-In [] ss p s m i = elim m [ ]
  taken_all-In (q ∷ ps) ss p s (here e) i =
      In-append_left _ (subst (λ p. In s (taken S at p ss)) e i)
  taken_all-In (q ∷ ps) ss p s (there m) i =
      In-append_right (taken S at q ss) (taken_all-In ps ss p s m i)

  In-map : (s : A) (l : List A) → In s l → In (S.called s) (map S.called l)
  In-map s [] m = elim m [ ]
  In-map s (x ∷ l) (here e) = here (ap S.called e)
  In-map s (x ∷ l) (there m) = there (In-map s l m)

  -- A policy that keeps anything keeps the first subject that it applies to: if every subject has a
  -- time, its name is among those returned, whatever the other policies are.
  pub apply_retention_policies-first :
      (ps : List RetentionPolicy) (ss rest : List A) (p : RetentionPolicy) (s : A) {result : Names}
      → All (λ s. S.time s ≡ ok (at s)) ss
      → apply_retention_policies S ps ss ≡ ok result
      → In p ps
      → 1 ≤ pos_part p.count
      → filter (eligible S at p) ss ≡ s ∷ rest
      → member (S.called s) result ≡ true
  apply_retention_policies-first ps ss rest p s {result} t h m k e =
      let q : ok result ≡ ok (add_all (map S.called (taken_all S at ps ss)) []) =
        sym h ∙ apply_retention_policies-taken ps ss t in
      let q' : result ≡ add_all (map S.called (taken_all S at ps ss)) [] = ground arith in
      subst (λ r. member (S.called s) r ≡ true) (sym q')
        (add_all-In _ [] (S.called s)
          (In-map s _ (taken_all-In ps ss p s m (taken-first p ss rest s k e))))
