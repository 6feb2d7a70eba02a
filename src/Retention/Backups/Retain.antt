-- ===== src/Retention/Backups/Retain.antt =====
-- The loop over the retained fronts adds the names of their chains.
use uback.Base.{
  ◌≡◌, refl, sym, subst, ◌⊎◌, inl, inr, true, List, [], ◌∷◌, Option, none, some, Bytes, arith, Dict,
  lookup, Names, add, member, member-add, member-add_self, member-add_mono, equal, equal_iff,
  equal_refl, or-true_right, Bool-cases, In, here, there, Option-cases,
}
use uback.Snapshot.{Backup, name}
use uback.Retention.Backups.{retain_backups, retain_chain, retain_chains}

retain_backups_mono :
    (bs : List Backup) (retained : Names) (k : Bytes)
    → member k retained ≡ true
    → member k (retain_backups bs retained) ≡ true
unfolding retain_backups
retain_backups_mono [] retained k h = h
retain_backups_mono (b ∷ bs) retained k h =
    retain_backups_mono bs (add (name b) retained) k (member-add_mono (name b) k retained h)

retain_backups-In :
    (bs : List Backup) (retained : Names) (b : Backup)
    → In b bs
    → member (name b) (retain_backups bs retained) ≡ true
unfolding retain_backups
retain_backups-In [] retained b m = elim m [ ]
retain_backups-In (c ∷ bs) retained b (here e) =
    subst (λ d. member (name d) (retain_backups bs (add (name c) retained)) ≡ true) (sym e)
      (retain_backups_mono bs _ (name c) (member-add_self (name c) retained))
retain_backups-In (c ∷ bs) retained b (there m) = retain_backups-In bs (add (name c) retained) b m

retain_backups-source :
    (bs : List Backup) (retained : Names) (k : Bytes)
    → member k (retain_backups bs retained) ≡ true
    → (member k retained ≡ true) ⊎ ((b : Backup) × In b bs × (name b ≡ k))
unfolding retain_backups
retain_backups-source [] retained k h = inl h
retain_backups-source (c ∷ bs) retained k h =
    elim (retain_backups-source bs (add (name c) retained) k h) [
      | inl m ↦ elim (Bool-cases (equal k (name c))) [
        | inl same ↦ inr (c, here refl, sym ((equal_iff k (name c)).0 same))
        | inr other ↦ inl (ground (arith, member-add (name c) k retained))
      ]
      | inr (b, m, e) ↦ inr (b, there m, e)
    ]

module _ (chains : Dict (List Backup)) where
  pub retain_chains_mono :
      (fronts retained : Names) (k : Bytes)
      → member k retained ≡ true
      → member k (retain_chains chains fronts retained) ≡ true
  unfolding retain_chains
  retain_chains_mono [] retained k h = h
  retain_chains_mono (r ∷ fronts) retained k h =
      retain_chains_mono fronts _ k (grow (lookup r chains))
    where
      grow : (o : Option (List Backup)) → member k (retain_chain o retained) ≡ true
      grow none = h
      grow (some chain) = retain_backups_mono chain retained k h

  -- The chain of a front is retained.
  pub retain_chains-In :
      (fronts retained : Names) (r : Bytes) (chain : List Backup) (b : Backup)
      → member r fronts ≡ true
      → lookup r chains ≡ some chain
      → In b chain
      → member (name b) (retain_chains chains fronts retained) ≡ true
  unfolding retain_chains member
  retain_chains-In [] retained r chain b h e m = ground arith
  retain_chains-In (f ∷ fronts) retained r chain b h e m = elim (Bool-cases (equal r f)) [
    | inl same ↦
        let q : lookup f chains ≡ some chain =
          subst (λ k. lookup k chains ≡ some chain) ((equal_iff r f).0 same) e in
        retain_chains_mono fronts (retain_chain (lookup f chains) retained) (name b) (
          subst (λ o. member (name b) (retain_chain o retained) ≡ true) (sym q)
            (retain_backups-In chain retained b m))
    | inr other ↦
        retain_chains-In fronts (retain_chain (lookup f chains) retained) r chain b (ground arith) e
          m
  ]

  -- Nothing else is added.
  pub retain_chains-source :
      (fronts retained : Names) (k : Bytes)
      → member k (retain_chains chains fronts retained) ≡ true
      → (member k retained ≡ true)
        ⊎ ((r : Bytes) × (chain : List Backup) × (b : Backup) × (member r fronts ≡ true)
            × (lookup r chains ≡ some chain)
            × In b chain
            × (name b ≡ k))
  unfolding retain_chains member
  retain_chains-source [] retained k h = inl h
  retain_chains-source (f ∷ fronts) retained k h =
      elim (retain_chains-source fronts (retain_chain (lookup f chains) retained) k h) [
        | inl m ↦ elim (Option-cases (lookup f chains)) [
          | inl e ↦ inl (subst (λ o. member k (retain_chain o retained) ≡ true) e m)
          | inr (chain, e) ↦
              elim (retain_backups-source chain retained k
                (subst (λ o. member k (retain_chain o retained) ≡ true) e m)) [
                  | inl old ↦ inl old
                  | inr (b, i, q) ↦ inr (f, chain, b, rw (equal_refl f), e, i, q)
                ]
        ]
        | inr (r, chain, b, m, e, i, q) ↦ inr (r, chain, b, rw m (or-true_right _), e, i, q)
      ]
