-- ===== src/Retention/Backups/Collect.antt =====
-- The first loop of `GetPrunedBackups`: which subjects and chains it collects.
use uback.Base.{
  ℕ, ◌≡◌, refl, sym, ap, ◌∙◌, subst, inl, inr, List, [], ◌∷◌, ◌++◌, some, Bytes, arith, Dict,
  lookup, insert, lookup-insert, equal, equal_iff, Bool-cases, ok, bind-eq-ok, In, here, there,
  In-append_cases, In-cases,
}
use mathlib.Core.Bool.{false≢true}
use uback.Snapshot.{Backup, name}
use uback.Chain.{Chain, complete, broken, running, get_full_chain}
use uback.Chain.Links.{Links, get_full_chain-Links}
use uback.Retention.Backups.{Chains, collect_chain, collect_chains}

-- The chain of a backup of the list, as links through the index.
pub record IsChain (idx : Dict Backup) (bs : List Backup) (k : Bytes) (chain : List Backup)
    : Type 0 where
  pub front : Backup
  pub listed : In front bs
  pub named : name front ≡ k
  pub rest : List Backup
  pub links : Links idx front.base_snapshot rest
  pub spelled : chain ≡ front ∷ rest

-- What the loop keeps true of its variables.
pub record Collected (idx : Dict Backup) (bs : List Backup) (c : Chains) : Type 0 where
  pub chains :
      (k : Bytes) (chain : List Backup) → lookup k c.chains ≡ some chain → IsChain idx bs k chain
  pub subjects :
      (b : Backup)
      → In b c.subjects
      → (chain : List Backup) × (lookup (name b) c.chains ≡ some chain)

insert-Collected :
    {idx : Dict Backup} {bs : List Backup} (c : Chains) (b : Backup) (chain : List Backup)
    → Collected idx bs c
    → IsChain idx bs (name b) chain
    → Collected idx bs
        (record { subjects = c.subjects ++ b ∷ []; chains = insert (name b) chain c.chains })
insert-Collected {idx} {bs} c b chain h new = record {
  chains = λ k found e. elim (Bool-cases (equal k (name b))) [
    | inl same ↦
        let q : some chain ≡ some found = rw (lookup-insert, same) at e in
        let q' : chain ≡ found = ground arith in
        subst (λ k. IsChain idx bs k found) (sym ((equal_iff k (name b)).0 same))
          (subst (IsChain idx bs (name b)) q' new)
    | inr other ↦ h.chains k found (rw (lookup-insert, other) at e)
  ];
  subjects = λ s m. elim (Bool-cases (equal (name s) (name b))) [
    | inl same ↦ (chain, rw (lookup-insert, same))
    | inr other ↦ elim (In-append_cases c.subjects m) [
      | inl old ↦ let (found, e) = h.subjects s old in (found, rw (lookup-insert, other) e)
      | inr last ↦ elim (In-cases last) [
        | inl e ↦ absurd (false≢true (sym other ∙ (equal_iff (name s) (name b)).1 (ap name e)))
        | inr none_left ↦ elim none_left [ ]
      ]
    ]
  ];
}

collect_chain-Collected :
    {idx : Dict Backup} {bs : List Backup} (fuel : ℕ) (c : Chains) (b : Backup) {c' : Chains}
    → In b bs
    → Collected idx bs c
    → collect_chain c b (get_full_chain fuel b idx) ≡ ok c'
    → Collected idx bs c'
unfolding collect_chain
collect_chain-Collected {idx} {bs} fuel c b {c'} m h e = go (get_full_chain fuel b idx) refl e
  where
    go :
        (r : Chain)
        → get_full_chain fuel b idx ≡ r
        → collect_chain c b r ≡ ok c'
        → Collected idx bs c'
    go (complete chain) q e =
        let (rest, l, s) = get_full_chain-Links fuel idx b q in
        subst (Collected idx bs) (ground arith) (
          insert-Collected c b chain h
            (record { front = b; listed = m; named = refl; rest = rest; links = l; spelled = s }))
    go (broken chain) q e = subst (Collected idx bs) (ground arith) h
    go running q e = ground arith

collect_chains-Collected :
    {idx : Dict Backup} {all : List Backup} (fuel : ℕ) (c : Chains) (bs : List Backup) {c' : Chains}
    → ((b : Backup) → In b bs → In b all)
    → Collected idx all c
    → collect_chains fuel idx c bs ≡ ok c'
    → Collected idx all c'
unfolding collect_chains
collect_chains-Collected {idx} {all} fuel c [] within h e =
    subst (Collected idx all) (ground arith) h
collect_chains-Collected {idx} fuel c (b ∷ bs) within h e =
    let (c₁, e₁, later) = bind-eq-ok (collect_chain c b (get_full_chain fuel b idx)) _ e in
    collect_chains-Collected fuel c₁ bs (λ x m. within x (there m))
      (collect_chain-Collected fuel c b (within b (here refl)) h e₁) later

-- Every subject has its chain stored, and every stored chain is that of a backup of its name.
pub collect_chains_lem :
    (idx : Dict Backup) (fuel : ℕ) (bs : List Backup) {c : Chains}
    → collect_chains fuel idx (record { subjects = []; chains = [] }) bs ≡ ok c
    → Collected idx bs c
unfolding lookup
collect_chains_lem idx fuel bs e =
    collect_chains-Collected fuel _ bs (λ b m. m)
      (record { chains = λ k chain e. ground arith; subjects = λ b m. elim m [ ] }) e
