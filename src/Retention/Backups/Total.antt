-- ===== src/Retention/Backups/Total.antt =====
-- `GetPrunedBackups` ends with a result.
use uback.Base.{
  not, map, filter, member, ℕ, suc, ◌≡◌, ◌≢◌, refl, ap, ◌∙◌, List, [], ◌∷◌, ◌++◌, Dict, All, length,
  ok, ◌>>=◌, Names,
}
use uback.Snapshot.{Backup, name}
use uback.Snapshot.Time.{backup_time}
use uback.Chain.{Chain, complete, broken, running, make_index, get_full_chain}
use uback.Chain.Fuel.{HasOlderBase, get_full_chain_ends}
use uback.Retention.{RetentionPolicy, backup_subject}
use uback.Retention.Apply.Taken.{apply_retention_policies-taken}
use uback.Retention.Apply.Quota.{add_all, taken_all}
use uback.Retention.Backups.{
  retain_chains, Chains, collect_chain, collect_chains, select_pruned, get_pruned_backups,
}

module _ (at : Backup → ℕ) where
  abbrev pub Timed : Backup → Type 0
  Timed b = backup_time b ≡ ok (at b)

  All-append : (bs : List Backup) (b : Backup) → All Timed bs → Timed b → All Timed (bs ++ b ∷ [])
  All-append [] b h t = (t, tt)
  All-append (c ∷ bs) b h t = (h.0, All-append bs b h.1 t)

  collect_chain_ok :
      (c : Chains) (b : Backup) (chain : Chain)
      → chain ≢ running
      → All Timed c.subjects
      → Timed b
      → (d : Chains) × (collect_chain c b chain ≡ ok d) × All Timed d.subjects
  unfolding collect_chain
  collect_chain_ok c b (complete chain) ends h t = (_, refl, All-append c.subjects b h t)
  collect_chain_ok c b (broken chain) ends h t = (c, refl, h)
  collect_chain_ok c b running ends h t = absurd (ends refl)

  collect_chains_ok :
      (fuel : ℕ) (idx : Dict Backup) (c : Chains) (bs : List Backup)
      → ((b : Backup) → get_full_chain fuel b idx ≢ running)
      → All Timed c.subjects
      → All Timed bs
      → (d : Chains) × (collect_chains fuel idx c bs ≡ ok d) × All Timed d.subjects
  unfolding collect_chains
  collect_chains_ok fuel idx c [] ends h t = (c, refl, h)
  collect_chains_ok fuel idx c (b ∷ bs) ends h t =
      let (d, e, k) = collect_chain_ok c b (get_full_chain fuel b idx) (ends b) h t.0 in
      let (f, q, l) = collect_chains_ok fuel idx d bs ends k t.1 in
      (f, ap (λ r. r >>= λ c'. collect_chains fuel idx c' bs) e ∙ q, l)

  select_pruned_ok :
      (bs : List Backup) (ps : List RetentionPolicy) (c : Chains)
      → All Timed c.subjects
      → (pruned : List Backup) × (select_pruned bs ps c ≡ ok pruned)
  unfolding select_pruned
  select_pruned_ok bs [] c h = ([], refl)
  select_pruned_ok bs (p ∷ ps) c h =
      let unkept : Names → List Backup = λ retained.
        filter (λ b. not (member (name b) (retain_chains c.chains retained retained))) bs in
      (
        unkept (add_all (map name (taken_all backup_subject at (p ∷ ps) c.subjects)) []),
        ap (λ r. r >>= λ retained. ok (unkept retained))
            (apply_retention_policies-taken backup_subject at (p ∷ ps) c.subjects h),
      )

  -- If every backup has a valid time and every base is older than its backup, `GetPrunedBackups` ends, and
  -- gives no error.
  pub get_pruned_backups_ok :
      (bs : List Backup) (ps : List RetentionPolicy)
      → All HasOlderBase bs
      → All Timed bs
      → (pruned : List Backup) × (get_pruned_backups bs ps ≡ ok pruned)
  unfolding get_pruned_backups
  get_pruned_backups_ok bs ps older timed =
      let (c, e, h) =
        collect_chains_ok (suc (length bs)) (make_index bs) (record { subjects = []; chains = [] })
          bs (λ b. get_full_chain_ends bs b older) tt timed in
      let (pruned, q) = select_pruned_ok bs ps c h in
      (pruned, ap (λ r. r >>= select_pruned bs ps) e ∙ q)
