-- ===== src/Retention/Backups.antt =====
-- `GetPrunedBackups` and `PruneBackups`.
mod Collect
mod Retain
pub mod Restorable
pub mod Total
use uback.Base.{
  ℕ, zero, suc, ◌+◌, Bool, true, false, not, ◌&&◌, List, [], ◌∷◌, ◌++◌, Option, none, some, Bytes,
  length, filter, map, Dict, lookup, insert, Names, add, member, Result, ok, err, Error, ◌>>=◌,
  if◌then◌else◌,
}
use uback.Snapshot.{Backup, name}
use uback.Chain.{make_index, get_full_chain, Chain, complete, broken, running}
use uback.Retention.{RetentionPolicy, RetentionPolicySubject, backup_subject}
use uback.Retention.Apply.{apply_retention_policies}

-- The first loop: the subjects, and the chain of each under its name.
pub record Chains : Type 0 where
  pub subjects : List Backup
  pub chains : Dict (List Backup)

unfoldable pub collect_chain : Chains → Backup → Chain → Result Chains
collect_chain c b (complete chain) =
    ok (record { subjects = c.subjects ++ b ∷ []; chains = insert (name b) chain c.chains })
collect_chain c b (broken chain) = ok c
collect_chain c b running = err Error.endless_chain

unfoldable pub collect_chains : ℕ → Dict Backup → Chains → List Backup → Result Chains
unfolding collect_chain
collect_chains fuel idx c [] = ok c
collect_chains fuel idx c (b ∷ bs) =
    collect_chain c b (get_full_chain fuel b idx) >>= λ c'. collect_chains fuel idx c' bs

-- `for _, b := range chains[r] { retained[b.Name()] = struct{}{} }`
unfoldable pub retain_backups : List Backup → Names → Names
retain_backups [] retained = retained
retain_backups (b ∷ bs) retained = retain_backups bs (add (name b) retained)

unfoldable pub retain_chain : Option (List Backup) → Names → Names
unfolding retain_backups
retain_chain none retained = retained
retain_chain (some chain) retained = retain_backups chain retained

-- The loop over `retainedChainFronts`. A missing key of `chains` is the empty slice.
unfoldable pub retain_chains : Dict (List Backup) → Names → Names → Names
unfolding retain_chain
retain_chains chains [] retained = retained
retain_chains chains (r ∷ fronts) retained =
    retain_chains chains fronts (retain_chain (lookup r chains) retained)

unfoldable pub select_pruned : List Backup → List RetentionPolicy → Chains → Result (List Backup)
unfolding retain_chains
select_pruned backups [] c = ok []
select_pruned backups (p ∷ ps) c =
    apply_retention_policies backup_subject (p ∷ ps) c.subjects >>= λ retained.
    ok (filter (λ b. not (member (name b) (retain_chains c.chains retained retained))) backups)

-- `err endless_chain` stands for a loop of `GetFullChain` that is still running; see Chain/Fuel.
unfoldable pub get_pruned_backups : List Backup → List RetentionPolicy → Result (List Backup)
unfolding collect_chains select_pruned
get_pruned_backups backups policies =
    collect_chains (suc (length backups)) (make_index backups)
      (record { subjects = []; chains = [] }) backups
    >>= select_pruned backups policies
