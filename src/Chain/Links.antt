-- ===== src/Chain/Links.antt =====
-- What a chain is: from a backup through the bases down to a full one. `get_full_chain` finds it.
use mathlib.Core.List.{append-nil, append_assoc}
use uback.Base.{
  ℕ, zero, suc, ◌≡◌, refl, sym, ◌∙◌, subst, Option, none, some, List, [], ◌∷◌, ◌++◌, arith, Bytes,
  Dict, lookup, In, here, there, Option-cases, inl, inr,
}
use uback.Base.{length, ◌≤◌}
use uback.Snapshot.{Snapshot, Backup, name, snapshot_name}
use uback.Chain.{complete, follow, get_full_chain}

-- The backups behind the one whose base is given, down to a full one, each found in the index under
-- the base of the one before it.
pub data Links (idx : Dict Backup) : Option Snapshot → List Backup → Type 0 where
  full : Links idx none []
  link :
      {base : Snapshot} {b : Backup} {rest : List Backup}
      → lookup (snapshot_name base) idx ≡ some b
      → Links idx b.base_snapshot rest
      → Links idx (some base) (b ∷ rest)

-- Every base down to a full backup is in the index.
abbrev pub IsRestorable : Dict Backup → Backup → Type 0
IsRestorable idx b = (rest : List Backup) × Links idx b.base_snapshot rest

follow-Links :
    (fuel : ℕ) (idx : Dict Backup) (base : Option Snapshot) (chain found : List Backup)
    → follow fuel idx base chain ≡ complete found
    → (rest : List Backup) × Links idx base rest × (found ≡ chain ++ rest)
unfolding follow
follow-Links fuel idx none chain found h = ([], full, rw append-nil (ground arith))
follow-Links zero idx (some base) chain found h = ground arith
follow-Links (suc fuel) idx (some base) chain found h = elim (Option-cases (lookup base idx)) [
  | inl e ↦ ground arith
  | inr (b, e) ↦
      let (rest, l, q) =
        follow-Links fuel idx b.base_snapshot (chain ++ b ∷ []) found (ground arith) in
      (b ∷ rest, link e l, q ∙ append_assoc chain (b ∷ []) rest)
]

-- A complete chain begins with the backup, and the others are its bases in order.
pub get_full_chain-Links :
    (fuel : ℕ) (idx : Dict Backup) (b : Backup) {found : List Backup}
    → get_full_chain fuel b idx ≡ complete found
    → (rest : List Backup) × Links idx b.base_snapshot rest × (found ≡ b ∷ rest)
unfolding get_full_chain
get_full_chain-Links fuel idx b {found} h = follow-Links fuel idx b.base_snapshot (b ∷ []) found h

-- What stands in a chain is in the index under its own name, and the rest of the chain is behind it.
pub record Linked (idx : Dict Backup) (chain : List Backup) (b : Backup) : Type 0 where
  pub indexed : lookup (name b) idx ≡ some b
  pub rest : List Backup
  pub links : Links idx b.base_snapshot rest
  pub within : (c : Backup) → In c rest → In c chain

abbrev pub IsIndex : Dict Backup → Type 0
IsIndex idx = (k : Bytes) (b : Backup) → lookup k idx ≡ some b → name b ≡ k

pub Links-Linked :
    {idx : Dict Backup} {base : Option Snapshot} {rest : List Backup} (b : Backup)
    → IsIndex idx
    → Links idx base rest
    → In b rest
    → Linked idx rest b
Links-Linked b named full m = elim m [ ]
Links-Linked {idx} b named (link {base} {b = d} {rest} e l) (here q) = record {
  indexed =
      subst (λ c. lookup (name c) idx ≡ some c) (sym q)
        (subst (λ k. lookup k idx ≡ some d) (sym (named base d e)) e);
  rest = rest;
  links = subst (λ c. Links idx c.base_snapshot rest) (sym q) l;
  within = λ c m. there m;
}
Links-Linked b named (link e l) (there m) =
    let p = Links-Linked b named l m in
    record {
      indexed = p.indexed;
      rest = p.rest;
      links = p.links;
      within = λ c i. there (p.within c i);
    }

-- The base of a backup with links is the first of them.
pub Links-base :
    {idx : Dict Backup} {o : Option Snapshot} {rest : List Backup} (base : Snapshot)
    → IsIndex idx
    → Links idx o rest
    → o ≡ some base
    → (c : Backup) × In c rest × (name c ≡ base)
Links-base base named full e = cc
Links-base base named (link {base = s} {b = c} found l) e =
    let q : s ≡ base = ground arith in (c, here refl, named s c found ∙ q)

-- The chain that the links spell is found with fuel for its length.
pub Links-follow :
    {idx : Dict Backup} {base : Option Snapshot} {rest : List Backup} (fuel : ℕ)
    (chain : List Backup)
    → Links idx base rest
    → length rest ≤ fuel
    → follow fuel idx base chain ≡ complete (chain ++ rest)
unfolding follow
Links-follow fuel chain full h = rw append-nil
Links-follow zero chain (link e l) h = absurd (omega arith)
Links-follow (suc fuel) chain (link {b = b} {rest = rest} e l) h =
    let later = Links-follow fuel (chain ++ b ∷ []) l (omega arith) in
    ground (arith, append_assoc chain (b ∷ []) rest)
