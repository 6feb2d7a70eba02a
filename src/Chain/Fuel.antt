-- ===== src/Chain/Fuel.antt =====
-- The loop of `GetFullChain` ends if every base is older than the backup made from it, and never ends
-- on a backup whose base is itself.
use Prim.Native.Nat.{Ordering}
use uback.Base.{
  ℕ, zero, suc, ◌+◌, ◌≡◌, ◌≢◌, refl, sym, subst, Bool, true, false, Option, none, some, List, [],
  ◌∷◌, ◌++◌, arith, ◌≤◌, ◌<◌, Bytes, Dict, lookup, Option-cases, inl, inr, compare_bytes, equal,
  equal_iff, if◌then◌else◌, Bool-cases, Ordering-cases, All, All-In, length,
}
use uback.Base.Text.Order.{
  compare_bytes_self, compare_bytes_swap_lt, compare_bytes_trans, compare_bytes_eq,
}
use uback.Snapshot.{Snapshot, Backup, name, compare_snapshots}
use uback.Chain.{running, follow, get_full_chain, make_index}
use uback.Chain.Index.{make_index-source, length-index}

-- `compare(j, k) <= 0`
at_most : Bytes → Bytes → Bool
at_most j k = elim (compare_bytes j k) [ Ordering.gt ↦ false | _ ↦ true ]

-- The entries of the index whose name is at most `k`.
at_most_count : Bytes → Dict Backup → ℕ
at_most_count k [] = 0
at_most_count k ((j, b) ∷ idx) = (if at_most j k then 1 else 0) + at_most_count k idx

at_most_mono :
    (i j k : Bytes) → compare_bytes j k ≡ Ordering.lt → at_most i j ≡ true → at_most i k ≡ true
unfolding at_most
at_most_mono i j k h a = elim (Ordering-cases (compare_bytes i j)) [
  | inl lt ↦ ground (arith, compare_bytes_trans i j k lt h)
  | inr (inl eq) ↦ ground (arith, compare_bytes_eq i j eq)
  | inr (inr gt) ↦ ground arith
]

at_most_self : (k : Bytes) → at_most k k ≡ true
unfolding at_most
at_most_self k = rw (compare_bytes_self k, at_most)

at_most_newer : (j k : Bytes) → compare_bytes j k ≡ Ordering.lt → at_most k j ≡ false
unfolding at_most
at_most_newer j k h = rw (compare_bytes_swap_lt j k h, at_most)

at_most_count_mono :
    (j k : Bytes) (idx : Dict Backup)
    → compare_bytes j k ≡ Ordering.lt
    → at_most_count j idx ≤ at_most_count k idx
unfolding at_most_count
at_most_count_mono j k [] h = omega arith
at_most_count_mono j k ((i, b) ∷ idx) h =
    ground (arith, at_most_count_mono j k idx h, at_most_mono i j k h)

at_most_count-lt :
    (j k : Bytes) (idx : Dict Backup) (found : Backup)
    → compare_bytes j k ≡ Ordering.lt
    → lookup k idx ≡ some found
    → at_most_count j idx < at_most_count k idx
unfolding at_most_count lookup
at_most_count-lt j k [] found h e = ground arith
at_most_count-lt j k ((i, b) ∷ idx) found h e = elim (Bool-cases (equal k i)) [
  | inl same ↦
      let q : k ≡ i = (equal_iff k i).0 same in
      let counted : at_most i k ≡ true = subst (λ i. at_most i k ≡ true) q (at_most_self k) in
      let new : at_most i j ≡ false = subst (λ i. at_most i j ≡ false) q (at_most_newer j k h) in
      ground (arith, at_most_count_mono j k idx h)
  | inr other ↦ ground (arith, at_most_count-lt j k idx found h, at_most_mono i j k h)
]

at_most_count-length : (k : Bytes) (idx : Dict Backup) → at_most_count k idx ≤ length idx
unfolding at_most_count
at_most_count-length k [] = omega arith
at_most_count-length k ((i, b) ∷ idx) = ground (arith, at_most_count-length k idx)

-- Every base is older than the backup that was made from it.
abbrev pub HasOlderBase : Backup → Type 0
HasOlderBase b =
    (base : Snapshot)
    → b.base_snapshot ≡ some base
    → compare_snapshots base b.snapshot ≡ Ordering.lt

follow_on :
    (fuel : ℕ) (idx : Dict Backup) (base : Option Snapshot) (chain : List Backup)
    → ((s : Snapshot) → base ≡ some s → follow fuel idx (some s) chain ≢ running)
    → follow fuel idx base chain ≢ running
unfolding follow
follow_on zero idx none chain h = ground arith
follow_on (suc fuel) idx none chain h = ground arith
follow_on zero idx (some s) chain h = h s refl
follow_on (suc fuel) idx (some s) chain h = h s refl

follow_runs :
    (fuel : ℕ) (idx : Dict Backup) (b : Backup) (chain : List Backup)
    → b.base_snapshot ≡ some b.snapshot
    → lookup (name b) idx ≡ some b
    → follow fuel idx (some b.snapshot) chain ≡ running
unfolding follow
follow_runs zero idx b chain h e = refl
follow_runs (suc fuel) idx b chain h e =
    ground (arith, follow_runs fuel idx b (chain ++ b ∷ []) h e)

follow_ends :
    (fuel : ℕ) (idx : Dict Backup) (base : Snapshot) (chain : List Backup)
    → ((k : Bytes) (b : Backup) → lookup k idx ≡ some b → (name b ≡ k) × HasOlderBase b)
    → at_most_count base idx < fuel
    → follow fuel idx (some base) chain ≢ running
unfolding follow
follow_ends zero idx base chain older h = absurd (omega arith)
follow_ends (suc fuel) idx base chain older h = elim (Option-cases (lookup base idx)) [
  | inl e ↦ ground arith
  | inr (b, e) ↦
      let (named, old) = older base b e in
      let on = follow_on fuel idx b.base_snapshot (chain ++ b ∷ []) λ base' f.
        let less = subst (λ k. compare_bytes base' k ≡ Ordering.lt) named (old base' f) in
        follow_ends fuel idx base' (chain ++ b ∷ []) older
          (omega (arith, at_most_count-lt base' base idx b less e)) in
      ground arith
]

-- If every base is older than its backup, one round more than there are backups is enough.
pub get_full_chain_ends :
    (bs : List Backup) (b : Backup)
    → All HasOlderBase bs
    → get_full_chain (suc (length bs)) b (make_index bs) ≢ running
unfolding get_full_chain
get_full_chain_ends bs b older =
    follow_on (suc (length bs)) (make_index bs) b.base_snapshot (b ∷ []) λ base e.
      follow_ends (suc (length bs)) (make_index bs) base (b ∷ [])
        (λ k c found.
          let (named, m) = make_index-source bs k c found in (named, All-In HasOlderBase m older))
        (omega (arith, at_most_count-length base (make_index bs), length-index bs))

-- A backup whose base is itself keeps the loop running for ever.
pub get_full_chain_runs :
    (fuel : ℕ) (idx : Dict Backup) (b : Backup)
    → b.base_snapshot ≡ some b.snapshot
    → lookup (name b) idx ≡ some b
    → get_full_chain fuel b idx ≡ running
unfolding get_full_chain
get_full_chain_runs fuel idx b h e =
    subst (λ base. follow fuel idx base (b ∷ []) ≡ running) (sym h)
      (follow_runs fuel idx b (b ∷ []) h e)
