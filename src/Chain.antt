-- ===== src/Chain.antt =====
-- `MakeIndex` and `GetFullChain` of lib/utils.go. The `for` loop of the latter takes fuel: on a base
-- that leads back to itself the code never leaves it.
pub mod Links
pub mod Index
pub mod Fuel
pub mod Sound
use uback.Base.{
  ℕ, zero, suc, Bool, true, false, Option, none, some, List, [], ◌∷◌, ◌++◌, Bytes, Dict, lookup,
  insert, is_empty, equal, if◌then◌else◌,
}
use uback.Snapshot.{Snapshot, Backup, name, snapshot_name}

-- The loop over the backups, with the map that is built.
unfoldable pub index_onto : Dict Backup → List Backup → Dict Backup
index_onto idx [] = idx
index_onto idx (b ∷ bs) = index_onto (insert (name b) b idx) bs

unfoldable pub make_index : List Backup → Dict Backup
unfolding index_onto
make_index = index_onto []

-- `(chain, true)`, `(chain, false)`, or the loop still runs when the fuel is used up.
pub data Chain : Type 0 where
  complete : List Backup → Chain
  broken : List Backup → Chain
  running : Chain

-- The `for` loop, with `backup`, its base and `chain`.
unfoldable pub follow : ℕ → Dict Backup → Option Snapshot → List Backup → Chain
follow fuel idx none chain = complete chain
follow zero idx (some base) chain = running
follow (suc fuel) idx (some base) chain = elim (lookup (snapshot_name base) idx) [
  | none ↦ broken chain
  | some b ↦ follow fuel idx b.base_snapshot (chain ++ b ∷ [])
]

unfoldable pub get_full_chain : ℕ → Backup → Dict Backup → Chain
unfolding follow
get_full_chain fuel b idx = follow fuel idx b.base_snapshot (b ∷ [])
