-- ===== src/Restore.antt =====
-- `uback restore`, `uback fetch` and `uback list` of cmd/, after their options are read.
pub mod Ordered
use uback.Base.{
  ℕ, suc, Bool, true, false, not, ◌&&◌, ◌||◌, Option, none, some, List, [], ◌∷◌, ◌++◌, Bytes, codes,
  has_prefix, reverse, length, if◌then◌else◌, Result, ok, err, Error, map,
}
use uback.Base.Commands.{Command, ◌>>=◌, ◌>>◌, pure, ask}
use uback.Snapshot.{Backup, Snapshot, full_name, filename, name, snapshot_name}
use uback.Chain.{Chain, complete, broken, running, make_index, get_full_chain}
use uback.Interfaces.{Stream, Source, Destination}
use uback.Sorting.{sorted_list_backups, sorted_list_archives, sorted_list_bookmarks}
use uback.Options.{Options, Packages, get}
use uback.Container.{Codec, Reader, new_reader, unseal}

-- The first backup whose full name begins with the given text.
unfoldable pub find_backup : Bytes → List Backup → Result Backup
find_backup target [] = err Error.missing_backup
find_backup target (b ∷ bs) =
    let rest = find_backup target bs in if has_prefix (full_name b) target then ok b else rest

unfoldable pub require_chain : Chain → Result (List Backup)
require_chain (complete chain) = ok chain
require_chain (broken chain) = err Error.broken_chain
require_chain running = err Error.endless_chain

-- What is restored, the last base first. The fuel is one more than there are backups.
unfoldable pub plan_restore : Bytes → List Backup → Result (List Backup)
unfolding find_backup require_chain
plan_restore target backups = elim (find_backup target backups) [
  | err e ↦ err e
  | ok b ↦ require_chain (get_full_chain (suc (length backups)) b (make_index backups))
]

-- The steps for one backup after another; the first error stops the command.
unfoldable pub each {ℓ} :
    {W : Type ℓ} → (Backup → Command W (Unit {0})) → List Backup → Command W (Unit {0})
each step [] = pure tt
each step (b ∷ bs) = step b >> each step bs

-- What a stream delivers as a whole.
unfoldable pub read_all : Stream → Result Bytes
read_all s = elim s.failure [ none ↦ ok s.content | some e ↦ err e ]

-- `-r` fetches the chain as far as it goes, a broken one too.
unfoldable pub fetched_chain : Chain → Result (List Backup)
fetched_chain (complete chain) = ok chain
fetched_chain (broken chain) = ok chain
fetched_chain running = err Error.endless_chain

unfoldable pub plan_fetch : Bool → Bytes → List Backup → Result (List Backup)
unfolding find_backup fetched_chain
plan_fetch recursive target backups = elim (find_backup target backups) [
  | err e ↦ err e
  | ok b ↦
      if recursive
      then fetched_chain (get_full_chain (suc (length backups)) b (make_index backups))
      else ok (b ∷ [])
]

-- What the commands touch beside the destination: the target directory, with a backup file that may lie
-- there, the source that restores a type, and the file that a fetch writes.
pub record Local (D : Destination) : Type 1 where
  pub World : Type 0
  pub destination : World → D.State
  pub open_local : Backup → World → Option Stream
  pub new_for_restoration : Bytes → World → Result (Backup → Bytes → Command World (Unit {0}))
  pub write_local : Bytes → Stream → Command World (Unit {0})

module _ (D : Destination) (L : Local D) where
  -- `cmdRestore.Run`, given what restores one backup.
  unfoldable pub run_restore :
      (Backup → Command L.World (Unit {0})) → Bytes → Command L.World (Unit {0})
  unfolding plan_restore each
  run_restore step target = do
    backups ← ask (λ w. sorted_list_backups D (L.destination w))
    chain ← ask (λ w. plan_restore target backups)
    each step (reverse chain)

  unfoldable pub fetch : Backup → Command L.World (Unit {0})
  fetch b = do
    stream ← ask (λ w. D.receive_backup b (L.destination w))
    L.write_local (filename b) stream

  -- `cmdFetch.Run`
  unfoldable pub cmd_fetch : Bool → Bytes → Command L.World (Unit {0})
  unfolding plan_fetch each fetch
  cmd_fetch recursive target = do
    backups ← ask (λ w. sorted_list_backups D (L.destination w))
    chain ← ask (λ w. plan_fetch recursive target backups)
    each fetch (reverse chain)

module _ {Identity Recipient : Type 0} (Z : Codec Identity Recipient) (P : Packages)
    (D : Destination) (L : Local D) where
  -- A file in the target directory is taken before the destination's.
  unfoldable pub open_backup : Backup → L.World → Result Stream
  open_backup b w = elim (L.open_local b w) [
    | some stream ↦ ok stream
    | none ↦ D.receive_backup b (L.destination w)
  ]

  -- `restore`
  unfoldable pub restore : ℕ → List Identity → Backup → Command L.World (Unit {0})
  unfolding open_backup read_all
  restore fuel identities b = do
    stream ← ask (open_backup b)
    bytes ← ask (λ w. read_all stream)
    reader ← ask (λ w. new_reader Z P fuel bytes)
    source ← ask (L.new_for_restoration (get (codes "Type") reader.options))
    content ← ask (λ w. unseal Z P identities reader)
    source b content

  unfoldable pub cmd_restore : ℕ → List Identity → Bytes → Command L.World (Unit {0})
  unfolding run_restore restore
  cmd_restore fuel identities target = run_restore D L (restore fuel identities) target

-- The line of a backup.
abbrev pub base_text : Option Snapshot → Bytes
base_text none = codes " (full)"
base_text (some base) = codes " (base: " ++ (snapshot_name base ++ codes ")")

unfoldable pub backup_line : Backup → Bytes
backup_line b = name b ++ base_text b.base_snapshot

-- The lines of `uback list`, the oldest first.
unfoldable pub cmd_list_backups : (D : Destination) → D.State → Result (List Bytes)
unfolding backup_line
cmd_list_backups D s = elim (sorted_list_backups D s) [
  | err e ↦ err e
  | ok backups ↦ ok (map backup_line (reverse backups))
]

abbrev lines : Result (List Snapshot) → Result (List Bytes)
lines (err e) = err e
lines (ok snapshots) = ok (reverse snapshots)

unfoldable pub cmd_list_archives : (S : Source) → S.State → Result (List Bytes)
cmd_list_archives S s = lines (sorted_list_archives S s)

unfoldable pub cmd_list_bookmarks : (S : Source) → S.State → Result (List Bytes)
cmd_list_bookmarks S s = lines (sorted_list_bookmarks S s)
