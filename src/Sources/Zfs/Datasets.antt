-- ===== src/Sources/Zfs/Datasets.antt =====
-- sources/zfs.go: the operations, over the runs of the command zfs.
use uback.Base.{
  false, Option, none, some, List, [], ◌∷◌, ◌++◌, Bytes, codes, cut_prefix, if◌then◌else◌, Result,
  ok,
}
use uback.Base.Commands.{Command, ◌>>=◌, ◌>>◌, pure, ask}
use uback.Snapshot.{Snapshot, Backup}
use uback.Snapshot.Filename.{is_snapshot_name}
use uback.Interfaces.{Stream}
use uback.Sorting.{sort_snapshots}
use uback.System.{System, keep_failure, build_command, run_command, output_of, wrap_source_command}
use uback.Sources.{Chosen, choose_snapshot}
use uback.Sources.Btrfs.{is_zero}
use uback.Sources.Zfs.{Zfs, when}

-- The names behind `dataset@prefix` that are snapshots.
unfoldable pub prefixed : Bytes → List Bytes → List Bytes
prefixed p [] = []
prefixed p (name ∷ names) =
    let rest = prefixed p names in elim (cut_prefix p name) [ none ↦ rest | some k ↦ k ∷ rest ]

unfoldable pub snapshot_names : List Bytes → List Snapshot
snapshot_names [] = []
snapshot_names (k ∷ ks) =
    let rest = snapshot_names ks in if is_snapshot_name k then k ∷ rest else rest

-- `decode` gives the keys of the `datasets` that `zfs list -j` prints, in any order.
module _ (O : System) (decode : Bytes → Result (List Bytes)) (t : Zfs) where
  unfoldable pub list : List Bytes → Command O.State (List Bytes)
  list arguments = do
    output ←
        output_of O
          (build_command t.list_command (codes "-j" ∷ codes "-o" ∷ codes "name" ∷ arguments))
    ask (λ s. decode output)

  -- `@` or `#` stands between the dataset and the name.
  abbrev pub dataset_name : Bytes → Snapshot → Bytes
  dataset_name sigil k = t.dataset ++ (sigil ++ (t.prefix ++ k))

  unfoldable pub list_snapshots : Bytes → Bytes → Command O.State (List Snapshot)
  unfolding list prefixed snapshot_names
  list_snapshots kind sigil = do
    names ← list (codes "-t" ∷ kind ∷ codes "-d" ∷ codes "1" ∷ t.dataset ∷ [])
    pure (snapshot_names (prefixed (t.dataset ++ (sigil ++ t.prefix)) names))

  unfoldable pub list_archives : Command O.State (List Snapshot)
  unfolding list_snapshots
  list_archives = list_snapshots (codes "snapshot") (codes "@")

  unfoldable pub list_bookmarks : Command O.State (List Snapshot)
  unfolding list_snapshots
  list_bookmarks = list_snapshots (codes "bookmark") (codes "#")

  unfoldable pub remove_archive : Snapshot → Command O.State (Unit {0})
  remove_archive k =
      run_command O
        (build_command (t.destroy_command ++ when t.replicate (codes "-r" ∷ []))
          (dataset_name (codes "@") k ∷ []))
        none

  unfoldable pub remove_bookmark : Snapshot → Command O.State (Unit {0})
  remove_bookmark k =
      run_command O (build_command t.destroy_command (dataset_name (codes "#") k ∷ [])) none

  -- The snapshots are listed only if `ReuseSnapshots` is set.
  unfoldable pub choose : Command O.State Chosen
  unfolding list_archives
  choose s =
      if is_zero t.reuse_snapshots
      then (s, ok (record { snapshot = O.stamp s; reused = false }))
      else (do
        snapshots ← list_archives
        ask (λ u.
            choose_snapshot t.reuse_snapshots (O.now u) (O.stamp s) (sort_snapshots snapshots)))
          s

  -- A new snapshot, with a bookmark of its name if bookmarks are used.
  unfoldable pub take : Chosen → Command O.State (Unit {0})
  take c = if c.reused then pure tt else (do
    run_command O (build_command t.snapshot_command (dataset_name (codes "@") c.snapshot ∷ [])) none
    if t.use_bookmarks
        then run_command O
            (build_command t.bookmark_command
              (dataset_name (codes "@") c.snapshot ∷ dataset_name (codes "#") c.snapshot ∷ []))
            none
        else pure tt)

  abbrev pub base_words : Option Snapshot → List Bytes
  base_words none = []
  base_words (some base) =
      codes "-i" ∷ dataset_name (if t.use_bookmarks then codes "#" else codes "@") base ∷ []

  unfoldable pub create_backup : Option Snapshot → Command O.State (Backup × Stream)
  unfolding choose take
  create_backup base = do
    c ← choose
    take c
    wrap_source_command O (record { snapshot = c.snapshot; base_snapshot = base })
        (build_command t.send_command (base_words base ++ dataset_name (codes "@") c.snapshot ∷ []))
        keep_failure

  unfoldable pub restore_backup : Bytes → Backup → Stream → Command O.State (Unit {0})
  restore_backup target b stream =
      run_command O (build_command t.receive_command (t.dataset ∷ [])) (some stream)
