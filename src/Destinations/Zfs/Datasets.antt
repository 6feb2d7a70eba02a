-- ===== src/Destinations/Zfs/Datasets.antt =====
-- destinations/zfs.go: the operations, over the runs of the command zfs.
use uback.Base.{ℕ, none, some, List, [], ◌∷◌, ◌++◌, Bytes, codes, Result, ok, err}
use uback.Base.Commands.{Command, ◌>>=◌, ask}
use uback.Snapshot.{Snapshot, Backup}
use uback.Interfaces.{Stream}
use uback.Options.{Packages}
use uback.Container.{Codec}
use uback.System.{
  System, Outcome, not_started, finished, failure_of, build_command, run_command, output_of,
  keep_failure,
}
use uback.Sources.Zfs.Datasets.{prefixed}
use uback.Destinations.Zfs.{Zfs}
use uback.Destinations.Receiving.{opened}

-- A snapshot of zfs counts as a full backup of its name.
unfoldable pub full_backups : List Snapshot → List Backup
full_backups [] = []
full_backups (k ∷ ks) = record { snapshot = k; base_snapshot = none } ∷ full_backups ks

-- `decode` gives the keys of the `datasets` that `zfs list -j` prints, in any order.
module _ (O : System) (decode : Bytes → Result (List Bytes)) (t : Zfs) where
  abbrev pub snapshot_of : Backup → Bytes
  snapshot_of b = t.dataset ++ (codes "@" ++ (t.prefix ++ b.snapshot))

  abbrev pub listed : O.State × Result Bytes → O.State × Result (List Backup)
  listed (s, err e) = (s, ok [])
  listed (s, ok output) = (
    s,
    elim (decode output) [
      | err e ↦ err e
      | ok names ↦ ok (full_backups (prefixed (t.dataset ++ (codes "@" ++ t.prefix)) names))
    ],
  )

  -- If the command fails there are no backups: the dataset may not exist yet.
  unfoldable pub list_backups : Command O.State (List Backup)
  unfolding full_backups prefixed
  list_backups s = listed (
      output_of O
        (build_command t.list_command (
          codes "-j"
          ∷ codes "-d"
          ∷ codes "1"
          ∷ codes "-o"
          ∷ codes "name"
          ∷ codes "-t"
          ∷ codes "snapshot"
          ∷ t.dataset
          ∷ []))
        s)

  unfoldable pub remove_backup : Backup → Command O.State (Unit {0})
  remove_backup b = run_command O (build_command t.destroy_command (snapshot_of b ∷ [])) none

  abbrev pub sent : O.State × Outcome → O.State × Result Stream
  sent (s, not_started e) = (s, err e)
  sent (s, finished output failure) =
      let (s', r) = keep_failure failure s in
      (s', ok (record { content = output; failure = failure_of r }))

  -- What the command sends, without a container.
  unfoldable pub receive_backup : Backup → Command O.State Stream
  receive_backup b s =
      sent (O.execute (build_command t.send_command (snapshot_of b ∷ [])) none none s)

  module _ {Identity Recipient : Type 0} (Z : Codec Identity Recipient) (P : Packages)
      (inflate : Stream → Stream) where
    unfoldable pub send_backup : ℕ → Backup → Stream → Command O.State (Unit {0})
    send_backup fuel b stream = do
      content ← ask (λ s. opened Z P inflate fuel stream)
      run_command O
          (build_command t.receive_command (codes "-o" ∷ codes "readonly=on" ∷ t.dataset ∷ []))
          (some content)
