-- ===== src/Examples/Machines.antt =====
-- Commands run on a machine that writes down what it runs, and the options of a proxy.
use uback.Base.{
  pos, ◌≡◌, ◌≢◌, ◌↔◌, ◌⊎◌, refl, true, false, Option, none, some, List, [], ◌∷◌, ◌++◌, Bytes, codes,
  Result, ok, err, Error, arith, ◌≤◌,
}
use uback.Base.Commands.{◌>>◌}
use uback.Options.{Options}
use uback.System.{System, Failure, Outcome, finished, run_command, wrap_source_command}
use uback.Sources.Tar as Tar
use uback.Sources.Tar.Ending.{finalize-is_warning}
use uback.Sources.Btrfs as Btrfs
use uback.Sources.Btrfs.Ending.{finalize-failure}
use uback.Destinations.Btrfs as Receiver
use uback.Destinations.Btrfs.Sending.{send_backup-plain, send_backup-sealed}
use uback.Proxy.{proxied_options, proxied_type}
use uback.Proxy.Nested.{nested_type, proxied_type-nested_type, proxied_type-ends}
use uback.Examples.Data.{day_two, next_two}
use uback.Examples.Storage.{packages, plain_codec, sealed_options, sealed}

-- Every command ends in the same way.
abbrev machine : Outcome → System
machine outcome = record {
  State = List (List Bytes);
  now = λ s. 0;
  stamp = λ s. day_two;
  join = λ a b. a ++ (b'/' ∷ b);
  make_directories = λ p s. (s, ok tt);
  read_directory = λ p s. ok [];
  open_file = λ p s. err (Error.external 2);
  create = λ p s. (s, ok tt);
  copy = λ p stream s. (s, ok tt);
  rename = λ p q s. ((codes "rename" ∷ p ∷ q ∷ []) ∷ s, ok tt);
  remove = λ p s. ((codes "remove" ∷ p ∷ []) ∷ s, ok tt);
  remove_all = λ p s. ((codes "remove" ∷ p ∷ []) ∷ s, ok tt);
  read_file = λ p s. err (Error.external 2);
  write_file = λ p v s. (s, ok tt);
  create_temporary = λ p s. (s, ok p);
  write = λ p v s. (s, ok tt);
  sync = λ p s. (s, ok tt);
  execute = λ words env input s. (words ∷ s, outcome);
}

-- The exit code 1.
abbrev one : Failure
one = record { error = Error.external 1; code = some 1 }

abbrev failing : System
failing = machine (finished (codes "data") (some one))

abbrev btrfs : Btrfs.Btrfs
btrfs = record {
  snapshots_path = codes "s";
  base_path = codes "b";
  snapshot_command = codes "snapshot" ∷ [];
  send_command = codes "send" ∷ [];
  receive_command = codes "receive" ∷ [];
  delete_command = codes "delete" ∷ [];
  reuse_snapshots = pos 0;
}

-- The truncated data of a snapshot that was there before counts as whole.
finalize-failure_example :
    (wrap_source_command failing next_two
      (codes "send" ∷ [])
      (Btrfs.finalize failing btrfs (record { snapshot = day_two; reused = true }))
      []).1
    ≡ ok (next_two, record { content = codes "data"; failure = none })
finalize-failure_example =
    finalize-failure failing btrfs next_two (codes "send" ∷ [])
      (record { snapshot = day_two; reused = true }) one (codes "data") [] _ _ refl refl

abbrev tar : Tar.Tar
tar = record { snapshots_path = codes "s"; base_path = codes "b"; command = codes "tar" ∷ [] }

finalize-is_warning_example :
    (failure : Option Error) × ((wrap_source_command failing next_two
        (codes "tar" ∷ [])
        (Tar.finalize failing tar day_two)
        []).1
      ≡ ok (next_two, record { content = codes "data"; failure = failure }))
    × ((failure ≡ none) ↔ (one.code ≡ some 1))
    × ((failure ≡ none) ⊎ (failure ≡ some one.error))
finalize-is_warning_example =
    finalize-is_warning failing tar next_two (codes "tar" ∷ []) day_two one (codes "data") [] _ _
      refl refl

abbrev receiver : Receiver.Btrfs
receiver = record {
  base_path = codes "b";
  snapshot_command = codes "snapshot" ∷ [];
  send_command = codes "send" ∷ [];
  receive_command = codes "receive" ∷ [];
  delete_command = codes "delete" ∷ [];
}

abbrev running : System
running = machine (finished [] none)

abbrev plain_options : Options
plain_options = record {
  strings =
      (codes "Type", codes "btrfs")
      ∷ (codes "Compression", codes "zstd")
      ∷ (codes "Plain", codes "1")
      ∷ [];
  slices = [];
}

abbrev plain : Bytes
plain = codes "github.com/sloonz/uback/v0\ntype=btrfs,compression=zstd,plain=1\ndata"

send_backup-plain_example :
    Receiver.send_backup running receiver plain_codec packages
      (λ s. s)
      0
      next_two
      (record { content = plain; failure = none })
      []
    ≡ (
      (codes "rename" ∷ codes "b/_tmp-20210102T000000.000" ∷ codes "b/20210102T000000.000" ∷ [])
          ∷ (codes "receive" ∷ codes "b" ∷ [])
          ∷ [],
      ok tt,
    )
unfolding uback.Container.RoundTrip.one_line uback.Options.eval_options uback.Options.split_options
    uback.Options.Split.split_texts uback.Base.split_once uback.Base.trim_space
    uback.Container.options_line uback.Base.equal uback.Base.insert uback.Options.get
    uback.Base.lookup uback.Container.write_container uback.Container.header ◌>>◌ run_command
send_backup-plain_example =
    send_backup-plain plain_codec packages (λ s. s) 0 (codes "btrfs") plain_options running receiver
      next_two (codes "data") [] refl refl refl refl plain refl

send_backup-sealed_example :
    Receiver.send_backup running receiver plain_codec packages
      (λ s. s)
      0
      next_two
      (record { content = sealed; failure = none })
      []
    ≡ ([], err Error.expected_plaintext)
unfolding uback.Container.RoundTrip.one_line uback.Options.eval_options uback.Options.split_options
    uback.Options.Split.split_texts uback.Base.split_once uback.Base.trim_space
    uback.Container.options_line uback.Base.equal uback.Base.insert uback.Options.get
    uback.Base.lookup uback.Container.write_container uback.Container.header
send_backup-sealed_example =
    send_backup-sealed plain_codec packages (λ s. s) 0 (codes "tar") sealed_options running receiver
      next_two (codes "data") [] (codes "age" ∷ []) refl refl refl refl sealed refl

-- A proxy behind a proxy, and a tar source behind that one.
abbrev two_proxies : Options
two_proxies = record {
  strings =
      (codes "Type", codes "proxy")
      ∷ (codes "ProxyType", codes "proxy")
      ∷ (codes "ProxyProxyType", codes "tar")
      ∷ [];
  slices = [];
}

proxied_type-nested_type_example :
    proxied_type 2 (codes "Proxy") two_proxies ≡ nested_type 2 (proxied_options two_proxies)
proxied_type-nested_type_example = proxied_type-nested_type 2 two_proxies

proxied_type-ends_example : proxied_type 15 (codes "Proxy") two_proxies ≢ err Error.endless_proxies
proxied_type-ends_example =
    proxied_type-ends 14 two_proxies (omega arith, (omega arith, (omega arith, tt)))
