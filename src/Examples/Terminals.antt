-- ===== src/Examples/Terminals.antt =====
-- `uback container create` on a terminal that prints nothing.
use uback.Base.{◌≢◌, ◌≡◌, refl, List, [], ◌∷◌, Bytes, codes, ok, err, Error}
use uback.Options.Keys.{KeyFiles}
use uback.Tools.{Terminal}
use uback.Tools.Containers.{cmd_create, cmd_extract}
use uback.Tools.Containers.Piping.{whole, cmd_extract-cmd_create}
use uback.Tools.Containers.Output.{cmd_create-fails}
use uback.Examples.Memory.{empty_stream}
use uback.Examples.Storage.{packages, plain_codec, plain_codec-Reverses, sealed, sealed_options}

abbrev terminal : Terminal
terminal = record {
  State = List Bytes;
  standard_input = λ s. empty_stream;
  open_file = λ p s. ok empty_stream;
  read_file = λ p s. err (Error.external 2);
  create_file = λ p s. (p ∷ s, ok tt);
  write_file = λ p v s. (p ∷ s, ok tt);
  remove = λ p s. (s, ok tt);
  make_directories = λ p s. (s, ok tt);
  print = λ v s. (v ∷ s, ok tt);
}

abbrev no_files : KeyFiles Bytes Bytes
no_files = record {
  read_file = λ p. err (Error.external 2);
  parse_identities = λ v. ok [];
  parse_recipients = λ v. ok [];
}

cmd_create-fails_example :
    (cmd_create terminal plain_codec packages 0 no_files [] []
      (codes "tar")
      (codes "in" ∷ codes "out" ∷ [])
      []).1
    ≢ ok tt
cmd_create-fails_example =
    cmd_create-fails terminal plain_codec packages 0 no_files [] [] (codes "tar") (codes "in")
      (codes "out") []

-- The standard input holds the text that was printed last; there are no files.
abbrev pipe : Terminal
pipe = record {
  State = Bytes;
  standard_input = λ s. whole s;
  open_file = λ p s. err (Error.external 2);
  read_file = λ p s. err (Error.external 2);
  create_file = λ p s. (s, ok tt);
  write_file = λ p v s. (s, ok tt);
  remove = λ p s. (s, ok tt);
  make_directories = λ p s. (s, ok tt);
  print = λ v s. (v, ok tt);
}

-- A key is parsed as itself.
abbrev key_texts : KeyFiles Bytes Bytes
key_texts = record {
  read_file = λ p. err (Error.external 2);
  parse_identities = λ v. ok (v ∷ []);
  parse_recipients = λ v. ok (v ∷ []);
}

cmd_extract-cmd_create_example :
    (cmd_create pipe plain_codec packages 0 key_texts []
        (codes "age")
        (codes "tar")
        []
        (codes "data")
      ≡ (sealed, ok tt))
    × (cmd_extract pipe plain_codec packages 0 key_texts [] (codes "key") [] sealed
        ≡ (codes "data", ok tt))
unfolding uback.Options.Keys.load_recipients uback.Options.Keys.load_identities
    uback.Container.RoundTrip.one_line uback.Options.eval_options uback.Options.split_options
    uback.Options.Split.split_texts uback.Base.split_once uback.Base.trim_space
    uback.Container.options_line uback.Base.equal uback.Base.insert uback.Options.get
    uback.Base.lookup uback.Container.write_container uback.Container.header
cmd_extract-cmd_create_example =
    cmd_extract-cmd_create pipe plain_codec packages 0 (codes "age" ∷ []) (codes "key" ∷ [])
      (plain_codec-Reverses _ _) sealed_options key_texts key_texts [] (codes "age") []
      (codes "key") (codes "tar") (codes "data") sealed [] [] (codes "data") sealed refl refl refl
      refl refl refl refl refl refl refl refl
