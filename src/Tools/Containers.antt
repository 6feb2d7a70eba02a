-- ===== src/Tools/Containers.antt =====
-- cmd/container.go. A content that cannot be read to its end is an error before anything of it is written.
pub mod Output
pub mod Piping
use uback.Base.{
  ℕ, Bool, true, false, List, [], ◌∷◌, ◌++◌, Bytes, codes, is_empty, if◌then◌else◌, Result, ok, err,
  Error,
}
use uback.Base.Commands.{Command, ◌>>=◌, ◌>>◌, pure, ask}
use uback.Interfaces.{Stream}
use uback.Options.{Packages, get}
use uback.Options.Keys.{KeyFiles, load_identities, load_recipients}
use uback.Container.{Codec, new_reader, unseal, write_container}
use uback.Restore.{read_all}
use uback.Destinations.Receiving.{or_failure}
use uback.Tools.{Terminal}

-- The file of the first argument, or the standard input.
abbrev pub input_of : (T : Terminal) → List Bytes → T.State → Result Stream
input_of T [] w = ok (T.standard_input w)
input_of T (file ∷ files) w = T.open_file file w

-- The second argument is opened, but the variable that it is assigned to is that of the inner block: the
-- outer one stays nil. Without the argument it is the standard output.
abbrev pub opened_output : (T : Terminal) → List Bytes → Command T.State Bool
opened_output T [] = pure true
opened_output T (input ∷ []) = pure true
opened_output T (input ∷ output ∷ files) = T.create_file output >> pure false

module _ {Identity Recipient : Type 0} (T : Terminal) (Z : Codec Identity Recipient) (P : Packages)
    (fuel : ℕ) where
  -- `cmdContainerType.Run`
  unfoldable pub cmd_type : List Bytes → Command T.State (Unit {0})
  cmd_type arguments = do
    stream ← ask (input_of T arguments)
    r ← ask (λ w. or_failure stream.failure (new_reader Z P fuel stream.content))
    T.print (get (codes "Type") r.options ++ codes "\n")

  module _ (K : KeyFiles Identity Recipient) (file key : Bytes) where
    -- A write to the nil writer panics, and nothing is written of an empty content.
    abbrev pub copy_to : Bool → Stream → Command T.State (Unit {0})
    copy_to true stream = ask (λ w. read_all stream) >>= T.print
    copy_to false stream =
        if is_empty stream.content
        then (ask (λ w. read_all stream) >>= λ bytes. pure tt)
        else ask (λ w. err Error.panic)

    -- `cmdContainerExtract.Run`
    unfoldable pub cmd_extract : List Bytes → Command T.State (Unit {0})
    unfolding read_all
    cmd_extract arguments = do
      stream ← ask (input_of T arguments)
      writer ← opened_output T arguments
      r ← ask (λ w. or_failure stream.failure (new_reader Z P fuel stream.content))
      identities ← ask (λ w. load_identities K file key)
      content ← ask (λ w. or_failure stream.failure (unseal Z P identities r))
      copy_to writer (record { content = content; failure = stream.failure })

    abbrev pub behind_header : Bool → Command T.State (Unit {0})
    behind_header true = pure tt
    behind_header false = ask (λ w. err Error.panic)

    -- `cmdContainerCreate.Run`: the header is written first.
    unfoldable pub cmd_create : Bytes → List Bytes → Command T.State (Unit {0})
    unfolding read_all
    cmd_create typ arguments = do
      stream ← ask (input_of T arguments)
      writer ← opened_output T arguments
      recipients ← ask (λ w. load_recipients K file key)
      behind_header writer
      content ← ask (λ w. read_all stream)
      container ← ask (λ w. write_container Z P recipients typ content)
      T.print container
