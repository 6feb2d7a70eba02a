-- ===== src/Tools/KeyPairs.antt =====
-- cmd/keygen.go over package age.
use uback.Base.{Option, none, some, List, [], ◌∷◌, ◌++◌, Bytes, codes, Result, ok, err, Error}
use uback.Base.Commands.{Command, ◌>>=◌, ◌>>◌, pure, ask}
use uback.Restore.{read_all}
use uback.Tools.{Terminal}

-- `generate` draws on the system's randomness; `x25519` is the type assertion on a parsed identity.
pub record Age (State Identity X25519 : Type 0) : Type 0 where
  pub generate : Command State X25519
  pub identity_text : X25519 → Bytes
  pub recipient_text : X25519 → Bytes
  pub parse_identities : Bytes → Result (List Identity)
  pub x25519 : Identity → Option X25519

-- `fmt.Sprintf("%s\n", …)`
abbrev pub as_line : Bytes → Bytes
as_line text = text ++ codes "\n"

abbrev pub only :
    {Identity X25519 : Type 0} → (Identity → Option X25519) → List Identity → Result X25519
only x25519 [] = err Error.invalid_item
only x25519 (i ∷ []) = elim (x25519 i) [ none ↦ err Error.invalid_type | some k ↦ ok k ]
only x25519 (i ∷ j ∷ is) = err Error.invalid_item

module _ (T : Terminal) {Identity X25519 : Type 0} (A : Age T.State Identity X25519) where
  abbrev pub private_key : List Bytes → X25519 → Command T.State (Unit {0})
  private_key [] k = T.print (as_line (A.identity_text k))
  private_key (file ∷ files) k = T.write_file file (as_line (A.identity_text k))

  abbrev pub public_key_file : List Bytes → X25519 → Command T.State (Unit {0})
  public_key_file [] k = pure tt
  public_key_file (private ∷ []) k = pure tt
  public_key_file (private ∷ file ∷ files) k = T.write_file file (as_line (A.recipient_text k))

  -- `cmdKeyGen.Run`
  unfoldable pub cmd_key_gen : List Bytes → Command T.State (Unit {0})
  cmd_key_gen arguments = do k ← A.generate; private_key arguments k; public_key_file arguments k

  abbrev pub identities_data : List Bytes → T.State → Result Bytes
  identities_data [] w = read_all (T.standard_input w)
  identities_data (file ∷ files) w = T.read_file file w

  abbrev pub public_key : List Bytes → X25519 → Command T.State (Unit {0})
  public_key [] k = T.print (as_line (A.recipient_text k))
  public_key (private ∷ []) k = T.print (as_line (A.recipient_text k))
  public_key (private ∷ file ∷ files) k = T.write_file file (as_line (A.recipient_text k))

  -- `cmdKeyPub.Run`
  unfoldable pub cmd_key_pub : List Bytes → Command T.State (Unit {0})
  cmd_key_pub arguments = do
    bytes ← ask (identities_data arguments)
    identities ← ask (λ w. A.parse_identities bytes)
    k ← ask (λ w. only A.x25519 identities)
    public_key arguments k
