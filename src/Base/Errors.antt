-- ===== src/Base/Errors.antt =====
-- A Go result with its error. The errors of the program's own are named; `external` stands for one
-- that a library, a command or the operating system returned.
use Prim.Native.Nat.{ℕ}
use mathlib.Core.Path.{◌≡◌, refl}
use mathlib.Core.Logic.{◌⊎◌, inl, inr}

pub data Error : Type 0 where
  empty_interval invalid_number invalid_item invalid_option invalid_time : Error
  unparsable_filename missing_extension invalid_boolean : Error
  missing_backup broken_chain endless_chain endless_presets endless_proxies : Error
  missing_option missing_path both_keys invalid_type : Error
  invalid_magic_header invalid_header_hash unexpected_eof : Error
  expected_plaintext expected_encrypted : Error
  exclusive_options unknown_version version_changed no_restoration panic : Error
  external : ℕ → Error

pub data Result {ℓ} (A : Type ℓ) : Type ℓ where
  err : Error → Result A
  ok : A → Result A

pub Result-cases {ℓ} :
    {A : Type ℓ} (r : Result A) → ((a : A) × (r ≡ ok a)) ⊎ ((e : Error) × (r ≡ err e))
Result-cases (ok a) = inl (a, refl)
Result-cases (err e) = inr (e, refl)

-- An early return of the error.
infixl 5 ◌>>=◌
abbrev pub ◌>>=◌ {ℓ κ} : {T : Type ℓ} {U : Type κ} → Result T → (T → Result U) → Result U
err e >>= next = err e
ok t >>= next = next t

pub bind-eq-ok {ℓ κ} :
    {T : Type ℓ} {U : Type κ} (r : Result T) (next : T → Result U) {u : U}
    → (r >>= next) ≡ ok u
    → (t : T) × (r ≡ ok t) × (next t ≡ ok u)
bind-eq-ok (err e) next h = cc
bind-eq-ok (ok t) next h = (t, refl, h)
