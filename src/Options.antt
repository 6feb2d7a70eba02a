-- ===== src/Options.antt =====
-- lib/options.go: how the options of a command line are split, evaluated and read.
pub mod Keys
pub mod Split
pub mod Reads
use uback.Base.{
  ℕ, zero, suc, ◌==◌, Bool, true, false, not, ◌&&◌, ◌||◌, Option, none, some, List, [], ◌∷◌, ◌++◌,
  Bytes, codes, Dict, lookup, insert, equal, is_empty, split_once, if◌then◌else◌, Result, ok, err,
  Error, ◌>>=◌,
}
use uback.Retention.{RetentionPolicy}
use uback.Retention.Policy.{parse_retention_policy}
use uback.Options.Split.{split_texts}

abbrev pub KeyValuePair : Type 0
KeyValuePair = Bytes × Bytes

-- The maps `String` and `StrSlice`.
pub record Options : Type 0 where
  pub strings : Dict Bytes
  pub slices : Dict (List Bytes)

-- The packages that the file calls: `flect.Pascalize`, `template` with its functions (a failure is
-- logged), `shlex.Split`, and `strings.ToLower`.
pub record Packages : Type 0 where
  pub pascalize : Bytes → Bytes
  pub render : Bytes → Bytes → Options → Option Bytes
  pub split_shell : Bytes → Option (List Bytes)
  pub to_lower : Bytes → Bytes

abbrev pub empty_options : Options
empty_options = record { strings = []; slices = [] }

-- `String[k]`, empty where the key is missing.
unfoldable pub get : Bytes → Options → Bytes
get k o = elim (lookup k o.strings) [ none ↦ [] | some v ↦ v ]

unfoldable pub get_string : Options → Bytes → Bytes → Bytes
get_string o key default = elim (lookup key o.strings) [ none ↦ default | some v ↦ v ]

abbrev shell_words : Option (List Bytes) → List Bytes → List Bytes
shell_words none default = default
shell_words (some words) default = words

unfoldable pub get_command : Packages → Options → Bytes → List Bytes → List Bytes
get_command P o key default = elim (lookup key o.slices) [
  | some words ↦ words
  | none ↦ elim (lookup key o.strings) [
    | none ↦ default
    | some s ↦ shell_words (P.split_shell s) default
  ]
]

unfoldable pub parse_boolean : Bytes → Result Bool
parse_boolean s =
    if equal s (codes "1") || equal s (codes "true") || equal s (codes "yes")
    then ok true
    else if equal s (codes "0") || equal s (codes "false") || equal s (codes "no")
    then ok false
    else err Error.invalid_boolean

unfoldable pub get_boolean : Packages → Options → Bytes → Bool → Result Bool
unfolding parse_boolean
get_boolean P o key default = elim (lookup key o.strings) [
  | none ↦ ok default
  | some s ↦ parse_boolean (P.to_lower s)
]

unfoldable pub parse_policies : List Bytes → Result (List RetentionPolicy)
parse_policies [] = ok []
parse_policies (p ∷ ps) =
    parse_retention_policy p >>= λ policy. parse_policies ps >>= λ policies. ok (policy ∷ policies)

unfoldable pub get_slice : Bytes → Options → List Bytes
get_slice k o = elim (lookup k o.slices) [ none ↦ [] | some l ↦ l ]

unfoldable pub get_retention_policies : Options → Result (List RetentionPolicy)
unfolding parse_policies get_slice
get_retention_policies o = parse_policies (get_slice (codes "RetentionPolicy") o)

-- `strings.ReplaceAll` of two bytes by one.
unfoldable pub replace_pair : ℕ → ℕ → ℕ → Bytes → Bytes
replace_pair a b c [] = []
replace_pair a b c (x ∷ []) = x ∷ []
replace_pair a b c (x ∷ y ∷ s) = elim (x == a && y == b) [
  | true ↦ c ∷ replace_pair a b c s
  | false ↦ x ∷ replace_pair a b c (y ∷ s)
]

unfoldable pub unescape : Bytes → Bytes
unfolding replace_pair
unescape s = replace_pair b'\\' b'\\' b'\\' (replace_pair b'\\' b',' b',' s)

-- The key behind its `@`.
unfoldable pub pascalize_key : Packages → Bytes → Bytes
pascalize_key P [] = P.pascalize []
pascalize_key P (c ∷ k) = if c == b'@' then c ∷ P.pascalize k else P.pascalize (c ∷ k)

abbrev or_true : Option Bytes → Bytes
or_true none = codes "true"
or_true (some v) = v

unfoldable pub parse_option : Packages → Bytes → KeyValuePair
unfolding pascalize_key unescape
parse_option P option =
    let (k, v) = split_once b'=' (unescape option) in (pascalize_key P k, or_true v)

-- An option with no key is dropped.
unfoldable pub keep_keyed : Packages → List Bytes → List KeyValuePair
keep_keyed P [] = []
keep_keyed P (t ∷ ts) =
    let rest = keep_keyed P ts in
    if is_empty (parse_option P t).0 then rest else parse_option P t ∷ rest

unfoldable pub split_options : Packages → Bytes → List KeyValuePair
unfolding keep_keyed parse_option
split_options P options = keep_keyed P (split_texts options)

-- A value that cannot be evaluated stays as it is.
unfoldable pub render_or_keep : Packages → Bytes → Bytes → Options → Bytes
render_or_keep P k v o = elim (P.render k v o) [ none ↦ v | some w ↦ w ]

-- An option that is not a preset.
unfoldable pub put : Bytes → Bytes → Options → Options
unfolding get_slice
put [] v o = record o { strings = insert [] v o.strings }
put (c ∷ k) v o =
    if c == b'@'
    then record o { slices = insert k (get_slice k o ++ v ∷ []) o.slices }
    else record o { strings = insert (c ∷ k) v o.strings }

-- The loop, with what a preset does.
unfoldable pub eval_list :
    Packages → (Bytes → Options → Result Options) → Options → List KeyValuePair → Result Options
unfolding put render_or_keep
eval_list P preset o [] = ok o
eval_list P preset o ((k, v) ∷ kvs) =
    let w = render_or_keep P k v o in
    (if equal k (codes "Preset") then preset w o else ok (put k w o)) >>= λ o.
    eval_list P preset o kvs

-- A preset that is not found is logged. The fuel bounds how deep presets name each other.
unfoldable pub eval_options_onto :
    Packages → Dict (List KeyValuePair) → ℕ → Options → List KeyValuePair → Result Options
unfolding eval_list
eval_options_onto P presets zero =
    eval_list P
      λ v o. elim (lookup v presets) [ none ↦ ok o | some kvs ↦ err Error.endless_presets ]
eval_options_onto P presets (suc fuel) = eval_list P λ v o. elim (lookup v presets) [
  | none ↦ ok o
  | some kvs ↦ eval_options_onto P presets fuel o kvs
]

unfoldable pub eval_options :
    Packages → ℕ → List KeyValuePair → Dict (List KeyValuePair) → Result Options
unfolding eval_options_onto
eval_options P fuel kvs presets = eval_options_onto P presets fuel empty_options kvs
