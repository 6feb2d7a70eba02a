-- ===== src/Tools/Presets.antt =====
-- cmd/preset.go. `marshal` and `unmarshal` are those of package json for lists of options, `show` is the
-- format %v of these.
use uback.Base.{
  ℕ, Bool, List, [], ◌∷◌, ◌++◌, Bytes, codes, Dict, if◌then◌else◌, Result, ok, err, Error,
}
use uback.Base.Commands.{Command, ◌>>=◌, ◌>>◌, pure, ask}
use uback.Options.{KeyValuePair, Packages, split_options, eval_options}
use uback.Tools.{Terminal}

module _ (T : Terminal) (is_missing : Error → Bool) (P : Packages) (join : Bytes → Bytes → Bytes)
    (directory : Bytes) where
  abbrev pub preset_path : Bytes → Bytes
  preset_path name = join directory (name ++ codes ".json")

  -- The options of the other arguments, each of which may hold several.
  unfoldable pub split_arguments : List Bytes → List KeyValuePair
  split_arguments [] = []
  split_arguments (text ∷ texts) = split_options P text ++ split_arguments texts

  abbrev pub old_options :
      (Bytes → Result (List KeyValuePair)) → Result Bytes → Result (List KeyValuePair)
  old_options unmarshal (ok bytes) = unmarshal bytes
  old_options unmarshal (err e) = if is_missing e then ok [] else err e

  -- `cmdPresetSet.Run`
  unfoldable pub cmd_preset_set :
      (List KeyValuePair → Result Bytes)
      → (Bytes → Result (List KeyValuePair))
      → Bool
      → Bytes
      → List Bytes
      → Command T.State (Unit {0})
  unfolding split_arguments
  cmd_preset_set marshal unmarshal clear name arguments = do
    T.make_directories directory
    old ←
        (if clear
          then pure []
          else ask (λ w. old_options unmarshal (T.read_file (preset_path name) w)))
    bytes ← ask (λ w. marshal (old ++ split_arguments arguments))
    T.write_file (preset_path name) bytes

  -- `cmdPresetRemove.Run`: an error is logged at most.
  unfoldable pub cmd_preset_remove : List Bytes → T.State → T.State
  cmd_preset_remove [] w = w
  cmd_preset_remove (name ∷ names) w = cmd_preset_remove names (T.remove (preset_path name) w).0

  abbrev pub preset_line : (List KeyValuePair → Bytes) → Bool → Bytes × List KeyValuePair → Bytes
  preset_line show verbose (name, options) =
      if verbose then name ++ (codes " " ++ (show options ++ codes "\n")) else name ++ codes "\n"

  -- `cmdPresetList.Run`, in the order in which the map is ranged over.
  unfoldable pub cmd_preset_list :
      (List KeyValuePair → Bytes) → Bool → Dict (List KeyValuePair) → Command T.State (Unit {0})
  cmd_preset_list show verbose [] = pure tt
  cmd_preset_list show verbose (p ∷ ps) =
      T.print (preset_line show verbose p) >> cmd_preset_list show verbose ps

  unfoldable pub print_strings : Dict Bytes → Command T.State (Unit {0})
  print_strings [] = pure tt
  print_strings ((k, v) ∷ m) = T.print (k ++ (codes ": " ++ (v ++ codes "\n"))) >> print_strings m

  unfoldable pub print_slices :
      (List Bytes → Bytes) → Dict (List Bytes) → Command T.State (Unit {0})
  print_slices show [] = pure tt
  print_slices show ((k, v) ∷ m) =
      T.print (codes "@" ++ (k ++ (codes ": " ++ (show v ++ codes "\n")))) >> print_slices show m

  -- `cmdPresetEval.Run`. The fuel bounds how deep presets name each other.
  unfoldable pub cmd_preset_eval :
      (List Bytes → Bytes) → ℕ → Dict (List KeyValuePair) → Bytes → Command T.State (Unit {0})
  unfolding print_strings print_slices
  cmd_preset_eval show fuel presets line = do
    options ← ask (λ w. eval_options P fuel (split_options P line) presets)
    print_strings options.strings
    print_slices show options.slices
