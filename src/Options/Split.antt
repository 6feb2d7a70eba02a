-- ===== src/Options/Split.antt =====
-- `splitOptionsRe` of lib/options.go, a comma behind pairs of backslashes behind another character or the
-- start, with the texts between its matches. A comma that a match ends with cannot be the other
-- character of the next one.
use uback.Base.{◌==◌, Bool, true, false, not, ◌&&◌, List, [], ◌∷◌, Bytes, if◌then◌else◌}

-- Whether pairs of backslashes and a comma come first, with the parity of the backslashes read.
unfoldable pub leads_to_comma : Bool → Bytes → Bool
leads_to_comma even [] = false
leads_to_comma even (c ∷ s) =
    let rest = leads_to_comma (not even) s in if c == b'\\' then rest else c == b',' && even

-- The first text and the others. `anchored` says that a character which is no backslash was read
-- behind the last match, and `even` the parity of the backslashes read behind it.
unfoldable pub scan : Bool → Bool → Bytes → Bytes × List Bytes
scan anchored even [] = ([], [])
scan anchored even (c ∷ s) =
    let hit = c == b',' && anchored && even in
    let escape = c == b'\\' in
    let rest = scan (if escape then anchored else not hit) (if escape then not even else true) s in
    if hit then ([], rest.0 ∷ rest.1) else (c ∷ rest.0, rest.1)

-- At the start of the text a first comma is the other character, if it can be, and a match if not.
unfoldable pub scan_start : Bytes → Bytes × List Bytes
unfolding scan leads_to_comma
scan_start [] = ([], [])
scan_start (c ∷ s) =
    let rest = scan (not (c == b',' && not (leads_to_comma true s))) true s in
    if c == b','
    then (if leads_to_comma true s then (c ∷ rest.0, rest.1) else ([], rest.0 ∷ rest.1))
    else scan true true (c ∷ s)

unfoldable pub split_texts : Bytes → List Bytes
unfolding scan_start
split_texts s = let texts = scan_start s in texts.0 ∷ texts.1
