-- ===== src/Sources/MariaBackup/Version.antt =====
-- sources/mariabackup.go: the regular expressions that find a version.
use uback.Base.{
  ℕ, ◌==◌, Bool, ◌&&◌, ◌||◌, leb, Option, none, some, [], ◌∷◌, ◌++◌, Bytes, codes, if◌then◌else◌,
}
use uback.Base.Matcher.{Matcher, ◌>>=◌, ◌>>◌, pure, literal}

abbrev is_digit : ℕ → Bool
is_digit c = leb b'0' c && leb c b'9'

-- `\s` of package regexp.
abbrev is_blank : ℕ → Bool
is_blank c = c == 32 || c == 9 || c == 10 || c == 12 || c == 13

abbrev pub onto_word : ℕ → Bytes × Bytes → Bytes × Bytes
onto_word c (word, rest) = (c ∷ word, rest)

-- The longest run of digits and what follows it.
unfoldable pub span_digits : Bytes → Bytes × Bytes
span_digits [] = ([], [])
span_digits (c ∷ s) =
    let longer = onto_word c (span_digits s) in if is_digit c then longer else ([], c ∷ s)

unfoldable pub skip_blanks : Matcher (Unit {0})
skip_blanks [] = some (tt, [])
skip_blanks (c ∷ s) = let rest = skip_blanks s in if is_blank c then rest else some (tt, c ∷ s)

abbrev some_digits : Bytes × Bytes → Option (Bytes × Bytes)
some_digits ([], rest) = none
some_digits (c ∷ word, rest) = some (c ∷ word, rest)

-- `\d+`
unfoldable pub digits : Matcher Bytes
unfolding span_digits
digits s = some_digits (span_digits s)

-- `\d+\.\d+\.\d+`
unfoldable pub version : Matcher Bytes
unfolding digits
version = digits >>= λ a.
    literal (codes ".")
    >> (digits >>= λ b.
        literal (codes ".") >> (digits >>= λ c. pure (a ++ (codes "." ++ (b ++ (codes "." ++ c))))))

-- The line of the version, from its first byte on.
unfoldable pub server_version : Matcher Bytes
unfolding skip_blanks version
server_version =
    literal (codes "server_version")
    >> (skip_blanks >> (literal (codes "=") >> (skip_blanks >> version)))

abbrev or_later : Option (Bytes × Bytes) → Option Bytes → Option Bytes
or_later none later = later
or_later (some (word, rest)) later = some word

-- `Find` gives the first match, and nothing where there is none.
unfoldable pub find_version : Bytes → Option Bytes
unfolding version
find_version [] = none
find_version (c ∷ s) = let later = find_version s in or_later (version (c ∷ s)) later

-- The first match of `^server_version…`, which is looked for at the beginning of each line.
unfoldable pub find_server_version : Bool → Bytes → Option Bytes
unfolding server_version
find_server_version begins [] = none
find_server_version begins (c ∷ s) =
    let later = find_server_version (c == 10) s in
    if begins then or_later (server_version (c ∷ s)) later else later
