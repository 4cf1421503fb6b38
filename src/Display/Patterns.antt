-- ===== src/Display/Patterns.antt =====
-- The regular expressions of utils/libfuzzer_ui.py, as the pieces that they are made of. In each of
-- them the character after a run is of another class than the run, so that a run never gives back
-- what it took, and a piece is matched once. Classes are taken as in ASCII.
use apatchy.Base.{
  ℕ, zero, suc, String, ◌<>◌, Bool, not, ◌&&◌, ◌||◌, Option, none, some, List, [], ◌∷◌,
  if◌then◌else◌, eqb, leb, ◌==◌, string_eq, ◌>>=◌,
}
use apatchy.Base.Text.{is_space}
use apatchy.Build.Version.{is_digit, remove_prefix}
use Prim.Native.Char.{Char, code}

pub data CharClass : Type 0 where
  digit_char word_char other_char : CharClass

-- `\d`, `\w` and `\S`
abbrev pub is_in : CharClass → Char → Bool
is_in digit_char c = is_digit c
is_in word_char c =
    is_digit c
    || (leb 65 (code c) && leb (code c) 90)
    || (leb 97 (code c) && leb (code c) 122)
    || eqb (code c) 95
is_in other_char c = not (is_space c)

-- A text; `\s*`; `\s+`; `\d+`; a group that is a run of a class and a text behind it; a group that is
-- the rest of the line.
pub data Piece : Type 0 where
  literal : String → Piece
  spaces some_spaces some_digits : Piece
  group : CharClass → String → Piece
  remainder : Piece

-- The longest run at the start of a text, and what follows it.
abbrev pub span_class : (Char → Bool) → String → String × String
span_class p String.[] = ("", "")
span_class p (String.◌∷◌ c s) =
    let rest = span_class p s in if p c then (String.◌∷◌ c rest.0, rest.1) else ("", String.◌∷◌ c s)

-- A run of at least one character.
abbrev pub run_of : (Char → Bool) → String → Option (String × String)
run_of p s = let found = span_class p s in if found.0 == "" then none else some found

-- `pattern.match(line)`: the groups.
unfoldable pub match_pieces : List Piece → String → Option (List String)
match_pieces [] s = some []
match_pieces (literal t ∷ ps) s = remove_prefix t s >>= match_pieces ps
match_pieces (spaces ∷ ps) s = match_pieces ps (span_class is_space s).1
match_pieces (some_spaces ∷ ps) s = run_of is_space s >>= λ found. match_pieces ps found.1
match_pieces (some_digits ∷ ps) s = run_of is_digit s >>= λ found. match_pieces ps found.1
match_pieces (group k t ∷ ps) s = run_of (is_in k) s >>= λ found.
    remove_prefix t found.1 >>= λ rest.
    match_pieces ps rest >>= λ groups. some ((found.0 <> t) ∷ groups)
match_pieces (remainder ∷ ps) s = match_pieces ps "" >>= λ groups. some (s ∷ groups)

-- `pattern.search(line)`: the groups at the first place where it matches.
unfoldable pub search_pieces : List Piece → String → Option (List String)
search_pieces ps String.[] = match_pieces ps ""
search_pieces ps (String.◌∷◌ c s) = elim (match_pieces ps (String.◌∷◌ c s)) [
  | some groups ↦ some groups
  | none ↦ search_pieces ps s
]

-- What stands behind the first and the last place of a text in another.
unfoldable pub after_first : String → String → Option String
after_first t String.[] = remove_prefix t ""
after_first t (String.◌∷◌ c s) = elim (remove_prefix t (String.◌∷◌ c s)) [
  | some rest ↦ some rest
  | none ↦ after_first t s
]

unfoldable pub after_last : String → String → Option String
after_last t String.[] = remove_prefix t ""
after_last t (String.◌∷◌ c s) = elim (after_last t s) [
  | some rest ↦ some rest
  | none ↦ remove_prefix t (String.◌∷◌ c s)
]

abbrev pub number_group : Piece
number_group = group digit_char ""

-- `_STATUS_RE`
abbrev pub status_re : List Piece
status_re =
    literal "#"
    ∷ number_group
    ∷ some_spaces
    ∷ group word_char ""
    ∷ some_spaces
    ∷ literal "cov:"
    ∷ spaces
    ∷ number_group
    ∷ some_spaces
    ∷ literal "ft:"
    ∷ spaces
    ∷ number_group
    ∷ some_spaces
    ∷ literal "corp:"
    ∷ spaces
    ∷ number_group
    ∷ literal "/"
    ∷ group other_char ""
    ∷ some_spaces
    ∷ literal "lim:"
    ∷ spaces
    ∷ number_group
    ∷ some_spaces
    ∷ literal "exec/s:"
    ∷ spaces
    ∷ number_group
    ∷ some_spaces
    ∷ literal "rss:"
    ∷ spaces
    ∷ group digit_char "Mb"
    ∷ some_spaces
    ∷ literal "L:"
    ∷ spaces
    ∷ group other_char ""
    ∷ some_spaces
    ∷ literal "MS:"
    ∷ spaces
    ∷ some_digits
    ∷ some_spaces
    ∷ remainder
    ∷ []

-- `_FORK_RE`
abbrev pub fork_re : List Piece
fork_re =
    literal "#"
    ∷ number_group
    ∷ literal ":"
    ∷ some_spaces
    ∷ literal "cov:"
    ∷ spaces
    ∷ number_group
    ∷ some_spaces
    ∷ literal "ft:"
    ∷ spaces
    ∷ number_group
    ∷ some_spaces
    ∷ literal "corp:"
    ∷ spaces
    ∷ number_group
    ∷ some_spaces
    ∷ literal "exec/s:"
    ∷ spaces
    ∷ number_group
    ∷ some_spaces
    ∷ literal "oom/timeout/crash:"
    ∷ spaces
    ∷ number_group
    ∷ literal "/"
    ∷ number_group
    ∷ literal "/"
    ∷ number_group
    ∷ some_spaces
    ∷ literal "time:"
    ∷ spaces
    ∷ number_group
    ∷ literal "s"
    ∷ some_spaces
    ∷ literal "job:"
    ∷ spaces
    ∷ number_group
    ∷ []

-- `_NEW_FUNC_RE`: the shortest text between its two parts.
unfoldable pub search_new_func : String → Option (List String)
search_new_func line =
    after_first "NEW_FUNC" line
    >>= search_pieces
        (literal " in " ∷ group other_char "" ∷ some_spaces ∷ group other_char "" ∷ [])

-- How many characters of an escape sequence follow its first one: `\[[0-9;]*[A-Za-z]`.
abbrev pub is_letter : Char → Bool
is_letter c = (leb 65 (code c) && leb (code c) 90) || (leb 97 (code c) && leb (code c) 122)

abbrev pub letter_after : ℕ → String → Option ℕ
letter_after n String.[] = none
letter_after n (String.◌∷◌ c s) =
    let rest = letter_after (suc n) s in
    if is_letter c then some (suc n) else if is_digit c || eqb (code c) 59 then rest else none

abbrev pub escape_size : String → Option ℕ
escape_size String.[] = none
escape_size (String.◌∷◌ c s) = if eqb (code c) 91 then letter_after 1 s else none

abbrev pub starts_escape : Char → String → Option ℕ
starts_escape c s = if eqb (code c) 27 then escape_size s else none

-- Without escape sequences, after so many characters of one are skipped.
abbrev pub sub_ansi : ℕ → String → String
sub_ansi n String.[] = ""
sub_ansi (suc n) (String.◌∷◌ c s) = sub_ansi n s
sub_ansi zero (String.◌∷◌ c s) = elim (starts_escape c s) [
  | none ↦ String.◌∷◌ c (sub_ansi 0 s)
  | some n ↦ sub_ansi n s
]

-- `_ANSI_RE.sub("", line)`
unfoldable pub strip_ansi : String → String
strip_ansi s = sub_ansi 0 s
