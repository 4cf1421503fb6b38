-- ===== src/BuildTree/Text.antt =====
-- What utils/build_tree.py does to the text of a build file: `str.replace`, and its `re.sub` calls
-- with `re.MULTILINE`. A replacement is taken as it stands: it has no backslash and no digit first.
use apatchy.Base.{
  ℕ, zero, suc, ◌+◌, ◌-◌, String, ◌<>◌, Bool, true, false, Option, none, some, if◌then◌else◌, eqb,
}
use apatchy.Base.Text.{size, starts_with, is_space}
use Prim.Native.Char.{code}

-- The text without its first characters.
abbrev after : ℕ → String → String
after zero s = s
after (suc n) String.[] = ""
after (suc n) (String.◌∷◌ c s) = after n s

-- With the number of characters that are still to be skipped.
abbrev replace_from : String → String → ℕ → String → String
replace_from old new skip String.[] = ""
replace_from old new (suc skip) (String.◌∷◌ c s) = replace_from old new skip s
replace_from old new zero (String.◌∷◌ c s) =
    let found = replace_from old new (size old - 1) s in
    let rest = replace_from old new 0 s in
    if starts_with (String.◌∷◌ c s) old then new <> found else String.◌∷◌ c rest

-- `text.replace(old, new)` for an `old` that is not empty
unfoldable pub replace : String → String → String → String
replace old new text = replace_from old new 0 text

-- `\s*` and `.*`: how many characters each takes.
abbrev count_spaces : String → ℕ
count_spaces String.[] = 0
count_spaces (String.◌∷◌ c s) = let rest = count_spaces s in if is_space c then suc rest else 0

abbrev count_line : String → ℕ
count_line String.[] = 0
count_line (String.◌∷◌ c s) = let rest = count_line s in if eqb (code c) 10 then 0 else suc rest

abbrev starts_with_equals : String → Bool
starts_with_equals s = starts_with s "="

-- `(key\s*=)` at the start of a text: the number of characters, if it matches.
unfoldable match_key : String → String → Option ℕ
match_key key s =
    let spaces = count_spaces (after (size key) s) in
    let n = size key + spaces in
    if starts_with s key
    then (if starts_with_equals (after n s) then some (suc n) else none)
    else none

-- The kept part of a match and all of it, by their sizes.
abbrev pub Found : Type 0
Found = Option (ℕ × ℕ)

-- `^(key\s*=\s*).*$`
unfoldable match_assign : String → String → Found
unfolding match_key
match_assign key s = elim (match_key key s) [
  | none ↦ none
  | some n ↦
      let kept = n + count_spaces (after n s) in some (kept, kept + count_line (after kept s))
]

-- `^(key\s*=).*$`
unfoldable match_cflags : String → String → Found
unfolding match_key
match_cflags key s = elim (match_key key s) [
  | none ↦ none
  | some n ↦ some (n, n + count_line (after n s))
]

-- The number of characters up to and with the last quote of the line, if it has one.
abbrev last_quote : String → Option ℕ
last_quote String.[] = none
last_quote (String.◌∷◌ c s) =
    let rest = last_quote s in
    if eqb (code c) 10
    then none
    else elim rest [ some n ↦ some (suc n) | none ↦ if eqb (code c) 34 then some 1 else none ]

-- `^(key)".*"`
unfoldable match_quoted : String → String → Found
match_quoted key s =
    if starts_with s (key <> "\"")
    then elim (last_quote (after (size key + 1) s)) [
      | none ↦ none
      | some n ↦ some (size key, size key + 1 + n)
    ]
    else none

abbrev first : ℕ → String → String
first zero s = ""
first (suc n) String.[] = ""
first (suc n) (String.◌∷◌ c s) = String.◌∷◌ c (first n s)

-- `re.sub` with one of the patterns, from a place that starts a line or not, past some characters.
abbrev pub sub_from : (String → Found) → String → Bool → ℕ → String → String
sub_from find value start skip String.[] = ""
sub_from find value start (suc skip) (String.◌∷◌ c s) = sub_from find value (eqb (code c) 10) skip s
sub_from find value true zero (String.◌∷◌ c s) = elim (find (String.◌∷◌ c s)) [
  | none ↦ String.◌∷◌ c (sub_from find value (eqb (code c) 10) 0 s)
  | some (kept, all) ↦
      first kept (String.◌∷◌ c s) <> (value <> sub_from find value false (all - 1) s)
]
sub_from find value false zero (String.◌∷◌ c s) =
    String.◌∷◌ c (sub_from find value (eqb (code c) 10) 0 s)

unfoldable pub sub_assign : String → String → String → String
unfolding match_assign
sub_assign key value text = sub_from (match_assign key) value true 0 text

unfoldable pub sub_cflags : String → String → String → String
unfolding match_cflags
sub_cflags key value text = sub_from (match_cflags key) value true 0 text

unfoldable pub sub_quoted : String → String → String → String
unfolding match_quoted
sub_quoted key value text = sub_from (match_quoted key) ("\"" <> (value <> "\"")) true 0 text
