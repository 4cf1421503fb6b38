-- ===== src/Harness/Tags.antt =====
-- core/harness.py: the tags in the comment of a harness, and the variables of config_vars.mk.
use apatchy.Base.{
  ℕ, zero, suc, String, Bool, true, false, ◌&&◌, ◌||◌, Option, none, some, List, [], ◌∷◌,
  if◌then◌else◌, eqb, leb, ◌==◌, string_eq, map,
}
use apatchy.Base.Dict.{Dict, insert}
use apatchy.Base.Text.{size, starts_with, split_on, strip, is_space}
use Prim.Native.Char.{Char, code}

abbrev after : ℕ → String → String
after zero s = s
after (suc n) String.[] = ""
after (suc n) (String.◌∷◌ c s) = after n s

abbrev not_empty : String → Bool
not_empty String.[] = false
not_empty (String.◌∷◌ c s) = true

-- `re.search(tag + r"\s*(.+)", line)` on a line without its end: group 1 up to white space around it.
unfoldable pub search_tag : String → String → Option String
search_tag tag String.[] = none
search_tag tag (String.◌∷◌ c s) =
    let rest = search_tag tag s in
    let value = after (size tag) (String.◌∷◌ c s) in
    if starts_with (String.◌∷◌ c s) tag && not_empty value then some (strip value) else rest

pub record Tags : Type 0 where
  pub protos : Option (List String)
  pub converters : Option (List String)
  pub ldflags : Option String
  pub extras : Option (List String)

-- `[s.strip() for s in group.split(",")]`
abbrev pub comma_list : String → List String
comma_list value = map strip (split_on 44 value)

abbrev pub tag_list : String → String → Option (List String) → Option (List String)
tag_list tag line old = elim (search_tag tag line) [ none ↦ old | some v ↦ some (comma_list v) ]

abbrev pub tag_text : String → String → Option String → Option String
tag_text tag line old = elim (search_tag tag line) [ none ↦ old | some v ↦ some v ]

abbrev pub read_line : String → Tags → Tags
read_line line t = record {
  protos = tag_list "@protos:" line t.protos;
  converters = tag_list "@converters:" line t.converters;
  ldflags = tag_text "@ldflags:" line t.ldflags;
  extras = tag_list "@extras:" line t.extras;
}

-- The loop over the lines, which ends at the end of the comment.
unfoldable pub read_lines : List String → Tags → Tags
read_lines [] t = t
read_lines (line ∷ lines) t =
    let rest = read_lines lines (read_line line t) in if strip line == "*/" then t else rest

-- With the text of the file; `none` is an `OSError`.
unfoldable pub parse_harness_tags : Option String → Tags
parse_harness_tags none = record { protos = none; converters = none; ldflags = none; extras = none }
parse_harness_tags (some text) =
    read_lines (split_on 10 text)
      (record { protos = none; converters = none; ldflags = none; extras = none })

-- The ASCII part of `\w`.
abbrev pub is_word : Char → Bool
is_word c =
    let n = code c in
    (leb 48 n && leb n 57) || (leb 65 n && leb n 90) || eqb n 95 || (leb 97 n && leb n 122)

-- What follows `\s*=` at the start of a text.
abbrev pub after_equals : String → Option String
after_equals String.[] = none
after_equals (String.◌∷◌ c s) =
    let rest = after_equals s in
    if eqb (code c) 61 then some s else if is_space c then rest else none

abbrev with_char : Char → Option (String × String) → Option (String × String)
with_char c none = none
with_char c (some (key, value)) = some (String.◌∷◌ c key, value)

-- `(\w*)\s*=\s*(.*)`, with the value stripped
abbrev pub assignment_from : String → Option (String × String)
assignment_from String.[] = none
assignment_from (String.◌∷◌ c s) =
    let rest = assignment_from s in
    if is_word c
    then with_char c rest
    else elim (after_equals (String.◌∷◌ c s)) [ none ↦ none | some v ↦ some ("", strip v) ]

-- `^(\w+)\s*=\s*(.*)`: the name has a character.
unfoldable pub assignment : String → Option (String × String)
assignment line = elim (assignment_from line) [
  | none ↦ none
  | some (key, value) ↦ if key == "" then none else some (key, value)
]

unfoldable pub parse_lines : List String → Dict String String → Dict String String
parse_lines [] d = d
parse_lines (line ∷ lines) d = elim (assignment line) [
  | none ↦ parse_lines lines d
  | some (key, value) ↦ parse_lines lines (insert key value d)
]

-- With the text of config_vars.mk, if there is one.
unfoldable pub parse_config_vars : Option String → Dict String String
parse_config_vars none = []
parse_config_vars (some text) = parse_lines (split_on 10 text) []
