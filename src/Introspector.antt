-- ===== src/Introspector.antt =====
-- framework/src/apatchy/managers/introspector_manager.py: the bitcode of the C sources. Which
-- compilations are taken, the command that each becomes, and which files are linked.
-- Parameters: the parts of a path (`pathlib`), and what `llvm-nm` prints.
pub mod Outputs
pub mod Commands
pub mod Linking
mod Tests
use apatchy.Base.{
  ℕ, zero, suc, ◌-◌, String, ◌<>◌, Bool, true, false, not, ◌&&◌, ◌||◌, Option, none, some, List, [],
  ◌∷◌, ◌++◌, if◌then◌else◌, leb, ◌==◌, contains, string_eq, ◌>>=◌, length, keep, any,
}
use apatchy.Base.Text.{starts_with, ends_with, split_on, split, lower, int, has_text}

-- The word after the first "version" that has one after it.
abbrev pub after_version : List String → Option String
after_version [] = none
after_version (word ∷ []) = none
after_version (word ∷ next ∷ words) =
    let rest = after_version (next ∷ words) in if word == "version" then some next else rest

-- `split(".")[0]`
abbrev pub first_part : List String → String
first_part [] = ""
first_part (part ∷ parts) = part

-- The loop over the lines. A word that is no number ends it, as the `ValueError` does.
unfoldable pub version_in : List String → Option ℕ
version_in [] = none
version_in (line ∷ lines) =
    let rest = version_in lines in
    if has_text "version" (lower line)
    then elim (after_version (split line)) [
      | none ↦ rest
      | some word ↦ int (first_part (split_on 46 word))
    ]
    else rest

-- With what `cc --version` prints; `none` where it cannot be run or takes too long.
unfoldable pub clang_major_version : Option String → Option ℕ
clang_major_version none = none
clang_major_version (some output) = version_in (split_on 10 output)

-- A path by its parts.
abbrev pub Parts : Type 0
Parts = List String

-- `src.relative_to(root)`; `none` is the `ValueError`.
abbrev pub relative_to : Parts → Parts → Option Parts
relative_to src [] = some src
relative_to [] (part ∷ root) = none
relative_to (p ∷ src) (part ∷ root) =
    let rest = relative_to src root in if p == part then rest else none

abbrev pub resolve_src_rel : Parts → List Parts → Option Parts
resolve_src_rel src [] = none
resolve_src_rel src (root ∷ roots) = elim (relative_to src root) [
  | none ↦ resolve_src_rel src roots
  | some rel ↦ some rel
]

-- An entry of compile_commands.json; a missing value is the default that the code gives it.
pub record Entry : Type 0 where
  pub file : String
  pub arguments : List String
  pub command : String
  pub directory : Option String

unfoldable pub is_excluded : String → Bool
is_excluded part =
    contains
      ("test" ∷ "tests" ∷ "support" ∷ "tools" ∷ "build" ∷ "examples" ∷ "benchmark" ∷ "win32" ∷ "os2"
        ∷ "netware" ∷ "beos" ∷ [])
      part

unfoldable pub is_excluded_file : String → Bool
is_excluded_file name =
    contains ("modules.bc" ∷ "gen_test_char.bc" ∷ "exports.bc" ∷ "main.bc" ∷ []) name

-- The tests on an entry, with the parts of a path's text.
abbrev pub is_taken : (String → Parts) → List Parts → Entry → Bool
is_taken parts roots e = ends_with e.file ".c" && elim (resolve_src_rel (parts e.file) roots) [
  | none ↦ false
  | some rel ↦ not (any is_excluded rel)
]

abbrev pub filter_entries : (String → Parts) → List Parts → List Entry → List Entry
filter_entries parts roots entries = keep (is_taken parts roots) entries

-- `list.insert(1, x)`
abbrev pub insert_second : String → List String → List String
insert_second x [] = x ∷ []
insert_second x (y ∷ ys) = y ∷ x ∷ ys

-- `-Xclang -load` with two more arguments after it
abbrev pub is_load : String → List String → Bool
is_load arg [] = false
is_load arg (next ∷ rest) = arg == "-Xclang" && (leb 2 (length rest) && next == "-load")

abbrev pub has_next : List String → Bool
has_next [] = false
has_next (next ∷ rest) = true

-- The loop over the arguments, with the number of those that are still to be skipped.
unfoldable pub copy_args : String → ℕ → List String → List String
copy_args output skip [] = []
copy_args output (suc skip) (arg ∷ args) = copy_args output skip args
copy_args output zero (arg ∷ args) =
    let after_output = copy_args output 1 args in
    let after_load = copy_args output 3 args in
    let rest = copy_args output 0 args in
    if arg == "-o" && has_next args
    then "-o" ∷ output ∷ after_output
    else if is_load arg args
    then after_load
    else if starts_with arg "-fsanitize="
    then rest
    else if arg == "-fno-experimental-new-pass-manager"
    then rest
    else arg ∷ rest

-- `if flag not in new_args: new_args.insert(1, flag)`
abbrev pub ensure_flag : String → List String → List String
ensure_flag flag args = if contains args flag then args else insert_second flag args

abbrev pub ensure_output : String → List String → List String
ensure_output output args = if contains args "-o" then args else args ++ ("-o" ∷ output ∷ [])

-- The arguments of an entry: the list, or the words of the command.
abbrev pub entry_args : Entry → List String
entry_args e = elim e.arguments [ [] ↦ split e.command | a ∷ args ↦ a ∷ args ]

-- The command for one entry; `none` for an entry without arguments, which is passed over.
unfoldable pub bitcode_command : String → String → List String → Option (List String)
bitcode_command cc output [] = none
bitcode_command cc output (arg ∷ args) = some (
    ensure_flag "-w"
      (ensure_flag "-emit-llvm" (ensure_output output (copy_args output 0 (cc ∷ args)))))

-- A third column of `llvm-nm` whose second column is T, D or B.
abbrev pub global_of : List String → List String
global_of (address ∷ kind ∷ name ∷ more) =
    if kind == "T" || (kind == "D" || kind == "B") then name ∷ [] else []
global_of words = []

unfoldable pub globals_in : List String → List String
globals_in [] = []
globals_in (line ∷ lines) = global_of (split line) ++ globals_in lines

-- The symbols of an output of `llvm-nm`; none of a file where it is missing, or fails.
abbrev pub globals_of : Option String → List String
globals_of none = []
globals_of (some output) = globals_in (split_on 10 output)

-- `for sym in symbols: if sym in seen_globals`
abbrev pub shares : List String → List String → Bool
shares symbols seen = any (contains seen) symbols

-- The loop over the candidates, with the keys of `seen_globals`: the files to link, and the others.
unfoldable pub select :
    (String → Option String) → List String → List String → List String × List String
select nm seen [] = ([], [])
select nm seen (file ∷ files) =
    let symbols = globals_of (nm file) in
    let kept = select nm (symbols ++ seen) files in
    let skipped = select nm seen files in
    if shares symbols seen then (skipped.0, file ∷ skipped.1) else (file ∷ kept.0, kept.1)

-- With the name of a path, and with what `llvm-nm` prints for it.
unfoldable pub link_targets :
    (String → String) → (String → Option String) → List String → List String × List String
link_targets name nm built = select nm [] (keep (λ file. not (is_excluded_file (name file))) built)
