-- ===== src/Modules.antt =====
-- framework/src/apatchy/managers/module_manager.py: `ModuleManager`, the external modules.
-- Parameters: the sources that are there, and those of `Toolchain`.
pub mod Words
mod Tests
use apatchy.Base.{
  String, ◌<>◌, Bool, true, false, not, ◌&&◌, ◌||◌, Option, none, some, List, [], ◌∷◌, ◌++◌, map,
  if◌then◌else◌, eqb, ◌==◌, string_eq, contains, or_default, any,
}
use Prim.Native.Char.{Char, code}
use apatchy.Base.Dict.{Dict, lookup, insert}
use apatchy.Base.Text.{starts_with, split, split_on, strip, join}
use apatchy.Toolchain
use apatchy.Build.{or_text}

-- `line.partition("=")` without its middle
unfoldable pub partition : String → String × String
partition String.[] = ("", "")
partition (String.◌∷◌ c s) =
    let rest = partition s in if eqb (code c) 61 then ("", s) else (String.◌∷◌ c rest.0, rest.1)

-- `token.startswith(("-fsanitize", "-fno-sanitize"))`
abbrev pub is_sanitizer_word : String → Bool
is_sanitizer_word word = starts_with word "-fsanitize" || starts_with word "-fno-sanitize"

abbrev pub is_flags_line : String → Bool
is_flags_line line = let key = strip (partition line).0 in key == "CFLAGS" || key == "LDFLAGS"

abbrev pub words_of : String → List String
words_of line = split (partition line).1

abbrev pub add_words : List String → List String → List String
add_words flags [] = flags
add_words flags (word ∷ words) =
    add_words
      (if is_sanitizer_word word && not (contains flags word) then flags ++ word ∷ [] else flags)
      words

abbrev pub add_lines : List String → List String → List String
add_lines flags [] = flags
add_lines flags (line ∷ lines) =
    add_lines (if is_flags_line line then add_words flags (words_of line) else flags) lines

-- `_get_sanitizer_flags`, with the text of config_vars.mk if there is one.
unfoldable pub get_sanitizer_flags : Option String → List String
get_sanitizer_flags none = []
get_sanitizer_flags (some text) = add_lines [] (split_on 10 text)

-- What the directory of external modules holds, in the order of the names: the stems of the .c files,
-- and the directories, each with whether it has a build.sh.
pub record Sources : Type 0 where
  pub files : List String
  pub dirs : Dict String Bool

pub data Target : Type 0 where
  source script : String → Target

abbrev pub has_script : Sources → String → Bool
has_script s name = or_default (lookup name s.dirs) false

abbrev pub has_dir : Sources → String → Bool
has_dir s name = elim (lookup name s.dirs) [ none ↦ false | some b ↦ true ]

-- The target of a name; `none` where no source is found.
unfoldable pub find_target : Sources → String → Option Target
find_target s name =
    let dir = if has_dir s name then name else "mod_" <> name in
    if contains s.files name
    then some (source name)
    else if contains s.files ("mod_" <> name)
    then some (source ("mod_" <> name))
    else if has_script s dir
    then some (script dir)
    else none

abbrev pub scripts : Dict String Bool → List Target
scripts [] = []
scripts ((name, has) ∷ dirs) = let rest = scripts dirs in if has then script name ∷ rest else rest

abbrev pub all_targets : Sources → List Target
all_targets s = map source s.files ++ scripts s.dirs

abbrev pub one_target : Option Target → List Target
one_target none = []
one_target (some t) = t ∷ []

-- What `build_module` builds, in this order.
unfoldable pub build_module : Sources → Option String → List Target
build_module s none = all_targets s
build_module s (some name) = if name == "" then all_targets s else one_target (find_target s name)

-- An Apache tree for modules: its path, its config_vars.mk, and the directories under modules/.
pub record HttpdTree : Type 0 where
  pub path : String
  pub config_vars : Option String
  pub module_dirs : List String

module _ (tools : Toolchain.Host) (cfg : Toolchain.Cfg) where
  abbrev pub resolve : String → Option String
  resolve name = Toolchain.resolve_tool tools cfg name none

  -- The compiler; an empty one is none.
  unfoldable pub compiler : Option String → Option String
  compiler none = or_text (or_text (resolve "clang") (resolve "gcc")) none
  compiler (some cc) = or_text (or_text (resolve cc) (some cc)) none

  abbrev pub include_args : HttpdTree → List String
  include_args t =
      ("-I" <> (t.path <> "/include"))
      ∷ ("-I" <> (t.path <> "/srclib/apr/include"))
      ∷ ("-I" <> (t.path <> "/srclib/apr-util/include"))
      ∷ ("-I" <> (t.path <> "/os/unix"))
      ∷ ("-I" <> (t.path <> "/server"))
      ∷ map (λ dir. "-I" <> dir) t.module_dirs

  abbrev pub source_command : HttpdTree → String → String → String → String → List String
  source_command t modules_out src name cc =
      cc
      ∷ "-fPIC"
      ∷ "-shared"
      ∷ "-g"
      ∷ "-O0"
      ∷ (get_sanitizer_flags t.config_vars
          ++ ("-o" ∷ (modules_out <> ("/" <> (name <> ".so"))) ∷ src ∷ include_args t))

  -- The command of `_build_one`, if there is a compiler.
  unfoldable pub build_one :
      HttpdTree → String → String → String → Option String → Option (List String)
  build_one t modules_out src name cc = elim (compiler cc) [
    | none ↦ none
    | some c ↦ some (source_command t modules_out src name c)
  ]

  -- The environment that `_build_directory` gives to build.sh, if there is a compiler.
  unfoldable pub build_directory :
      HttpdTree → String → String → Option String → Dict String String → Option (Dict String String)
  build_directory t modules_out module_dir cc environ = elim (compiler cc) [
    | none ↦ none
    | some c ↦ some (
        insert "MODULE_DIR" module_dir (
          insert "OUTPUT_DIR" modules_out (
            insert "SANITIZER_FLAGS" (join " " (get_sanitizer_flags t.config_vars))
              (insert "CC" c (insert "HTTPD_ROOT" t.path environ)))))
  ]
