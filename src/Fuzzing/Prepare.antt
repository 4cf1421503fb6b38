-- ===== src/Fuzzing/Prepare.antt =====
-- `BaseFuzzer.prepare_corpus` of fuzzers/base.py: the seeds that a session starts from.
use apatchy.Base.{
  String, Bool, true, false, ◌&&◌, Option, none, some, [], ◌∷◌, any, if◌then◌else◌, string_eq,
  ◌>>=◌,
}
use apatchy.Base.Dict.{Dict, keys, insert_all}
use apatchy.Base.Text.{starts_with, ends_with}

-- The files of the seed directory, if it exists, and whether the output directory does.
pub record SeedState : Type 0 where
  pub seeds : Option (Dict String String)
  pub output : Bool

-- The grammar: none is given; its file is not there; or `generate_seeds` on it raises an exception, or
-- writes these files.
pub data GrammarArg : Type 0 where
  not_given not_found broken : GrammarArg
  writes : Dict String String → GrammarArg

-- `mkdir(exist_ok=True)`, where the parent exists or not; `none` is the `FileNotFoundError`.
abbrev pub make_seed_dir : Bool → Option (Dict String String) → Option (Dict String String)
make_seed_dir parent (some seeds) = some seeds
make_seed_dir true none = some []
make_seed_dir false none = none

abbrev pub make_output_dir : Bool → Bool → Option Bool
make_output_dir parent true = some true
make_output_dir true false = some true
make_output_dir false false = none

abbrev pub default_seed : Bool → Dict String String → Dict String String
default_seed using_custom (item ∷ seeds) = item ∷ seeds
default_seed true [] = []
default_seed false [] = ("seed1.txt", "GET / HTTP/1.1\r\nHost: localhost\r\n\r\n") ∷ []

-- `list(seed_path.glob("grammar_*.txt"))`
unfoldable pub is_grammar_seed : String → Bool
is_grammar_seed name = starts_with name "grammar_" && ends_with name ".txt"

abbrev pub has_grammar_seeds : Dict String String → Bool
has_grammar_seeds seeds = any is_grammar_seed (keys seeds)

abbrev pub add_grammar : GrammarArg → Dict String String → Option (Dict String String)
add_grammar not_given seeds = some seeds
add_grammar not_found seeds = some seeds
add_grammar broken seeds = if has_grammar_seeds seeds then some seeds else none
add_grammar (writes files) seeds =
    if has_grammar_seeds seeds then some seeds else some (insert_all files seeds)

-- Whether a seed directory is given, and whether the parents of the two directories exist.
unfoldable pub prepare_corpus : Bool → Bool → Bool → GrammarArg → SeedState → Option SeedState
prepare_corpus using_custom seed_parent output_parent grammar s =
    make_seed_dir seed_parent s.seeds >>= λ found.
    make_output_dir output_parent s.output >>= λ output.
    add_grammar grammar (default_seed using_custom found) >>= λ seeds.
    some (record { seeds = some seeds; output = output })
