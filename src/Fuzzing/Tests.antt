-- ===== src/Fuzzing/Tests.antt =====
-- Concrete sessions, and the theorems at concrete inputs.
use apatchy.Base.{String, true, false, ◌≡◌, refl, some, none, [], ◌∷◌, string_eq}
use apatchy.Base.Dict.{Dict, lookup, insert}
use apatchy.Base.Decimal.{decimal}
use apatchy.Base.Text.{starts_with, ends_with}
use apatchy.Fuzzing.Prepare.{SeedState, writes, not_given, prepare_corpus, is_grammar_seed}
use apatchy.Fuzzing.{build_env, copy_seeds, start_command}
use apatchy.Fuzzing.Corpus.{or_file, lookup-copy_seeds}

abbrev environ : Dict String String
environ = ("HOME", "/root") ∷ ("UBSAN_OPTIONS", "color=never") ∷ []

env :
    build_env (some "/w/fuzz.conf") "/w" none (some "/w/lsan.supp") environ
    ≡ ("HOME", "/root")
      ∷ ("UBSAN_OPTIONS", "color=never:halt_on_error=1:print_stacktrace=1")
      ∷ ("FUZZ_CONF", "/w/fuzz.conf")
      ∷ ("FUZZ_ROOT", "/w")
      ∷ ("LSAN_OPTIONS", "suppressions=/w/lsan.supp")
      ∷ []
unfolding build_env insert string_eq
env = refl

parallel : start_command "./h" "q" "c" 12 ≡ "./h" ∷ "q" ∷ "-artifact_prefix=c/" ∷ "-fork=12" ∷ []
unfolding start_command decimal
parallel = refl

abbrev seeds : Dict String String
seeds = ("a", "new") ∷ ("b", "2") ∷ []

abbrev queue : Dict String String
queue = ("a", "old") ∷ []

lookup-copy_seeds_example :
    lookup "a" (copy_seeds false (some seeds) queue) ≡ or_file (lookup "a" queue) (lookup "a" seeds)
unfolding string_eq
lookup-copy_seeds_example = lookup-copy_seeds seeds queue "a" (refl, (refl, tt))

abbrev first_start : SeedState
first_start = record { seeds = none; output = false }

-- A first start makes the directories and a seed, and then the seeds of the grammar.
prepares :
    prepare_corpus false true true (writes (("grammar_0.txt", "GET") ∷ [])) first_start
    ≡ some (record {
      seeds = some (
          ("seed1.txt", "GET / HTTP/1.1\r\nHost: localhost\r\n\r\n")
          ∷ ("grammar_0.txt", "GET")
          ∷ []);
      output = true;
    })
unfolding prepare_corpus is_grammar_seed starts_with ends_with insert string_eq
prepares = refl

-- Seeds of a grammar are not made twice.
keeps_seeds :
    prepare_corpus true true true
      (writes (("grammar_0.txt", "new") ∷ []))
      (record { seeds = some (("grammar_7.txt", "old") ∷ []); output = true })
    ≡ some (record { seeds = some (("grammar_7.txt", "old") ∷ []); output = true })
unfolding prepare_corpus is_grammar_seed starts_with ends_with string_eq
keeps_seeds = refl

-- A seed directory under one that does not exist is an exception.
no_parent : prepare_corpus true false true not_given first_start ≡ none
unfolding prepare_corpus
no_parent = refl
