-- ===== src/Fuzzing.antt =====
-- framework/src/apatchy/fuzzers/base.py and fuzzers/libfuzzer.py: the environment, the corpus and the
-- command of a fuzzing session. `none` for an option is Python's `None`.
mod Prepare
mod Environment
mod Corpus
mod Tests
use apatchy.Base.{
  ℕ, String, ◌<>◌, Bool, true, false, not, ◌||◌, Option, none, some, List, [], ◌∷◌, ◌++◌,
  if◌then◌else◌, leb, ◌==◌, string_eq, contains,
}
use apatchy.Base.Dict.{Dict, get_or, insert, keys}
use apatchy.Base.Decimal.{decimal}

-- `if text:` of an option
abbrev pub is_given : Option String → Bool
is_given none = false
is_given (some text) = if text == "" then false else true

abbrev pub text_of : Option String → String
text_of none = ""
text_of (some text) = text

-- `f"{existing}:{opts}" if existing else opts`
abbrev pub with_options : String → String → String
with_options existing opts = if existing == "" then opts else existing <> (":" <> opts)

-- `env[key] = ...` on the options that stand there
abbrev pub append_options : String → String → Dict String String → Dict String String
append_options key opts env = insert key (with_options (get_or key env "") opts) env

abbrev pub set_config : Option String → String → Dict String String → Dict String String
set_config none work_dir env = env
set_config (some path) work_dir env = insert "FUZZ_ROOT" work_dir (insert "FUZZ_CONF" path env)

abbrev pub ubsan_options : Option String → String
ubsan_options suppress =
    if is_given suppress
    then "halt_on_error=1:print_stacktrace=1:suppressions=" <> text_of suppress
    else "halt_on_error=1:print_stacktrace=1"

abbrev pub set_lsan : Option String → Dict String String → Dict String String
set_lsan lsan_supp env =
    if is_given lsan_supp
    then append_options "LSAN_OPTIONS" ("suppressions=" <> text_of lsan_supp) env
    else env

-- `_build_env`, with the path of the httpd configuration if there is one.
unfoldable pub build_env :
    Option String → String → Option String → Option String → Dict String String → Dict String String
build_env config_path work_dir suppress lsan_supp environ = set_lsan lsan_supp (
    append_options "UBSAN_OPTIONS" (ubsan_options suppress)
      (set_config config_path work_dir environ))

-- The loop over the seeds, with the names that the queue had before it.
abbrev pub copy_each : List String → Dict String String → Dict String String → Dict String String
copy_each existing [] queue = queue
copy_each existing ((name, bytes) ∷ seeds) queue =
    copy_each existing seeds (if contains existing name then queue else insert name bytes queue)

-- The files of the queue after a start, with those of the seed directory if it exists.
unfoldable pub copy_seeds :
    Bool → Option (Dict String String) → Dict String String → Dict String String
copy_seeds resume none queue = queue
copy_seeds resume (some seeds) queue = if resume then queue else copy_each (keys queue) seeds queue

-- The command of `start`.
unfoldable pub start_command : String → String → String → ℕ → List String
start_command harness queue_dir crashes_dir workers =
    harness
    ∷ queue_dir
    ∷ ("-artifact_prefix=" <> (crashes_dir <> "/"))
    ∷ (if leb 2 workers
        then ("-fork=" <> decimal workers) ∷ []
        else "-keep_going=1000000" ∷ "-print_new_func_on_new=1" ∷ [])
