-- ===== src/Build/Compile.antt =====
-- `compile_httpd` and `build_harness` of managers/build_manager.py: the commands that they run. Which
-- commands succeed is a parameter; `none` is an exception.
use apatchy.Base.{
  ℕ, String, ◌<>◌, Bool, true, false, not, ◌&&◌, Option, none, some, List, [], ◌∷◌, if◌then◌else◌,
  or_default, ◌>>=◌,
}
use apatchy.Base.Decimal.{decimal}

-- What was run, the last thing first: a command, the rewriting of .clangd, or a harness of a mode with
-- its name and flags.
pub data Step : Type 0 where
  command : List String → Step
  update_clangd : Step
  harness : String → Option String → String → String → Bool → Step

module _ (succeeds : Step → Bool) (bear_available : Bool) where
  abbrev pub run_step : Step → List Step → Option (List Step)
  run_step s log = if succeeds s then some (s ∷ log) else none

  abbrev pub clean_first : Bool → List Step → Option (List Step)
  clean_first clean log = if clean then run_step (command ("make" ∷ "clean" ∷ [])) log else some log

  -- `make` under `bear`, which must be installed.
  abbrev pub make_step : String → Bool → List Step → Option (List Step)
  make_step jobs false log = run_step (command ("make" ∷ ("-j" <> jobs) ∷ [])) log
  make_step jobs true log =
      if bear_available
      then run_step (command ("bear" ∷ "--" ∷ "make" ∷ ("-j" <> jobs) ∷ [])) log
        >>= run_step update_clangd
      else none

  -- `compile_httpd`, with `os.cpu_count() or 1`
  unfoldable pub compile_httpd : ℕ → Option ℕ → Bool → Bool → List Step → Option (List Step)
  compile_httpd cpus jobs clean bear log =
      clean_first clean log >>= make_step (decimal (or_default jobs cpus)) bear

  -- `build_harness`
  unfoldable pub build_harness :
      String → Option String → Bool → String → String → List Step → Option (List Step)
  build_harness mode harness_name bear cflags ldflags log =
      if bear && not bear_available
      then none
      else run_step (harness mode harness_name cflags ldflags bear) log >>= λ log1.
          if bear then run_step update_clangd log1 else some log1
