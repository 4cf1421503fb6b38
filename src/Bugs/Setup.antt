-- ===== src/Bugs/Setup.antt =====
-- `BugManager.setup` and `BugManager.reproduce` of managers/bug_manager.py, as the calls that they make
-- of the other parts, one after the other. Which calls succeed is a parameter.
use apatchy.Base.{
  ℕ, String, Bool, true, false, not, ◌||◌, Option, none, some, List, [], ◌∷◌, if◌then◌else◌,
  string_eq, contains, keep,
}
use apatchy.Base.Text.{ends_with}
use apatchy.Flags.{ConfigManager, generate_build_config}
use apatchy.Build.{Host, find_tool, or_text}
use apatchy.Build.Version.{apache_dir}
use apatchy.Dispatch.{Switches, manager_of}
use apatchy.Bugs.{
  Bug, cve_id_of, version_of_bug, sanitizers_of, configure_flags_of, triage_timeout, suppress_file,
}

-- The calls: `download_apache`, `configure_httpd`, `compile_httpd`, `ensure_build` of the tree with a
-- suffix, `HarnessBuilder.build` on it, the methods of the bug, and `triage_crash` of a seed.
pub data Action : Type 0 where
  download : String → Action
  configure : ConfigManager → List String → Action
  compile : Action
  build_branch_tree : String → String → String → String → Action
  build_harness : String → String → String → String → Option String → Action
  bug_setup make_seeds bug_reproduce : Action
  triage : String → String → Option String → ℕ → Action

-- The calls that succeeded, the last one first, after a run that ends or raises an exception.
pub data Run : Type 0 where
  ended raised : List Action → Run

abbrev pub and_then : Run → (List Action → Run) → Run
and_then (ended log) f = f log
and_then (raised log) f = raised log

-- A step that may raise an exception before it calls anything.
abbrev pub with_value {ℓ} : {A : Type ℓ} → Option A → (A → List Action → Run) → List Action → Run
with_value none f log = raised log
with_value (some a) f log = f a log

-- `sanitizer_flags.get(name, False)` for the four names
abbrev pub switches_of_bug : Bug → Switches
switches_of_bug b = record {
  asan = contains (sanitizers_of b) "asan";
  ubsan = contains (sanitizers_of b) "ubsan";
  ubsan_ignorelist = none;
  intsan = contains (sanitizers_of b) "intsan";
  truncsan = contains (sanitizers_of b) "truncsan";
}

module _ (h : Host) (succeeds : Action → Bool) where
  abbrev pub perform : Action → List Action → Run
  perform a log = if succeeds a then ended (a ∷ log) else raised log

  abbrev pub clang_or_default : String
  clang_or_default = elim (or_text (find_tool h "clang") none) [ none ↦ "clang" | some cc ↦ cc ]

  -- A branch is built, and the harness is linked against it.
  unfoldable pub link_branch : Bug → String → String → String → List Action → Run
  link_branch b version mode suffix =
      with_value
        (generate_build_config h.disk h.packaging (manager_of mode (switches_of_bug b))
          (some version))
        (λ config log.
          and_then (perform (build_branch_tree suffix clang_or_default config.0 config.1) log)
            (perform (build_harness suffix mode config.0 config.1 b.manifest.harness)))

  -- `generate_seeds`, and that of the class of the bug.
  abbrev pub runs_seeds : Bug → Bool
  runs_seeds b = elim b.plugin [ none ↦ b.gen_seed | some o ↦ o.custom_seeds || b.gen_seed ]

  abbrev pub seeds_step : Bug → List Action → Run
  seeds_step b log = if runs_seeds b then perform make_seeds log else ended log

  abbrev pub setup_step : Bug → List Action → Run
  setup_step b log = elim b.plugin [
    | none ↦ ended log
    | some o ↦ if o.custom_setup then perform bug_setup log else ended log
  ]

  abbrev pub download_step : Bool → String → List Action → Run
  download_step downloaded version log =
      if downloaded then ended log else perform (download version) log

  -- `setup` of a bug whose Apache has been downloaded or not.
  unfoldable pub setup : Bool → Bug → Run
  setup downloaded b =
      with_value (version_of_bug b)
        (λ version. with_value (cve_id_of b) (λ id log.
          and_then (download_step downloaded version log) (λ log1.
            and_then
              (perform (configure (manager_of "fuzz" (switches_of_bug b)) (configure_flags_of b))
                log1)
              (λ log2. and_then (perform compile log2) (λ log3.
                and_then (link_branch b version "libfuzzer" "-lf" log3) (λ log4.
                  and_then (link_branch b version "coverage" "-cov" log4)
                    (λ log5. and_then (setup_step b log5) (seeds_step b))))))))
        []

-- The names of the httpd-* directories without two kinds of branches.
abbrev pub is_skipped : String → Bool
is_skipped name = ends_with name "-cov" || ends_with name "-standalone"

-- `_get_active_httpd` of `BugManager`
unfoldable pub find_httpd : Bool → List String → String → Option String
find_httpd exists names version =
    if exists
    then some (apache_dir version)
    else elim (keep (λ name. not (is_skipped name)) names) [
      | [] ↦ none
      | name ∷ rest ↦ elim rest [ [] ↦ some name | _ ∷ _ ↦ none ]
    ]

-- The entries of the directory seeds/, if it exists, in the order of their names, each with
-- `is_file()`.
abbrev pub Seeds : Type 0
Seeds = Option (List (String × Bool))

abbrev pub is_empty : Seeds → Bool
is_empty none = true
is_empty (some []) = true
is_empty (some (_ ∷ _)) = false

abbrev pub seed_files : Seeds → List String
seed_files none = []
seed_files (some []) = []
seed_files (some ((name, is_file) ∷ seeds)) =
    let rest = seed_files (some seeds) in if is_file then name ∷ rest else rest

-- What a reproduction finds: seeds/ before and after `generate_seeds`, whether there is a harness for
-- coverage, whether the directory of the version exists, the httpd-* names, and which paths exist.
pub record Found : Type 0 where
  pub seeds : Seeds
  pub generated : Seeds
  pub harness : Bool
  pub version_exists : Bool
  pub names : List String
  pub exists : String → Bool

module _ (h : Host) (succeeds : Action → Bool) (f : Found) where
  abbrev pub triage_all : Bug → String → List String → List Action → Run
  triage_all b root [] log = ended log
  triage_all b root (seed ∷ seeds) log =
      and_then
        (perform h succeeds (triage seed root (suppress_file f.exists root b) (triage_timeout b))
          log)
        (triage_all b root seeds)

  -- The triage of the seed files, where an Apache is found.
  abbrev pub triage_seeds : Bug → String → List String → List Action → Run
  triage_seeds b root [] log = ended log
  triage_seeds b root (seed ∷ seeds) log =
      with_value (version_of_bug b)
        (λ version log1. elim (find_httpd f.version_exists f.names version) [
          | none ↦ ended log1
          | some httpd ↦ with_value (cve_id_of b) (λ id. triage_all b root (seed ∷ seeds)) log1
        ])
        log

  abbrev pub overrides_reproduce : Bug → Bool
  overrides_reproduce b = elim b.plugin [ none ↦ false | some o ↦ o.custom_reproduce ]

  abbrev pub reproduce_step : Bug → String → Seeds → List Action → Run
  reproduce_step b root seeds log =
      if not f.harness
      then ended log
      else if overrides_reproduce b
      then with_value (cve_id_of b) (λ id. perform h succeeds bug_reproduce) log
      else triage_seeds b root (seed_files seeds) log

  abbrev pub generate_step : Bug → List Action → Run
  generate_step b log = if is_empty f.seeds then seeds_step h succeeds b log else ended log

  -- `reproduce`
  unfoldable pub reproduce : String → Bug → Run
  reproduce root b =
      and_then (generate_step b [])
        (λ log. reproduce_step b root (if is_empty f.seeds then f.generated else f.seeds) log)
