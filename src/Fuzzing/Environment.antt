-- ===== src/Fuzzing/Environment.antt =====
-- `BaseFuzzer._build_env` of fuzzers/base.py.
use apatchy.Base.{
  String, ◌<>◌, false, ◌≡◌, refl, ◌∙◌, Option, none, some, ◌&&◌, if◌then◌else◌, ◌==◌, string_eq,
  arith, is_some, ap, inl, inr, Bool-cases,
}
use apatchy.Base.Dict.{Dict, lookup, get_or, insert, lookup-insert}
use apatchy.Fuzzing.{
  is_given, text_of, with_options, append_options, set_config, ubsan_options, build_env,
}

lookup-append_options :
    (j key opts : String) (env : Dict String String)
    → lookup j (append_options key opts env)
      ≡ (if j == key then some (with_options (get_or key env "") opts) else lookup j env)
lookup-append_options j key opts env =
    lookup-insert j key (with_options (get_or key env "") opts) env

lookup-set_config :
    (j : String) (config_path : Option String) (work_dir : String) (env : Dict String String)
    → lookup j (set_config config_path work_dir env) ≡ (
        if is_some config_path && j == "FUZZ_ROOT"
        then some work_dir
        else if is_some config_path && j == "FUZZ_CONF"
        then config_path
        else lookup j env)
lookup-set_config j none work_dir env = refl
lookup-set_config j (some path) work_dir env = ground (
  arith,
  lookup-insert j "FUZZ_ROOT" work_dir (insert "FUZZ_CONF" path env),
  lookup-insert j "FUZZ_CONF" path env,
)

other_keys :
    ((◌==◌ {A = String} "UBSAN_OPTIONS" "FUZZ_ROOT") ≡ false)
    × ((◌==◌ {A = String} "UBSAN_OPTIONS" "FUZZ_CONF") ≡ false)
    × ((◌==◌ {A = String} "LSAN_OPTIONS" "FUZZ_ROOT") ≡ false)
    × ((◌==◌ {A = String} "LSAN_OPTIONS" "FUZZ_CONF") ≡ false)
    × ((◌==◌ {A = String} "LSAN_OPTIONS" "UBSAN_OPTIONS") ≡ false)
unfolding string_eq
other_keys = (refl, refl, refl, refl, refl)

module _ (config_path : Option String) (work_dir : String)
    (suppress lsan_supp : Option String) where
  -- The value of each variable, with the options of the user in front of those that are added.
  abbrev pub expected : String → Dict String String → Option String
  expected j environ =
      if is_given lsan_supp && j == "LSAN_OPTIONS"
      then some
          (with_options (get_or "LSAN_OPTIONS" environ "") ("suppressions=" <> text_of lsan_supp))
      else if j == "UBSAN_OPTIONS"
      then some (with_options (get_or "UBSAN_OPTIONS" environ "") (ubsan_options suppress))
      else if is_some config_path && j == "FUZZ_ROOT"
      then some work_dir
      else if is_some config_path && j == "FUZZ_CONF"
      then config_path
      else lookup j environ

  ubsan_kept :
      (environ : Dict String String)
      → lookup "UBSAN_OPTIONS" (set_config config_path work_dir environ)
        ≡ lookup "UBSAN_OPTIONS" environ
  ubsan_kept environ =
      ground (arith, lookup-set_config "UBSAN_OPTIONS" config_path work_dir environ, other_keys)

  lsan_kept :
      (opts : String) (environ : Dict String String)
      → lookup "LSAN_OPTIONS"
          (append_options "UBSAN_OPTIONS" opts (set_config config_path work_dir environ))
        ≡ lookup "LSAN_OPTIONS" environ
  lsan_kept opts environ = ground (
    arith,
    lookup-append_options "LSAN_OPTIONS" "UBSAN_OPTIONS" opts
        (set_config config_path work_dir environ),
    lookup-set_config "LSAN_OPTIONS" config_path work_dir environ,
    other_keys,
  )

  abbrev with_config : Dict String String → Dict String String
  with_config environ = set_config config_path work_dir environ

  abbrev with_ubsan : Dict String String → Dict String String
  with_ubsan environ = append_options "UBSAN_OPTIONS" (ubsan_options suppress) (with_config environ)

  abbrev expected_config : String → Dict String String → Option String
  expected_config j environ =
      if is_some config_path && j == "FUZZ_ROOT"
      then some work_dir
      else if is_some config_path && j == "FUZZ_CONF"
      then config_path
      else lookup j environ

  abbrev value : Option String → String
  value o = elim o [ none ↦ "" | some v ↦ v ]

  lookup-with_ubsan :
      (environ : Dict String String) (j : String)
      → lookup j (with_ubsan environ) ≡ (
          if j == "UBSAN_OPTIONS"
          then some (with_options (get_or "UBSAN_OPTIONS" environ "") (ubsan_options suppress))
          else expected_config j environ)
  lookup-with_ubsan environ j =
      let same : get_or "UBSAN_OPTIONS" (with_config environ) ""
          ≡ get_or "UBSAN_OPTIONS" environ "" =
        ap value (ubsan_kept environ) in
      let first =
        lookup-append_options j "UBSAN_OPTIONS" (ubsan_options suppress) (with_config environ) in
      let config = lookup-set_config j config_path work_dir environ in
      first
      ∙ ap
          (λ (old : String).
            if j == "UBSAN_OPTIONS"
            then some (with_options old (ubsan_options suppress))
            else lookup j (with_config environ))
          same
      ∙ ap
          (λ (o : Option String).
            if j == "UBSAN_OPTIONS"
            then some (with_options (get_or "UBSAN_OPTIONS" environ "") (ubsan_options suppress))
            else o)
          config

  -- In the environment of a session UBSAN_OPTIONS is what the user has set, if it is not empty, and
  -- then the options of the session; so is LSAN_OPTIONS if a suppression is given; FUZZ_CONF and
  -- FUZZ_ROOT are set if there is a configuration; each other variable is as it was.
  lookup-build_env :
      (environ : Dict String String) (j : String)
      → lookup j (build_env config_path work_dir suppress lsan_supp environ) ≡ expected j environ
  unfolding build_env
  lookup-build_env environ j =
      let two = with_ubsan environ in
      let opts = "suppressions=" <> text_of lsan_supp in
      let same : get_or "LSAN_OPTIONS" two "" ≡ get_or "LSAN_OPTIONS" environ "" =
        ap value (lsan_kept (ubsan_options suppress) environ) in
      elim (Bool-cases (is_given lsan_supp)) [
        | inl g ↦ rw g (
            lookup-append_options j "LSAN_OPTIONS" opts two
            ∙ ap
                (λ (old : String).
                  if j == "LSAN_OPTIONS" then some (with_options old opts) else lookup j two)
                same
            ∙ ap
                (λ (o : Option String).
                  if j == "LSAN_OPTIONS"
                  then some (with_options (get_or "LSAN_OPTIONS" environ "") opts)
                  else o)
                (lookup-with_ubsan environ j))
        | inr g ↦ rw g (lookup-with_ubsan environ j)
      ]
