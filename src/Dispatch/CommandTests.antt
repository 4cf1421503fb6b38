-- ===== src/Dispatch/CommandTests.antt =====
-- The handlers at concrete arguments.
use apatchy.Base.{true, false, ◌≡◌, refl, none, some, [], ◌∷◌, string_eq}
use apatchy.Base.Dict.{insert}
use apatchy.Tooling.{libtool, lpm}
use apatchy.Tooling.Registry.{build_name_index, build_registry, tool_named}
use apatchy.Dispatch.Commands.{
  build_modules, calls, check_all, handle_module, handle_setup, handle_triage, reported_error,
  set_up, test_command, triage_bulk,
}

-- The action `afl` names no tool of the registry.
setup_actions :
    (handle_setup true (some "lpm") ≡ calls (set_up lpm))
    × (handle_setup false (some "libtool") ≡ calls (set_up libtool))
    × (handle_setup false (some "check") ≡ calls check_all)
    × (handle_setup false (some "afl") ≡ reported_error "Unknown tool: afl")
unfolding handle_setup tool_named build_name_index build_registry insert string_eq
setup_actions = (refl, refl, refl, refl)

triage_calls :
    (handle_triage (some "r") true false none (some "d") ≡ calls (triage_bulk "d"))
    × (handle_triage (some "r") true false (some "f") (some "d")
        ≡ reported_error "Only one of crash file and --bulk can be used at a time.")
unfolding handle_triage string_eq
triage_calls = (refl, refl)

module_tree :
    handle_module (some "httpd") (some "cov") (λ p. true) (some "build")
    ≡ calls (build_modules "httpd-cov")
unfolding handle_module string_eq
module_tree = refl

tests :
    test_command "py" "t" (record {
      scope = some "unit";
      filter_expr = none;
      failfast = true;
      cov = false;
      apache_version = none;
    })
    ≡ "py" ∷ "-m" ∷ "pytest" ∷ "-v" ∷ "t/unit" ∷ "-x" ∷ []
unfolding test_command string_eq
tests = refl
