-- ===== src/Dispatch/Commands.antt =====
-- method_dispatcher.py: the handlers of `fuzz`, `triage`, `setup`, `module`, `dev` and `test`, up to the call that they
-- end with. The active tree, and what exists on the disk, are readings.
use apatchy.Base.{
  String, ◌<>◌, Bool, false, not, ◌&&◌, ◌||◌, Option, none, some, is_some, List, [], ◌∷◌, ◌++◌,
  if◌then◌else◌, ◌==◌, string_eq, or_default,
}
use apatchy.Base.Dict.{Dict, insert}
use apatchy.Tooling.{Tool}
use apatchy.Tooling.Registry.{tool_named}

-- What a handler ends with: nothing, behind an error that it reports; or the call of a manager.
pub data Ending (A : Type 0) : Type 0 where
  reported_error : String → Ending A
  calls : A → Ending A

-- `_handle_fuzz`: the harness that is run.
unfoldable pub handle_fuzz : String → String → (String → Bool) → Ending String
handle_fuzz work_dir engine exists =
    let harness = work_dir <> ("/fuzz_harness_" <> engine) in
    if exists harness
    then calls harness
    else reported_error
        ("Harness not found: " <> (harness <> (". Run 'apatchy link " <> (engine <> "' first."))))

-- `_handle_triage`: one crash, or a directory of them.
pub data TriageCall : Type 0 where
  triage_crash triage_bulk : String → TriageCall

abbrev pub is_passed : Option String → Bool
is_passed none = false
is_passed (some text) = not (text == "")

abbrev pub choose_triage : Option String → Option String → Ending TriageCall
choose_triage crash_file bulk =
    if not (is_passed crash_file || is_passed bulk)
    then reported_error "Either a crash file or --bulk <dir> is required."
    else if is_passed crash_file && is_passed bulk
    then reported_error "Only one of crash file and --bulk can be used at a time."
    else if is_passed bulk
    then calls (triage_bulk (or_default bulk ""))
    else calls (triage_crash (or_default crash_file ""))

unfoldable pub handle_triage :
    Option String → Bool → Bool → Option String → Option String → Ending TriageCall
handle_triage root has_harness pipeline crash_file bulk =
    if not (is_some root)
    then reported_error ""
    else if not has_harness
    then reported_error "No coverage harness found. Run 'apatchy coverage' first to build it."
    else if pipeline
    then reported_error
        "--pipeline is deprecated and will be re-written with proto multi-request support."
    else choose_triage crash_file bulk

-- `_handle_setup` with `ToolchainManager.setup`: a check, or the tool whose `setup` is called.
pub data SetupCall : Type 0 where
  check_all : SetupCall
  set_up : Tool → SetupCall
  nothing : SetupCall

abbrev pub set_up_named : String → Option Tool → Ending SetupCall
set_up_named name none = reported_error ("Unknown tool: " <> name)
set_up_named name (some tool) = calls (set_up tool)

unfoldable pub handle_setup : Bool → Option String → Ending SetupCall
handle_setup is_wsl action =
    let name = or_default action "" in
    if name == ""
    then reported_error "No setup sub-command specified. Use: check, afl, llvm, libtool"
    else if name == "check"
    then calls check_all
    else if name == "libtool" || name == "afl" || name == "llvm" || name == "lpm"
    then set_up_named name (tool_named is_wsl name)
    else calls nothing

-- `_handle_module`: the tree whose modules are built or listed.
pub data ModuleCall : Type 0 where
  build_modules list_modules no_action : String → ModuleCall

abbrev pub module_action : String → Option String → Ending ModuleCall
module_action root action =
    let name = or_default action "" in
    if name == ""
    then reported_error "No module sub-command specified. Use: build, list"
    else if name == "build"
    then calls (build_modules root)
    else if name == "list"
    then calls (list_modules root)
    else calls (no_action root)

abbrev pub in_tree : String → Option String → (String → Bool) → Option String → Ending ModuleCall
in_tree root tree exists action =
    let alternate = root <> ("-" <> or_default tree "") in
    if not (is_passed tree)
    then module_action root action
    else if exists alternate
    then module_action alternate action
    else reported_error ("Tree not found: " <> alternate)

unfoldable pub handle_module :
    Option String → Option String → (String → Bool) → Option String → Ending ModuleCall
handle_module none tree exists action = reported_error ""
handle_module (some root) tree exists action = in_tree root tree exists action

-- `_handle_test`: the command and its environment.
pub record TestArgs : Type 0 where
  pub scope : Option String
  pub filter_expr : Option String
  pub failfast : Bool
  pub cov : Bool
  pub apache_version : Option String

abbrev pub test_path : String → Option String → String
test_path dir none = dir
test_path dir (some scope) =
    if scope == "unit"
    then dir <> "/unit"
    else if scope == "integration"
    then dir <> "/integration"
    else dir

unfoldable pub test_command : String → String → TestArgs → List String
test_command python dir a =
    (python ∷ "-m" ∷ "pytest" ∷ "-v" ∷ test_path dir a.scope ∷ [])
    ++ ((if is_passed a.filter_expr then "-k" ∷ or_default a.filter_expr "" ∷ [] else [])
        ++ ((if a.failfast then "-x" ∷ [] else [])
            ++ (if a.cov then "--cov=apatchy" ∷ "--cov-report=term-missing" ∷ [] else [])))

abbrev pub test_env : TestArgs → Dict String String → Dict String String
test_env a env =
    if is_passed a.apache_version
    then insert "APATCHY_TEST_VERSIONS" (or_default a.apache_version "") env
    else env
