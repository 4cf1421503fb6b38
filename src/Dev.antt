-- ===== src/Dev.antt =====
-- managers/dev_manager.py: `DevManager`, the projects of a developer's own harnesses.
-- Parameters: the template, and whether the tree and the harness can be built. A directory of projects
-- is held as its entries, in the order of their names.
pub mod Kept
mod Tests
use apatchy.Base.{
  String, ◌<>◌, Bool, true, false, not, ◌&&◌, Option, none, some, is_some, List, [], ◌∷◌, ◌++◌, map,
  if◌then◌else◌, ◌==◌, string_eq, contains, keep, or_default,
}
use apatchy.Base.Dict.{Dict, lookup, insert}
use apatchy.Base.Text.{join}

-- An entry of the directory: the text of its harness.c if there is one, the engines whose binary is
-- there, and the arguments in its compile_commands.json.
pub record Project : Type 0 where
  pub is_dir : Bool
  pub harness : Option String
  pub engines : List String
  pub compdb : Option (List String)

pub record DevState : Type 0 where
  pub cwd : String
  pub projects : Dict String Project

-- `Config.DEV_DIR`, the include paths of the builder, and the text of the template, with the one in the
-- code where the file is missing.
pub record DevManager : Type 0 where
  pub dev_dir : String
  pub includes : List String
  pub template : Option String
  pub fallback : String

-- `_generate_compile_commands`
abbrev pub compile_arguments : DevManager → String → List String
compile_arguments m name =
    let dir = m.dev_dir <> ("/" <> name) in
    ("clang" ∷ "-g" ∷ "-O0" ∷ "-fno-omit-frame-pointer" ∷ m.includes)
    ++ ("-c" ∷ (dir <> "/harness.c") ∷ "-o" ∷ (dir <> "/harness.o") ∷ [])

abbrev pub set_project : String → Project → DevState → DevState
set_project name p s = record s { projects = insert name p s.projects }

-- `init_project`; `none` is a `FileExistsError`.
unfoldable pub init_project : DevManager → String → DevState → Option DevState
init_project m name s =
    if is_some (lookup name s.projects)
    then none
    else some (
        set_project name
          (record {
            is_dir = true;
            harness = some (or_default m.template m.fallback);
            engines = [];
            compdb = some (compile_arguments m name);
          })
          s)

-- How the build goes: the tree of a standalone build, and the harness, can be made or raise an
-- exception.
pub record DevBuild : Type 0 where
  pub makes_tree : Bool
  pub makes_harness : Bool

abbrev pub add_engine : String → Project → Project
add_engine engine p = record p {
  engines = if contains p.engines engine then p.engines else p.engines ++ (engine ∷ []);
}

abbrev pub directory_of : DevManager → String → String
directory_of m name = m.dev_dir <> ("/" <> name)

-- The binary is written into the working directory: the project that stands there has it.
abbrev pub put_binary : DevManager → String → String → Dict String Project → Dict String Project
put_binary m cwd engine [] = []
put_binary m cwd engine ((name, p) ∷ ps) =
    (name, if directory_of m name == cwd then add_engine engine p else p)
    ∷ put_binary m cwd engine ps

-- Whether an exception left the call, and the state behind it. The working directory is the project's
-- while the harness is built, and is set back in `finally`.
abbrev pub in_project : DevManager → DevBuild → String → String → DevState → Bool × DevState
in_project m b name engine s =
    let there = record s { cwd = directory_of m name } in
    let with_binary = record there { projects = put_binary m there.cwd engine there.projects } in
    let built = if b.makes_harness then with_binary else there in
    (not b.makes_harness, record built { cwd = s.cwd })

abbrev pub with_harness :
    DevManager → DevBuild → String → String → Project → DevState → Option String → Bool × DevState
with_harness m b name engine p s none = (true, s)
with_harness m b name engine p s (some text) =
    let q = record p { compdb = some (compile_arguments m name) } in
    let t = set_project name q s in
    if engine == "standalone" && not b.makes_tree then (true, t) else in_project m b name engine t

abbrev pub in_directory :
    DevManager → DevBuild → String → String → DevState → Option Project → Bool × DevState
in_directory m b name engine s none = (true, s)
in_directory m b name engine s (some p) = with_harness m b name engine p s p.harness

-- `build_project`
unfoldable pub build_project : DevManager → DevBuild → String → String → DevState → Bool × DevState
build_project m b name engine s = in_directory m b name engine s (lookup name s.projects)

-- `list_projects`
pub record ListedProject : Type 0 where
  pub name : String
  pub built : String
  pub has_compdb : Bool

abbrev pub project_entry : String × Project → ListedProject
project_entry (name, p) = record {
  name = name;
  built = join ", " (keep (contains p.engines) ("libfuzzer" ∷ "standalone" ∷ []));
  has_compdb = is_some p.compdb;
}

abbrev pub is_project : String × Project → Bool
is_project (name, p) = p.is_dir && is_some p.harness

unfoldable pub list_projects : DevState → List ListedProject
list_projects s = map project_entry (keep is_project s.projects)
