-- ===== src/Report/Coverage/Modules.antt =====
-- managers/report_manager.py, `_build_coverage_modules`: the external modules that are built with coverage.
-- Parameters: the sources in their order, and whether each build succeeds.
use apatchy.Base.{String, ◌<>◌, Bool, ◌&&◌, List, [], ◌∷◌, ◌++◌, map, if◌then◌else◌, string_eq}
use apatchy.Base.Dict.{Dict, insert_all}

-- The directories below modules/ of the tree.
abbrev pub include_dirs : String → List String → List String
include_dirs cov_root dirs =
    map (λ d. "-I" <> (cov_root <> d))
      ("/include" ∷ "/srclib/apr/include" ∷ "/srclib/apr-util/include" ∷ "/os/unix" ∷ "/server"
        ∷ [])
    ++ map (λ d. "-I" <> d) dirs

-- A source of one file: its stem, its path, and whether the compiler succeeds.
pub record SourceFile : Type 0 where
  pub stem : String
  pub path : String
  pub compiles : Bool

-- A directory: its name and path, whether it is one with a build.sh, whether that succeeds, and whether
-- the module is there behind it.
pub record SourceDir : Type 0 where
  pub name : String
  pub path : String
  pub has_build_script : Bool
  pub script_succeeds : Bool
  pub has_output : Bool

abbrev pub module_path : String → String → String
module_path modules_dir name = modules_dir <> ("/" <> (name <> ".so"))

abbrev pub compile_command : String → String → List String → SourceFile → List String
compile_command compiler modules_dir includes s =
    compiler
    ∷ "-fPIC"
    ∷ "-shared"
    ∷ "-g"
    ∷ "-O0"
    ∷ "-fprofile-instr-generate"
    ∷ "-fcoverage-mapping"
    ∷ "-o"
    ∷ module_path modules_dir s.stem
    ∷ s.path
    ∷ includes

abbrev pub script_env :
    String → String → String → SourceDir → Dict String String → Dict String String
script_env compiler cov_root modules_dir d env =
    insert_all
      (("HTTPD_ROOT", cov_root)
        ∷ ("CC", compiler)
        ∷ ("SANITIZER_FLAGS", "-fprofile-instr-generate -fcoverage-mapping")
        ∷ ("OUTPUT_DIR", modules_dir)
        ∷ ("MODULE_DIR", d.path)
        ∷ [])
      env

unfoldable pub built_files : String → List SourceFile → List String
built_files modules_dir [] = []
built_files modules_dir (s ∷ sources) =
    let rest = built_files modules_dir sources in
    if s.compiles then module_path modules_dir s.stem ∷ rest else rest

unfoldable pub built_dirs : String → List SourceDir → List String
built_dirs modules_dir [] = []
built_dirs modules_dir (d ∷ dirs) =
    let rest = built_dirs modules_dir dirs in
    if d.has_build_script && (d.script_succeeds && d.has_output)
    then module_path modules_dir d.name ∷ rest
    else rest

-- The modules that are built, those of one file first; none without the directory of sources.
unfoldable pub build_coverage_modules :
    Bool → String → List SourceFile → List SourceDir → List String
build_coverage_modules has_sources modules_dir sources dirs =
    if has_sources then built_files modules_dir sources ++ built_dirs modules_dir dirs else []
