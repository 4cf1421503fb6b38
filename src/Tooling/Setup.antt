-- ===== src/Tooling/Setup.antt =====
-- core/toolchain/libtool.py, llvm.py and lpm.py: `setup`, what is written to the toolchain file.
-- Parameters: whether downloads and builds succeed, and the files before and after them. A command of
-- the build of LPM that fails raises an exception, which is left out.
use apatchy.Base.{
  ℕ, String, ◌<>◌, Bool, not, ◌&&◌, Option, none, some, is_some, List, [], ◌∷◌, ◌++◌, if◌then◌else◌,
  ◌==◌, string_eq,
}
use apatchy.Base.Decimal.{decimal}
use apatchy.Base.Dict.{Dict, insert}
use apatchy.Base.Text.{starts_with}
use apatchy.Toolchain

-- `name.removesuffix(suffix)`, for a suffix that is not empty
abbrev pub drop_suffix : String → String → String
drop_suffix suffix String.[] = ""
drop_suffix suffix (String.◌∷◌ c s) =
    let rest = drop_suffix suffix s in if String.◌∷◌ c s == suffix then "" else String.◌∷◌ c rest

-- The entries for the two sections.
pub record Entries : Type 0 where
  pub build_entries : Dict String String
  pub coverage_entries : Dict String String

abbrev pub add_compiler : String → String → String → Dict String String → Dict String String
add_compiler version name path entries =
    let unversioned = drop_suffix ("-" <> version) name in
    let named = insert name path entries in
    if unversioned == name then named else insert unversioned path named

abbrev pub add_program : String → String → String → Entries → Entries
add_program version name path e =
    if starts_with name "clang"
    then record e { build_entries = add_compiler version name path e.build_entries }
    else record e { coverage_entries = insert name path e.coverage_entries }

-- The loop over the directory, with the names in order and whether each is a file.
unfoldable pub collect_entries : String → String → List (String × Bool) → Entries → Entries
collect_entries version dir [] e = e
collect_entries version dir ((name, is_file) ∷ names) e =
    collect_entries version dir names
      (if is_file then add_program version name (dir <> ("/" <> name)) e else e)

abbrev pub write_entries : String → Dict String String → Toolchain.Cfg → Toolchain.Cfg
write_entries section [] file = file
write_entries section (entry ∷ entries) file =
    Toolchain.force_update_section section (entry ∷ entries) file

-- `_register_binaries`; `none` where there is no such directory.
unfoldable pub register_binaries :
    String → Option (List (String × Bool)) → Toolchain.Cfg → Toolchain.Cfg
register_binaries version none file = file
register_binaries version (some names) file =
    let dir = "/usr/lib/llvm-" <> (version <> "/bin") in
    let e =
      collect_entries version dir names (record { build_entries = []; coverage_entries = [] }) in
    write_entries "coverage" e.coverage_entries (write_entries "build" e.build_entries file)

-- `LlvmTool.setup`: the version that is asked for and the one that is there, whether the installer
-- succeeds, and the directory before and after it.
pub record LlvmSetup : Type 0 where
  pub force : Bool
  pub llvm_version : Option String
  pub detected : Option String
  pub installs : Bool
  pub names_before : Option (List (String × Bool))
  pub names_after : Option (List (String × Bool))

abbrev pub wanted_version : LlvmSetup → Option String
wanted_version s = elim s.llvm_version [
  | none ↦ s.detected
  | some version ↦ if version == "" then s.detected else some version
]

abbrev pub setup_version : LlvmSetup → Toolchain.Cfg → Option String → Toolchain.Cfg
setup_version s file none = file
setup_version s file (some version) =
    if not s.force && is_some s.detected
    then register_binaries version s.names_before file
    else if s.installs
    then register_binaries version s.names_after file
    else file

unfoldable pub setup_llvm : LlvmSetup → Toolchain.Cfg → Toolchain.Cfg
setup_llvm s file = setup_version s file (wanted_version s)

-- `LibtoolTool.setup`
pub record LibtoolSetup : Type 0 where
  pub force : Bool
  pub binary_path : String
  pub has_binary : Bool
  pub system : Option String
  pub downloads : Bool
  pub extracts : Bool
  pub has_extracted : Bool

abbrev pub register_libtool : String → Toolchain.Cfg → Toolchain.Cfg
register_libtool path file = Toolchain.force_update_section "build" (("libtool", path) ∷ []) file

abbrev pub download_libtool : LibtoolSetup → Toolchain.Cfg → Toolchain.Cfg
download_libtool s file =
    if s.downloads && (s.extracts && s.has_extracted)
    then register_libtool s.binary_path file
    else file

unfoldable pub setup_libtool : LibtoolSetup → Toolchain.Cfg → Toolchain.Cfg
setup_libtool s file =
    let found : Option String → Toolchain.Cfg = λ o. elim o as (λ _. Toolchain.Cfg) [
      | none ↦ download_libtool s file
      | some path ↦ register_libtool path file
    ] in
    if s.has_binary
    then register_libtool s.binary_path file
    else if s.force
    then download_libtool s file
    else found s.system

-- `LpmTool.setup`: the commands that are run, and the toolchain file behind them.
pub record LpmSetup : Type 0 where
  pub force : Bool
  pub lpm_root : String
  pub was_built : Bool
  pub has_cmake : Bool
  pub has_protoc : Bool
  pub has_ninja : Bool
  pub has_checkout : Bool
  pub cpus : ℕ
  pub is_built_after : Bool

abbrev pub write_paths : String → Toolchain.Cfg → Toolchain.Cfg
write_paths dir file =
    Toolchain.force_update_section "fuzzing"
      (("lpm-root", dir) ∷ ("lpm-build", dir <> "/build") ∷ []) file

abbrev pub clone_commands : LpmSetup → List (List String)
clone_commands s =
    if s.has_checkout
    then []
    else ("git" ∷ "clone" ∷ "https://github.com/google/libprotobuf-mutator.git" ∷ s.lpm_root ∷ [])
      ∷ []

abbrev pub lpm_commands : LpmSetup → List (List String)
lpm_commands s =
    clone_commands s
    ++ (("cmake"
          ∷ ("-G" <> (if s.has_ninja then "Ninja" else "Unix Makefiles"))
          ∷ "-DCMAKE_BUILD_TYPE=Release"
          ∷ "-DLIB_PROTO_MUTATOR_TESTING=OFF"
          ∷ "-DLIB_PROTO_MUTATOR_DOWNLOAD_PROTOBUF=OFF"
          ∷ ".."
          ∷ [])
        ∷ ((if s.has_ninja then "ninja" else "make") ∷ ("-j" <> decimal s.cpus) ∷ [])
        ∷ [])

unfoldable pub setup_lpm : LpmSetup → Toolchain.Cfg → List (List String) × Toolchain.Cfg
setup_lpm s file =
    if s.was_built && not s.force
    then ([], write_paths s.lpm_root file)
    else if not (s.has_cmake && s.has_protoc)
    then ([], file)
    else (lpm_commands s, if s.is_built_after then write_paths s.lpm_root file else file)
