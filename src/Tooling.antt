-- ===== src/Tooling.antt =====
-- core/toolchain (base.py, simple.py, libtool.py, llvm.py, lpm.py, registry.py) and
-- managers/toolchain_manager.py: `ToolchainManager`, what it looks for and what it writes to the
-- toolchain file. The files of core/toolchain_config.py are those of `Toolchain`.
-- Parameters: the disk, what a program prints of its version, and whether an installer succeeds.
pub mod Groups
pub mod Kept
pub mod Registry
pub mod Setup
mod Tests
use apatchy.Base.{
  String, ◌<>◌, Bool, true, false, not, ◌&&◌, ◌||◌, Option, none, some, is_some, List, [], ◌∷◌,
  ◌++◌, if◌then◌else◌, ◌==◌, string_eq, or_default,
}
use apatchy.Base.Dict.{Dict, lookup, get_or, insert}
use apatchy.Base.Text.{starts_with}
use apatchy.Report.{candidates}
use apatchy.Toolchain

pub record DepStatus : Type 0 where
  pub name : String
  pub category : String
  pub found : Bool
  pub version : String
  pub path : String
  pub install_hint : String

-- What the checks look at: the toolchain file and the PATH, `get_binary_version` of a path with its
-- arguments and its major version, what `pkg-config --modversion` prints, and the files that exist.
pub record Probe : Type 0 where
  pub tools : Toolchain.Host
  pub cfg : Toolchain.Cfg
  pub version_text_of : String → List String → Option String
  pub major_version_of : String → Option String
  pub modversion : String → Option String
  pub exists : String → Bool
  pub toolchain_dir : String

pub record Binary : Type 0 where
  pub name : String
  pub category : String
  pub install_hint : String
  pub fallback : Option String
  pub version_args : List String
  pub exists_only : Bool

-- A library, with the program that tells of it or the header that is looked for.
pub record Library : Type 0 where
  pub name : String
  pub category : String
  pub install_hint : String
  pub witness_file : Option String
  pub pkg_name : String

-- The tools of the registry.
pub data Tool : Type 0 where
  binary_tool : Binary → Tool
  pkg_or_config header_or_pkg : Library → Tool
  libtool lpm llvm : Tool

abbrev pub tool_name : Tool → String
tool_name (binary_tool b) = b.name
tool_name (pkg_or_config l) = l.name
tool_name (header_or_pkg l) = l.name
tool_name libtool = "libtool"
tool_name lpm = "lpm"
tool_name llvm = "llvm"

abbrev pub found_dep : String → String → Option String → String → DepStatus
found_dep name category version path = record {
  name = name;
  category = category;
  found = true;
  version = or_default version "";
  path = path;
  install_hint = "";
}

abbrev pub missing_dep : String → String → String → DepStatus
missing_dep name category hint = record {
  name = name;
  category = category;
  found = false;
  version = "";
  path = "";
  install_hint = hint;
}

module _ (p : Probe) where
  abbrev pub resolve : String → Option String
  resolve name = Toolchain.resolve_tool p.tools p.cfg name none

  abbrev pub version_args_of : Binary → List String
  version_args_of b = elim b.version_args [ [] ↦ "--version" ∷ [] | arg ∷ args ↦ arg ∷ args ]

  abbrev pub found_binary : Binary → String → String → DepStatus
  found_binary b display path =
      if b.exists_only
      then found_dep display b.category none path
      else found_dep display b.category (p.version_text_of path (version_args_of b)) path

  abbrev pub via_fallback : Binary → Option String → DepStatus
  via_fallback b none = missing_dep b.name b.category b.install_hint
  via_fallback b (some other) = elim (resolve other) [
    | none ↦ missing_dep b.name b.category b.install_hint
    | some path ↦ found_binary b (b.name <> (" (via " <> (other <> ")"))) path
  ]

  -- `BinaryTool.check`
  abbrev pub check_binary : Binary → DepStatus
  check_binary b = elim (resolve b.name) [
    | none ↦ via_fallback b b.fallback
    | some path ↦ found_binary b b.name path
  ]

  -- `pkg-config --modversion`, where there is a pkg-config.
  abbrev pub ask_pkg_config : Library → Option DepStatus
  ask_pkg_config l = elim (resolve "pkg-config") [
    | none ↦ none
    | some _ ↦ elim (p.modversion l.pkg_name) [
      | none ↦ none
      | some version ↦
          some (found_dep l.name l.category (some version) ("pkg-config:" <> l.pkg_name))
    ]
  ]

  abbrev pub missing_library : Library → DepStatus
  missing_library l = missing_dep l.name l.category l.install_hint

  abbrev pub ask_config : Library → Option DepStatus
  ask_config l = elim l.witness_file [
    | none ↦ none
    | some program ↦ elim (resolve program) [
      | none ↦ none
      | some path ↦
          some (found_dep l.name l.category (p.version_text_of path ("--version" ∷ [])) path)
    ]
  ]

  -- `PkgOrConfigTool.check`
  abbrev pub check_pkg_or_config : Library → DepStatus
  check_pkg_or_config l = elim (ask_config l) [
    | some dep ↦ dep
    | none ↦ or_default (ask_pkg_config l) (missing_library l)
  ]

  abbrev pub find_header : Library → DepStatus
  find_header l =
      let header = or_default l.witness_file "" in
      let first = "/usr/include/" <> header in
      let second = "/usr/local/include/" <> header in
      if p.exists first
      then found_dep l.name l.category none first
      else if p.exists second
      then found_dep l.name l.category none second
      else missing_library l

  -- `HeaderOrPkgTool.check`
  abbrev pub check_header_or_pkg : Library → DepStatus
  check_header_or_pkg l = or_default (ask_pkg_config l) (find_header l)

  abbrev pub check_libtool : DepStatus
  check_libtool = elim (resolve "libtool") [
    | none ↦ missing_dep "libtool" "Build" "apatchy setup libtool"
    | some path ↦ found_dep "libtool" "Build" (p.version_text_of path ("--version" ∷ [])) path
  ]

  -- `LlvmTool.detect`: the major version of the first compiler that tells one.
  abbrev pub first_version : List String → Option String
  first_version [] = none
  first_version (name ∷ names) = elim (resolve name) [
    | none ↦ first_version names
    | some path ↦ elim (p.major_version_of path) [
      | none ↦ first_version names
      | some version ↦ some version
    ]
  ]

  unfoldable pub detect_llvm : Option String
  detect_llvm = first_version candidates

  abbrev pub coverage_binary : String → String → Option String → List String → DepStatus
  coverage_binary name version fallback args = check_binary (record {
    name = name;
    category = "Coverage";
    install_hint = "apatchy setup llvm --llvm-version " <> version;
    fallback = fallback;
    version_args = args;
    exists_only = false;
  })

  abbrev pub check_llvm : Option String → List DepStatus
  check_llvm (some version) =
      coverage_binary ("llvm-profdata-" <> version) version (some "llvm-profdata")
        ("merge" ∷ "--version" ∷ [])
      ∷ coverage_binary ("llvm-cov-" <> version) version (some "llvm-cov") []
      ∷ []
  check_llvm none =
      coverage_binary "llvm-profdata" "18" none ("merge" ∷ "--version" ∷ [])
      ∷ coverage_binary "llvm-cov" "18" none []
      ∷ []

  -- `LpmTool._find_lpm`: the build in the toolchain first, then the directories of the system.
  abbrev pub lpm_dir : String
  lpm_dir = p.toolchain_dir <> "/libprotobuf-mutator"

  abbrev pub first_lib_dir : List String → Option String
  first_lib_dir [] = none
  first_lib_dir (dir ∷ dirs) =
      let rest = first_lib_dir dirs in
      if p.exists (dir <> "/libprotobuf-mutator.a")
      then some dir
      else if p.exists (dir <> "/libprotobuf-mutator.so")
      then some dir
      else rest

  abbrev pub find_lpm : Option String
  find_lpm =
      if p.exists (lpm_dir <> "/build/src/libprotobuf-mutator.a")
      then some lpm_dir
      else first_lib_dir ("/usr/lib" ∷ "/usr/lib/x86_64-linux-gnu" ∷ "/usr/local/lib" ∷ [])

  abbrev pub check_lpm : List DepStatus
  check_lpm =
      (elim (resolve "protoc") [
        | none ↦ missing_dep "protoc" "Fuzzing" "apt install protobuf-compiler"
        | some path ↦ found_dep "protoc" "Fuzzing" (p.version_text_of path ("--version" ∷ [])) path
      ])
      ∷ (elim (p.modversion "protobuf") [
        | none ↦ missing_dep "libprotobuf-dev" "Fuzzing" "apt install libprotobuf-dev"
        | some version ↦
            if version == ""
            then missing_dep "libprotobuf-dev" "Fuzzing" "apt install libprotobuf-dev"
            else found_dep "libprotobuf-dev" "Fuzzing" (some version) "pkg-config:protobuf"
      ])
      ∷ (elim find_lpm [
        | none ↦ missing_dep "libprotobuf-mutator" "Fuzzing" "apatchy setup lpm"
        | some path ↦ found_dep "libprotobuf-mutator" "Fuzzing" none path
      ])
      ∷ []

  -- `tool.check()`
  abbrev pub check_tool : Tool → List DepStatus
  check_tool (binary_tool b) = check_binary b ∷ []
  check_tool (pkg_or_config l) = check_pkg_or_config l ∷ []
  check_tool (header_or_pkg l) = check_header_or_pkg l ∷ []
  check_tool libtool = check_libtool ∷ []
  check_tool lpm = check_lpm
  check_tool llvm = check_llvm detect_llvm

  unfoldable pub check_tools : List Tool → List DepStatus
  check_tools [] = []
  check_tools (tool ∷ tools) = check_tool tool ++ check_tools tools
