-- ===== src/Tooling/Registry.antt =====
-- core/toolchain/registry.py: the tools, and the index of their names that `setup` looks in.
use apatchy.Base.{
  String, Bool, true, false, Option, none, some, List, [], ◌∷◌, ◌<>◌, if◌then◌else◌, string_eq,
}
use apatchy.Base.Dict.{Dict, lookup, insert}
use apatchy.Tooling.{
  Library, Tool, binary_tool, header_or_pkg, libtool, llvm, lpm, tool_name, pkg_or_config,
}

abbrev pub binary : String → String → String → Tool
binary name category hint = binary_tool (record {
  name = name;
  category = category;
  install_hint = hint;
  fallback = none;
  version_args = [];
  exists_only = false;
})

abbrev pub viewer : String → String → Tool
viewer name hint = binary_tool (record {
  name = name;
  category = "Profiling";
  install_hint = hint;
  fallback = none;
  version_args = [];
  exists_only = true;
})

abbrev pub library : String → Option String → String → Library
library name witness_file pkg_name = record {
  name = name;
  category = "Libraries";
  install_hint = "apt install " <> name;
  witness_file = witness_file;
  pkg_name = pkg_name;
}

-- `build_registry`
unfoldable pub build_registry : Bool → List Tool
build_registry is_wsl =
    binary "clang" "Build" "apatchy setup --force llvm --llvm-version 18"
    ∷ binary "make" "Build" "apt install make"
    ∷ binary "cmake" "Build" "apt install cmake"
    ∷ binary "bear" "Build" "apt install bear"
    ∷ binary "pkg-config" "Build" "apt install pkg-config"
    ∷ binary "autoconf" "Build" "apt install autoconf"
    ∷ libtool
    ∷ binary "doxygen" "Docs" "apt install doxygen"
    ∷ binary "dot" "Docs" "apt install graphviz"
    ∷ binary "protoc" "Build" "apt install protobuf-compiler"
    ∷ lpm
    ∷ llvm
    ∷ binary "valgrind" "Profiling" "apt install valgrind"
    ∷ (if is_wsl
        then viewer "qcachegrind.exe" "install QCachegrind on Windows"
        else viewer "kcachegrind" "apt install kcachegrind")
    ∷ binary "node" "GUI" "nvm install 22"
    ∷ binary "npm" "GUI" "nvm install 22"
    ∷ pkg_or_config (library "libpcre2-dev" (some "pcre2-config") "libpcre2")
    ∷ pkg_or_config (library "zlib1g-dev" none "zlib")
    ∷ pkg_or_config (library "libxml2-dev" (some "xml2-config") "libxml-2.0")
    ∷ header_or_pkg (library "libexpat1-dev" (some "expat.h") "expat")
    ∷ header_or_pkg (library "uuid-dev" (some "uuid/uuid.h") "uuid")
    ∷ pkg_or_config (library "libssl-dev" none "openssl")
    ∷ pkg_or_config (library "libprotobuf-dev" none "protobuf")
    ∷ []

-- `build_name_index`
abbrev pub add_names : List Tool → Dict String Tool → Dict String Tool
add_names [] index = index
add_names (tool ∷ tools) index = add_names tools (insert (tool_name tool) tool index)

unfoldable pub build_name_index : List Tool → Dict String Tool
build_name_index registry = add_names registry []

-- `self._index.get(tool_name)` of `setup`
unfoldable pub tool_named : Bool → String → Option Tool
tool_named is_wsl name = lookup name (build_name_index (build_registry is_wsl))
