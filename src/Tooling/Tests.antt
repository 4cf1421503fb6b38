-- ===== src/Tooling/Tests.antt =====
-- A host with some tools, and the theorems at concrete inputs.
use apatchy.Base.{
  String, Bool, true, false, ◌≡◌, refl, none, some, [], ◌∷◌, map, if◌then◌else◌, ◌==◌, ◌||◌,
  string_eq,
}
use apatchy.Base.Dict.{insert}
use apatchy.Base.Text.{lower, starts_with, strip}
use apatchy.Report.{candidates}
use apatchy.Toolchain.{
  ensure_section, force_update_section, get, is_override, load, path_valid, resolve_tool, scan,
  set_option, update_section, usable,
}
use apatchy.Tooling.{Probe, check_tools, detect_llvm, llvm, libtool}
use apatchy.Tooling.Groups.{check, group_deps, normalize_key, update_groups}
use apatchy.Tooling.Kept.{check-keeps}
use apatchy.Tooling.Registry.{binary}
use apatchy.Tooling.Setup.{collect_entries, register_binaries}

abbrev probe : Probe
probe = record {
  tools = record {
    exists = λ path. path == "/opt/make" || path == "/usr/bin/clang";
    which = λ name. if name == "clang" || name == "llvm-cov" then some "/usr/bin/clang" else none;
  };
  cfg = ("build", ("make", "/opt/make") ∷ ("clang", "/gone") ∷ []) ∷ [];
  version_text_of = λ path args. some "18.1";
  major_version_of = λ path. some "18";
  modversion = λ name. none;
  exists = λ path. false;
  toolchain_dir = "/t";
}

found_names :
    map {B = String × Bool}
      (λ d. (d.name, d.found))
      (check_tools probe (binary "make" "Build" "" ∷ libtool ∷ llvm ∷ []))
    ≡ ("make", true)
      ∷ ("libtool", false)
      ∷ ("llvm-profdata-18", false)
      ∷ ("llvm-cov-18 (via llvm-cov)", true)
      ∷ []
unfolding check_tools detect_llvm candidates resolve_tool scan load get lower usable path_valid
    ensure_section starts_with string_eq
found_names = refl

-- A path that is gone is replaced, and the key of a fallback is the name that it stands for.
checked_file :
    (get "build" "clang" (check probe (binary "clang" "Build" "" ∷ llvm ∷ [])).1
      ≡ some "/usr/bin/clang")
    × (get "coverage" "llvm-cov-18" (check probe (binary "clang" "Build" "" ∷ llvm ∷ [])).1
        ≡ some "/usr/bin/clang")
unfolding check group_deps update_groups normalize_key check_tools detect_llvm candidates
    resolve_tool scan load get lower usable path_valid ensure_section update_section is_override
    set_option strip insert starts_with string_eq
checked_file = (refl, refl)

registered :
    let file = register_binaries "18" (some (("clang-18", true) ∷ ("llvm-cov", true) ∷ [])) [] in
    (get "build" "clang" file ≡ some "/usr/lib/llvm-18/bin/clang-18")
    × (get "coverage" "llvm-cov" file ≡ some "/usr/lib/llvm-18/bin/llvm-cov")
unfolding register_binaries collect_entries force_update_section set_option ensure_section load get
    lower insert starts_with string_eq
registered = (refl, refl)

make_is_set : get "build" "make" probe.cfg ≡ some "/opt/make"
unfolding get lower string_eq
make_is_set = refl

make_is_override : is_override probe.tools (some "/opt/make") ≡ true
unfolding is_override path_valid starts_with strip string_eq
make_is_override = refl

check-keeps_example :
    get "build" "make" (check probe (binary "make" "Build" "" ∷ llvm ∷ [])).1 ≡ some "/opt/make"
check-keeps_example =
    check-keeps probe (binary "make" "Build" "" ∷ llvm ∷ []) "build" "make" "/opt/make" make_is_set
      make_is_override
