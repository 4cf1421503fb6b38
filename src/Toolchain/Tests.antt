-- ===== src/Toolchain/Tests.antt =====
-- The toolchain file on concrete data, and its theorems at concrete inputs.
use apatchy.Base.{◌≡◌, refl, some, none, [], ◌∷◌, string_eq, ◌==◌, ◌||◌, if◌then◌else◌}
use apatchy.Base.Text.{lower, strip}
use apatchy.Toolchain.{
  Host, Cfg, get, load, path_valid, usable, resolve_tool, is_override, update_section, scan,
  ensure_section, set_option,
}
use apatchy.Toolchain.Update.{update_section_idem}
use apatchy.Toolchain.Resolve.{resolve_tool-first}

abbrev host : Host
host = record {
  exists = λ p. p == "/opt/clang" || p == "/usr/lib/llvm-18/bin/clang";
  which = λ name. if name == "clang" then some "/usr/bin/clang" else none;
}

abbrev stale : Cfg
stale =
    ("build", ("clang", "/gone/clang") ∷ ("make", "") ∷ [])
    ∷ ("coverage", ("clang", "/opt/clang") ∷ [])
    ∷ []

-- The stale path of the first section is passed over.
second_section : resolve_tool host stale "CLANG" none ≡ some "/opt/clang"
unfolding resolve_tool scan load get lower usable path_valid string_eq ensure_section
second_section = refl

from_path : resolve_tool host [] "clang" (some "build") ≡ some "/usr/bin/clang"
unfolding resolve_tool scan load get lower usable path_valid string_eq ensure_section
from_path = refl

updated :
    get "coverage" "clang"
      (update_section host "coverage" (("clang", "/x") ∷ ("Dot", "/dot") ∷ []) stale)
    ≡ some "/opt/clang"
unfolding update_section is_override get lower path_valid string_eq ensure_section load strip
    set_option
updated = refl

update_section_idem_example :
    get "build" "make" (
      update_section host "build"
        (("make", "/m") ∷ [])
        (update_section host "build" (("make", "/m") ∷ []) stale))
    ≡ get "build" "make" (update_section host "build" (("make", "/m") ∷ []) stale)
update_section_idem_example =
    update_section_idem host "build" "build" "make" (("make", "/m") ∷ []) stale

resolve_tool-first_example : resolve_tool host stale "clang" none ≡ some "/opt/clang"
unfolding get usable lower path_valid string_eq
resolve_tool-first_example =
    resolve_tool-first host "clang" "/opt/clang" "coverage" stale ("build" ∷ "fuzzing" ∷ [])
      ("libraries" ∷ "profiling" ∷ "gui" ∷ "docs" ∷ []) refl (refl, (refl, tt)) refl
