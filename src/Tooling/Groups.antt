-- ===== src/Tooling/Groups.antt =====
-- managers/toolchain_manager.py: `check`, which writes what it finds to the toolchain file.
use apatchy.Base.{
  String, not, ◌||◌, Option, none, some, List, [], ◌∷◌, if◌then◌else◌, ◌==◌, string_eq,
}
use apatchy.Base.Dict.{Dict, lookup, get_or, insert}
use apatchy.Base.Text.{starts_with}
use apatchy.Toolchain
use apatchy.Tooling.{DepStatus, Probe, Tool, check_tools}

-- `category_to_section`
abbrev pub category_to_section : Dict String String
category_to_section =
    ("Build", "build")
    ∷ ("Fuzzing", "fuzzing")
    ∷ ("Coverage", "coverage")
    ∷ ("Libraries", "libraries")
    ∷ ("Profiling", "profiling")
    ∷ ("GUI", "gui")
    ∷ ("Docs", "docs")
    ∷ []

-- `_normalize_key`: the name before " (via ".
unfoldable pub normalize_key : String → String
normalize_key String.[] = ""
normalize_key (String.◌∷◌ c s) =
    let rest = normalize_key s in
    if starts_with (String.◌∷◌ c s) " (via " then "" else String.◌∷◌ c rest

abbrev pub Groups : Type 0
Groups = Dict String (Dict String String)

abbrev pub add_dep : DepStatus → Option String → Groups → Groups
add_dep dep none groups = groups
add_dep dep (some section) groups =
    insert section (insert (normalize_key dep.name) dep.path (get_or section groups [])) groups

unfoldable pub group_deps : List DepStatus → Groups → Groups
group_deps [] groups = groups
group_deps (dep ∷ deps) groups = group_deps deps (
    if not dep.found || dep.path == ""
    then groups
    else add_dep dep (lookup dep.category category_to_section) groups)

unfoldable pub update_groups : Toolchain.Host → Groups → Toolchain.Cfg → Toolchain.Cfg
update_groups h [] file = file
update_groups h ((section, entries) ∷ groups) file =
    update_groups h groups (Toolchain.update_section h section entries file)

-- `ToolchainManager.check`: what is found, and the toolchain file behind it.
unfoldable pub check : Probe → List Tool → List DepStatus × Toolchain.Cfg
check p tools =
    let deps = check_tools p tools in (deps, update_groups p.tools (group_deps deps []) p.cfg)
