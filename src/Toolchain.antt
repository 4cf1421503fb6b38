-- ===== src/Toolchain.antt =====
-- framework/src/apatchy/core/toolchain_config.py: the tool paths kept in `toolchain.config`.
-- The file is held by what `configparser` reads from it: sections, each with its options. The values
-- are paths: one line, no outer white space and no `%`, so that the parser's text format and its
-- interpolation give them back as they are. What exists on the disk and what `shutil.which` finds is
-- a `Host`.
pub mod Laws
pub mod Update
pub mod Resolve
mod Tests
use apatchy.Base.{
  ℕ, String, Bool, true, false, ◌&&◌, not, Option, none, some, List, [], ◌∷◌, if◌then◌else◌, ◌==◌,
  string_eq, is_some,
}
use apatchy.Base.Dict.{Dict, lookup, insert}
use apatchy.Base.Text.{starts_with, strip, lower}

pub record Host : Type 0 where
  pub exists : String → Bool
  pub which : String → Option String

abbrev pub Cfg : Type 0
Cfg = Dict String (Dict String String)

abbrev pub section_names : List String
section_names = "build" ∷ "fuzzing" ∷ "coverage" ∷ "libraries" ∷ "profiling" ∷ "gui" ∷ "docs" ∷ []

-- `cp.get(section, name, fallback=None)`: option names are folded to lower case by the parser.
unfoldable pub get : String → String → Cfg → Option String
get section name cp = elim (lookup section cp) [ none ↦ none | some d ↦ lookup (lower name) d ]

-- `if not cp.has_section(section): cp.add_section(section)`
unfoldable pub ensure_section : String → Cfg → Cfg
ensure_section section [] = (section, []) ∷ []
ensure_section section ((name, d) ∷ cp) =
    if section == name then (name, d) ∷ cp else (name, d) ∷ ensure_section section cp

-- `cp.set(section, key, value)`, for a section that is there
unfoldable pub set_option : String → String → String → Cfg → Cfg
unfolding insert
set_option section key value [] = []
set_option section key value ((name, d) ∷ cp) =
    if section == name
    then (name, insert (lower key) value d) ∷ cp
    else (name, d) ∷ set_option section key value cp

unfoldable pub ensure_all : List String → Cfg → Cfg
unfolding ensure_section
ensure_all [] cp = cp
ensure_all (section ∷ rest) cp = ensure_all rest (ensure_section section cp)

-- `load`, from what the file holds
unfoldable pub load : Cfg → Cfg
unfolding ensure_all
load file = ensure_all section_names file

-- `_path_valid`
unfoldable pub path_valid : Host → String → Bool
unfolding starts_with
path_valid h value =
    if starts_with value "pkg-config:" then is_some (h.which "pkg-config") else h.exists value

-- `value and _path_valid(value)`
unfoldable pub usable : Host → String → Bool
usable h value = not (value == "") && path_valid h value

-- The loop of `resolve_tool` over the sections. A section that is missing gives no value.
unfoldable pub scan : Host → String → List String → Cfg → Option String
scan h name [] cp = none
scan h name (section ∷ sections) cp =
    let rest = scan h name sections cp in
    elim (get section name cp) [
      | none ↦ rest
      | some value ↦ if usable h value then some value else rest
    ]

-- `[section] if section else list(SECTIONS)`
abbrev pub sections_of : Option String → List String
sections_of none = section_names
sections_of (some section) = if section == "" then section_names else section ∷ []

unfoldable pub resolve_tool : Host → Cfg → String → Option String → Option String
resolve_tool h file name section = elim (scan h name (sections_of section) (load file)) [
  | none ↦ h.which name
  | some value ↦ some value
]

unfoldable pub get_tool_path : Host → Cfg → String → Option String
get_tool_path h file name = resolve_tool h file name none

-- `existing and existing.strip() and _path_valid(existing)`
unfoldable pub is_override : Host → Option String → Bool
unfolding strip
is_override h none = false
is_override h (some value) = not (value == "") && (not (strip value == "") && path_valid h value)

-- The loop of `update_section`.
unfoldable pub merge_entries : Host → String → List (String × String) → Cfg → Cfg
merge_entries h section [] cp = cp
merge_entries h section ((key, value) ∷ entries) cp =
    merge_entries h section entries
      (if is_override h (get section key cp) then cp else set_option section key value cp)

-- What the file holds after `update_section`.
unfoldable pub update_section : Host → String → List (String × String) → Cfg → Cfg
unfolding merge_entries
update_section h section entries file =
    merge_entries h section entries (ensure_section section (load file))

-- The loop of `force_update_section`.
unfoldable pub set_entries : String → List (String × String) → Cfg → Cfg
set_entries section [] cp = cp
set_entries section ((key, value) ∷ entries) cp =
    set_entries section entries (set_option section key value cp)

-- What the file holds after `force_update_section`.
unfoldable pub force_update_section : String → List (String × String) → Cfg → Cfg
unfolding set_entries
force_update_section section entries file =
    set_entries section entries (ensure_section section (load file))
