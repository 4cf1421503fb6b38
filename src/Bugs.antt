-- ===== src/Bugs.antt =====
-- framework/src/apatchy/managers/bug_manager.py and bugs/base.py: the bugs, what a manifest says of
-- one, its setup and its reproduction. A manifest is the tables and keys that are read from it.
-- Parameters: the directories, what the classes of contributors do, and which calls succeed.
pub mod Ends
pub mod Linked
pub mod Setup
mod Tests
use apatchy.Base.{
  ℕ, String, ◌<>◌, Bool, true, false, not, ◌&&◌, ◌||◌, Option, none, some, List, [], ◌∷◌, ◌++◌,
  if◌then◌else◌, ◌==◌, string_eq, contains, ◌>>=◌, or_default, is_some, keep,
}
use apatchy.Base.Dict.{Dict, lookup}
use apatchy.Base.Text.{lower, upper, ends_with}
use apatchy.BuildTree.Text.{replace}
use apatchy.Flags.{ConfigManager, generate_build_config}
use apatchy.Build.{Host, find_tool, or_text}

-- The table `[bug]`.
pub record BugTable : Type 0 where
  pub id : Option String
  pub description : Option String
  pub version : Option String
  pub modules : Option (List String)
  pub kind : Option String

-- A manifest: the table `[bug]`, and the keys of `[build]` and `[reproduce]`.
pub record Manifest : Type 0 where
  pub table : Option BugTable
  pub sanitizers : Option (List String)
  pub configure_flags : Option (List String)
  pub harness : Option String
  pub suppress : Option String
  pub timeout : Option ℕ

-- What the class in a contributor's bug.py overrides.
pub record Overrides : Type 0 where
  pub configure_flags : Option (List String)
  pub custom_setup : Bool
  pub custom_seeds : Bool
  pub custom_reproduce : Bool

-- A directory under bugs/: its manifest if there is a bug.toml, `none` inside where that cannot be
-- parsed; the class of its bug.py, if one is loaded; and whether there is a gen_seed.py.
pub record BugDir : Type 0 where
  pub toml : Option (Option Manifest)
  pub plugin : Option Overrides
  pub gen_seed : Bool

abbrev pub BugsDir : Type 0
BugsDir = Dict String BugDir

abbrev pub id_of : Option BugTable → String
id_of none = ""
id_of (some t) = or_default t.id ""

-- Whether a directory is the one for an id in upper case.
abbrev pub has_id : String → Option (Option Manifest) → Bool
has_id wanted (some (some m)) = upper (id_of m.table) == wanted
has_id wanted (some none) = false
has_id wanted none = false

abbrev pub scan_id : String → BugsDir → Option String
scan_id wanted [] = none
scan_id wanted ((name, d) ∷ dirs) =
    let rest = scan_id wanted dirs in if has_id wanted d.toml then some name else rest

-- `_resolve_bug_dir`, for an id that is not empty; `none` is the `FileNotFoundError`.
unfoldable pub resolve_bug_dir : String → BugsDir → Option String
resolve_bug_dir cve_id dirs =
    let normalised = replace "-" "_" (lower cve_id) in
    let dashed = lower cve_id in
    if is_some (lookup normalised dirs)
    then some normalised
    else if is_some (lookup dashed dirs)
    then some dashed
    else scan_id (upper cve_id) dirs

pub record Bug : Type 0 where
  pub dir : String
  pub manifest : Manifest
  pub plugin : Option Overrides
  pub gen_seed : Bool

-- `get_bug_instance`; `none` is the `FileNotFoundError`.
unfoldable pub get_bug_instance : String → BugsDir → Option Bug
get_bug_instance cve_id dirs = resolve_bug_dir cve_id dirs >>= λ name. lookup name dirs >>= λ d.
    d.toml >>= λ parsed. parsed >>= λ manifest.
    some (record { dir = name; manifest = manifest; plugin = d.plugin; gen_seed = d.gen_seed })

-- What `list_bugs` says of a bug.
pub record BugInfo : Type 0 where
  pub id : String
  pub description : String
  pub modules : List String
  pub version : String
  pub kind : String
  pub dir : String

abbrev pub info : String → Option BugTable → BugInfo
info name none = record {
  id = name;
  description = "";
  modules = [];
  version = "";
  kind = "";
  dir = name;
}
info name (some t) = record {
  id = or_default t.id name;
  description = or_default t.description "";
  modules = or_default t.modules [];
  version = or_default t.version "";
  kind = or_default t.kind "";
  dir = name;
}

-- On the directories with a bug.toml in the order of their names.
unfoldable pub list_bugs : List (String × Option Manifest) → List BugInfo
list_bugs [] = []
list_bugs ((name, none) ∷ bugs) = list_bugs bugs
list_bugs ((name, some m) ∷ bugs) = info name m.table ∷ list_bugs bugs

-- `manifest["bug"][key]`; `none` is the `KeyError`.
abbrev pub cve_id_of : Bug → Option String
cve_id_of b = b.manifest.table >>= λ t. t.id

abbrev pub version_of_bug : Bug → Option String
version_of_bug b = b.manifest.table >>= λ t. t.version

abbrev pub sanitizers_of : Bug → List String
sanitizers_of b = or_default b.manifest.sanitizers ("asan" ∷ [])

abbrev pub triage_timeout : Bug → ℕ
triage_timeout b = or_default b.manifest.timeout 30

-- `suppress_file`, with the paths of a name in the bug's directory and in configs/.
unfoldable pub suppress_file : (String → Bool) → String → Bug → Option String
suppress_file exists root b = elim b.manifest.suppress [
  | none ↦ none
  | some name ↦
      let here = root <> ("/bugs/" <> (b.dir <> ("/" <> name))) in
      let configs = root <> ("/configs/" <> name) in
      if name == ""
      then none
      else if exists here
      then some here
      else if exists configs
      then some configs
      else some name
]

-- The flags of a subclass that overrides them.
abbrev pub overridden_flags : Option Overrides → Option (List String)
overridden_flags none = none
overridden_flags (some o) = o.configure_flags

abbrev pub configure_flags_of : Bug → List String
configure_flags_of b = elim (overridden_flags b.plugin) [
  | some flags ↦ flags
  | none ↦ or_default b.manifest.configure_flags []
]
