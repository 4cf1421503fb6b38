-- ===== src/Dispatch.antt =====
-- framework/src/apatchy/method_dispatcher.py: which tree a command works on, and the commands that
-- configure Apache, build a branch of it and link a harness against that.
pub mod Clean
pub mod Kept
pub mod Pipeline
pub mod Commands
mod Tests
mod CommandTests
use apatchy.Base.{
  String, ◌<>◌, Bool, true, false, not, ◌||◌, Option, none, some, List, [], ◌∷◌, if◌then◌else◌,
  ◌==◌, string_eq, ◌>>=◌, or_default, keep,
}
use apatchy.Base.Dict.{Dict, lookup, insert}
use apatchy.Base.Text.{ends_with}
use apatchy.Flags.{ConfigManager, generate_build_config}
use apatchy.BuildTree.{Tree, Tools, Trees, TreeEvent, ensure_build}
use apatchy.Build.{Host, Root, configure_httpd}
use apatchy.Build.Meta.{BuildMeta, MetaFile, save, load}
use apatchy.Harness.{HarnessFlags, harness_flags}
use apatchy.Harness.Tags.{parse_config_vars}

-- Names of the trees that other commands make beside the root.
unfoldable pub is_branch : String → Bool
is_branch name =
    ends_with name "-cov"
    || (ends_with name "-standalone" || (ends_with name "-prof" || ends_with name "-lf"))

-- Whether the directory of the default version exists, and the names of the httpd-* directories.
unfoldable pub get_active_httpd : Bool → List String → Option String
get_active_httpd default_exists names =
    if default_exists
    then some "httpd-2.4.46"
    else elim (keep (λ name. not (is_branch name)) names) [
      | [] ↦ none
      | name ∷ rest ↦ elim rest [ [] ↦ some name | _ ∷ _ ↦ none ]
    ]

pub record Branch : Type 0 where
  pub files : Tree
  pub meta : Option MetaFile

-- A root under a name, its branches by their suffixes, and what was done to their trees.
pub record Workspace : Type 0 where
  pub name : String
  pub root : Root
  pub branches : Dict String Branch
  pub log : List TreeEvent

-- A command ends, reports an error and changes nothing, or raises an exception.
pub data CommandResult {ℓ} (A : Type ℓ) : Type ℓ where
  done : A → CommandResult A
  refused failed : CommandResult A

abbrev pub of_option {ℓ} : {A : Type ℓ} → Option A → CommandResult A
of_option none = failed
of_option (some a) = done a

-- The sanitizers of the command line.
pub record Switches : Type 0 where
  pub asan : Bool
  pub ubsan : Bool
  pub ubsan_ignorelist : Option String
  pub intsan : Bool
  pub truncsan : Bool

abbrev pub manager_of : String → Switches → ConfigManager
manager_of mode s = record {
  build_mode = mode;
  asan = s.asan;
  ubsan = s.ubsan;
  ubsan_ignorelist = s.ubsan_ignorelist;
  intsan = s.intsan;
  truncsan = s.truncsan;
}

abbrev pub switches_of : BuildMeta → Switches
switches_of m = record {
  asan = m.asan;
  ubsan = m.ubsan;
  ubsan_ignorelist = m.ubsan_ignorelist;
  intsan = m.intsan;
  truncsan = m.truncsan;
}

unfoldable pub mode_of : String → Option String
mode_of tree =
    if tree == "lf" then some "libfuzzer" else if tree == "cov" then some "coverage" else none

abbrev pub branch_files : Option Branch → Option Tree
branch_files none = none
branch_files (some b) = some b.files

abbrev pub meta_of : Option Branch → Option MetaFile
meta_of none = none
meta_of (some b) = b.meta

module _ (h : Host) (tools : String → Tools) where
  -- `_handle_configure`, on the workspace of the active httpd.
  unfoldable pub handle_configure : Switches → Workspace → Option Workspace
  handle_configure s w =
      configure_httpd h (tools "") w.name (manager_of "vanilla" s) [] w.root >>= λ root.
      some (record { name = w.name; root = root; branches = w.branches; log = w.log })

  -- The trees of a branch, for `AlternateBuildTree`.
  abbrev pub trees_of : String → Workspace → Trees
  trees_of tree w = record {
    root = w.root.files;
    alt = branch_files (lookup tree w.branches);
    log = w.log;
  }

  abbrev pub branch_meta : String → String → String → String → BuildMeta → BuildMeta
  branch_meta tree cc cflags ldflags m = record {
    tree = tree;
    cc = cc;
    cflags = cflags;
    ldflags = ldflags;
    asan = m.asan;
    ubsan = m.ubsan;
    ubsan_ignorelist = m.ubsan_ignorelist;
    intsan = m.intsan;
    truncsan = m.truncsan;
    httpd_version = m.httpd_version;
    config_hash = m.config_hash;
  }

  -- The workspace with the branch that was built, and its metadata.
  abbrev pub with_branch : String → MetaFile → Workspace → Trees → Option Workspace
  with_branch tree meta w built = built.alt >>= λ files. some (record {
    name = w.name;
    root = w.root;
    branches = insert tree (record { files = files; meta = some meta }) w.branches;
    log = built.log;
  })

  -- The part of `_handle_compile` after the metadata of the root is loaded.
  unfoldable pub build_branch : String → BuildMeta → Workspace → Option Workspace
  build_branch tree m w =
      let cc = or_default h.disk.clang "clang" in
      mode_of tree >>= λ mode.
      generate_build_config h.disk h.packaging (manager_of mode (switches_of m))
        (some m.httpd_version)
      >>= λ config. ensure_build (tools tree) cc config.0 config.1 (trees_of tree w) >>= λ built.
          with_branch tree (save (branch_meta tree cc config.0 config.1 m)) w built

  -- `_handle_compile` for a branch.
  unfoldable pub handle_compile : String → Workspace → CommandResult Workspace
  handle_compile tree w = elim w.root.meta [
    | none ↦ refused
    | some meta ↦ of_option (load (some meta) >>= λ m. build_branch tree m w)
  ]

  -- The flags that `_handle_link` reads from the metadata.
  abbrev pub meta_flags : Option MetaFile → Option HarnessFlags
  meta_flags none = some (record { cflags = ""; ldflags = "" })
  meta_flags (some meta) =
      load (some meta) >>= λ m. some (record { cflags = m.cflags; ldflags = m.ldflags })

  abbrev pub link_mode : String → String
  link_mode tree = if tree == "cov" then "coverage" else "libfuzzer"

  -- `_handle_link` for a C harness in a directory, with its `@ldflags`: the flags that it is compiled
  -- and linked with.
  unfoldable pub handle_link :
      String → String → Option String → Workspace → CommandResult HarnessFlags
  handle_link tree harness_dir extra w = elim (lookup tree w.branches) [
    | none ↦ refused
    | some branch ↦ of_option (
        meta_flags branch.meta >>= λ f. some (
          harness_flags (link_mode tree) harness_dir extra
            (parse_config_vars (lookup "build/config_vars.mk" branch.files)) f))
  ]
