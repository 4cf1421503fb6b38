-- ===== src/Report.antt =====
-- framework/src/apatchy/managers/report_manager.py: the tools of one LLVM version that a coverage
-- report needs, the symbolizer of a triage, and the directories whose files are replayed.
-- Parameters: what a compiler prints of its version, and the disk.
pub mod Tools
pub mod Analysis
pub mod Annotate
pub mod Lines
pub mod Edges
pub mod Merge
pub mod Sites
pub mod Covered
pub mod Document
pub mod Triage
pub mod Coverage
pub mod Introspect
pub mod Symbolizer
mod Tests
mod DocumentTests
use apatchy.Base.{
  ℕ, zero, suc, ◌+◌, ◌/◌, ◌%◌, String, ◌<>◌, Bool, true, false, not, ◌&&◌, Option, none, some, List,
  [], ◌∷◌, ◌++◌, if◌then◌else◌, leb, ◌==◌, nat_eq, string_eq, get_elem?, or_default, any,
}
use apatchy.Base.Decimal.{decimal}
use apatchy.Base.Dict.{Dict, lookup}
use apatchy.Base.Text.{starts_with, split_on, int}
use apatchy.Toolchain
use apatchy.Introspector.{clang_major_version}

-- What `resolve_tool` looks at, what a compiler prints for `--version`, `Path(p).is_file()`,
-- `Path(p).parent` and `/`
pub record Host : Type 0 where
  pub tools : Toolchain.Host
  pub cfg : Toolchain.Cfg
  pub version_output : String → Option String
  pub is_file : String → Bool
  pub parent : String → String
  pub slash : String → String → String

pub record Triple : Type 0 where
  pub profdata : String
  pub cov : String
  pub cc : String

abbrev pub pair_of : Option String → Option String → String → Option Triple
pair_of (some profdata) (some cov) cc = some (record { profdata = profdata; cov = cov; cc = cc })
pair_of _ _ cc = none

-- `clang-20` down to `clang-11`, and `clang`
unfoldable pub candidates : List String
candidates =
    "clang-20" ∷ "clang-19" ∷ "clang-18" ∷ "clang-17" ∷ "clang-16" ∷ "clang-15" ∷ "clang-14"
    ∷ "clang-13" ∷ "clang-12" ∷ "clang-11" ∷ "clang" ∷ []

module _ (h : Host) where
  abbrev pub find : String → Option String → Option String
  find name section = Toolchain.resolve_tool h.tools h.cfg name section

  abbrev pub major_of : String → Option ℕ
  major_of cc = clang_major_version (h.version_output cc)

  -- The three places for a version: the section of the toolchain file, the directory of the
  -- compiler, and any section or the PATH.
  abbrev pub configured : String → ℕ → Option Triple
  configured cc major =
      pair_of (find ("llvm-profdata-" <> decimal major) (some "coverage"))
        (find ("llvm-cov-" <> decimal major) (some "coverage")) cc

  abbrev pub colocated : String → ℕ → Option Triple
  colocated cc major =
      let profdata = h.slash (h.parent cc) ("llvm-profdata-" <> decimal major) in
      let cov = h.slash (h.parent cc) ("llvm-cov-" <> decimal major) in
      if h.is_file profdata && h.is_file cov
      then some (record { profdata = profdata; cov = cov; cc = cc })
      else none

  abbrev pub on_path : String → ℕ → Option Triple
  on_path cc major =
      pair_of (find ("llvm-profdata-" <> decimal major) none)
        (find ("llvm-cov-" <> decimal major) none) cc

  abbrev pub first_triple : Option Triple → Option Triple → Option Triple
  first_triple none t = t
  first_triple (some s) t = some s

  -- The body of the loop, for a compiler that is found and tells its version.
  unfoldable pub tools_for : String → ℕ → Option Triple
  tools_for cc major =
      first_triple (configured cc major) (first_triple (colocated cc major) (on_path cc major))

  abbrev pub try_candidate : String → Option Triple
  try_candidate name = elim (find name none) [
    | none ↦ none
    | some cc ↦ elim (major_of cc) [ none ↦ none | some major ↦ tools_for cc major ]
  ]

  abbrev pub detect : List String → Option Triple
  detect [] = none
  detect (name ∷ names) = first_triple (try_candidate name) (detect names)

  -- `none` is the `FileNotFoundError`.
  unfoldable pub detect_llvm_toolchain : Option Triple
  detect_llvm_toolchain = detect candidates

  -- `candidates.setdefault(ver, os.path.join(d, name))`
  abbrev pub set_default : ℕ → String → Dict ℕ String → Dict ℕ String
  set_default ver path found = elim (lookup ver found) [
    | none ↦ found ++ (ver, path) ∷ []
    | some old ↦ found
  ]

  -- `name.split("-")[-1]`
  abbrev last_word : List String → String
  last_word [] = ""
  last_word (word ∷ []) = word
  last_word (word ∷ next ∷ words) = last_word (next ∷ words)

  unfoldable pub version_of : String → Option ℕ
  version_of name =
      if starts_with name "llvm-symbolizer-" then int (last_word (split_on 45 name)) else none

  abbrev pub scan_names : String → List String → Dict ℕ String → Dict ℕ String
  scan_names dir [] found = found
  scan_names dir (name ∷ names) found = elim (version_of name) [
    | none ↦ scan_names dir names found
    | some ver ↦ scan_names dir names (set_default ver (h.slash dir name) found)
  ]

  -- The directories of the PATH that can be listed, with the names in each.
  abbrev pub scan_path : List (String × List String) → Dict ℕ String → Dict ℕ String
  scan_path [] found = found
  scan_path ((dir, names) ∷ dirs) found = scan_path dirs (scan_names dir names found)

  -- The entry with the lowest version.
  abbrev pub lowest : ℕ × String → Dict ℕ String → ℕ × String
  lowest best [] = best
  lowest best (item ∷ items) = lowest (if leb best.0 item.0 then best else item) items

  abbrev pub lowest_path : Dict ℕ String → Option String
  lowest_path [] = none
  lowest_path (item ∷ items) = some (lowest item items).1

  -- The last step: the version of the compiler, or the lowest one.
  unfoldable pub choose : Option ℕ → Dict ℕ String → Option String
  choose none found = lowest_path found
  choose (some ver) found = elim (lookup ver found) [
    | none ↦ lowest_path found
    | some path ↦ some path
  ]

  abbrev pub versioned : Option ℕ → Option String
  versioned none = none
  versioned (some ver) = find ("llvm-symbolizer-" <> decimal ver) none

  -- With the version of the compiler, which is `none` for 0 and where it is not known.
  unfoldable pub find_llvm_symbolizer : Option ℕ → List (String × List String) → Option String
  find_llvm_symbolizer compiler_ver dirs = elim (find "llvm-symbolizer" none) [
    | some path ↦ some path
    | none ↦ elim (versioned compiler_ver) [
      | some path ↦ some path
      | none ↦ elim (find "llvm-symbolizer" none) [
        | some plain ↦ some plain
        | none ↦ choose compiler_ver (scan_path dirs [])
      ]
    ]
  ]

-- A child of the corpus directory, or the directory itself.
pub record Dir : Type 0 where
  pub path : String
  pub is_dir : Bool
  pub has_queue : Bool
  pub has_crashes : Bool
  pub has_files : Bool

abbrev pub instances_of : List Dir → List Dir
instances_of [] = []
instances_of (child ∷ children) =
    let rest = instances_of children in
    if child.is_dir && child.has_queue then child ∷ rest else rest

-- The queue of each instance, and its crashes if there are any.
abbrev pub replay_dirs : List Dir → List String
replay_dirs [] = []
replay_dirs (inst ∷ insts) =
    (inst.path <> "/queue")
    ∷ ((if inst.has_crashes then (inst.path <> "/crashes") ∷ [] else []) ++ replay_dirs insts)

-- With the directory, if it exists, and its children in their order.
unfoldable pub collect_corpus_dirs : Option Dir → List Dir → List String
collect_corpus_dirs none children = []
collect_corpus_dirs (some corpus) children = elim (instances_of children) [
  | inst ∷ insts ↦ replay_dirs (inst ∷ insts)
  | [] ↦
      if corpus.has_queue
      then replay_dirs (corpus ∷ [])
      else if corpus.has_files
      then corpus.path ∷ []
      else []
]
