-- ===== src/Dispatch/Clean.antt =====
-- `_handle_clean` of method_dispatcher.py: which files a clean removes. A bug is cleaned as `Bug.clean`
-- of bugs/base.py does it, which a class of a contributor may override.
use apatchy.Base.{
  String, Bool, true, false, not, ◌≡◌, refl, ◌∙◌, ◌&&◌, ◌||◌, none, some, List, [], ◌∷◌,
  if◌then◌else◌, ◌==◌, string_eq, parts_eq, contains, is_some, keep, any, arith,
}
use apatchy.Base.Text.{starts_with, ends_with, strip, lower}
use apatchy.Downloader.{Parts, below}
use apatchy.Bugs.{BugsDir, BugInfo, Bug, get_bug_instance}

-- The paths in the work directory, each with whether it is a directory.
abbrev pub Paths : Type 0
Paths = List (Parts × Bool)

-- The patterns and the directories that are always cleaned.
unfoldable pub is_artifact : Parts → Bool
is_artifact [] = false
is_artifact (name ∷ []) =
    starts_with name "fuzz_harness_"
    || ends_with name ".profraw"
    || ends_with name ".profdata"
    || starts_with name "coverage-report"
    || contains
        ("introspect.json" ∷ ".objects" ∷ "fuzz-output" ∷ "modules" ∷ ".libs" ∷ ".proto_gen"
          ∷ "coverage-report" ∷ "callgrind-out" ∷ "introspect-report" ∷ [])
        name
is_artifact (dir ∷ name ∷ []) =
    (dir == "fuzz-seeds" && starts_with name "grammar_" && ends_with name ".txt")
    || (dir == "conf" && not (name == "mime.types"))
is_artifact (_ ∷ _ ∷ _ ∷ _) = false

-- What `--all` adds.
unfoldable pub is_state : Parts → Bool → Bool
is_state [] is_dir = false
is_state (name ∷ []) is_dir =
    contains ("toolchain.config" ∷ "toolchain" ∷ ".test_cache" ∷ "dev" ∷ []) name
    || (is_dir && starts_with name "httpd-")
is_state (dir ∷ name ∷ []) is_dir = dir == "introspector" && name == "build"
is_state (_ ∷ _ ∷ _ ∷ _) is_dir = false

abbrev pub is_target : Bool → Parts → Bool → Bool
is_target all p is_dir = is_artifact p || (all && is_state p is_dir)

-- The set of the targets.
abbrev pub targets : Bool → Paths → List Parts
targets all [] = []
targets all ((p, is_dir) ∷ paths) =
    let rest = targets all paths in if is_target all p is_dir then p ∷ rest else rest

-- `shutil.rmtree` of a directory, `unlink` of a file
abbrev pub remove_path : Parts → Paths → Paths
remove_path t paths = keep (λ q. not (is_some (below t q.0))) paths

abbrev pub remove_each : List Parts → Paths → Paths
remove_each [] paths = paths
remove_each (t ∷ ts) paths = remove_each ts (remove_path t paths)

-- `Bug.clean`
abbrev pub clean_bug : Bug → Paths → Paths
clean_bug b = remove_path ("bugs" ∷ b.dir ∷ "seeds" ∷ [])

-- The loop over the bugs, and whether it ends without a `FileNotFoundError`.
unfoldable pub clean_bugs : BugsDir → List BugInfo → Paths → Paths × Bool
clean_bugs dirs [] paths = (paths, true)
clean_bugs dirs (info ∷ infos) paths = elim (get_bug_instance info.id dirs) [
  | none ↦ (paths, false)
  | some bug ↦ clean_bugs dirs infos (clean_bug bug paths)
]

abbrev pub confirm_clean : String → BugsDir → List BugInfo → List Parts → Paths → Paths × Bool
confirm_clean answer dirs infos [] paths = (paths, true)
confirm_clean answer dirs infos (t ∷ ts) paths =
    if lower (strip answer) == "y"
    then clean_bugs dirs infos (remove_each (t ∷ ts) paths)
    else (paths, true)

-- `_handle_clean`, with the answer to the question, and the bugs that are listed.
unfoldable pub handle_clean : Bool → String → BugsDir → List BugInfo → Paths → Paths × Bool
handle_clean all answer dirs infos paths = confirm_clean answer dirs infos (targets all paths) paths

abbrev pub has_path : Parts → Paths → Bool
has_path p [] = false
has_path p ((q, is_dir) ∷ paths) = p == q || has_path p paths

pub has_path-remove_path :
    (t p : Parts) (paths : Paths)
    → is_some (below t p) ≡ false
    → has_path p (remove_path t paths) ≡ has_path p paths
has_path-remove_path t p [] h = refl
has_path-remove_path t p ((q, is_dir) ∷ paths) h =
    ground (arith, has_path-remove_path t p paths h, h)

pub has_path-remove_each :
    (ts : List Parts) (p : Parts) (paths : Paths)
    → any (λ t. is_some (below t p)) ts ≡ false
    → has_path p (remove_each ts paths) ≡ has_path p paths
has_path-remove_each [] p paths h = refl
has_path-remove_each (t ∷ ts) p paths h =
    has_path-remove_each ts p (remove_path t paths) (ground (arith, h))
    ∙ has_path-remove_path t p paths (ground (arith, h))
