-- ===== src/Report/Triage.antt =====
-- managers/report_manager.py: the triage of crashes: its environment, what is read from the output of a
-- sanitizer, and the counts of `triage_bulk`.
-- Parameters: the environment, what exists on the disk, the names of signals, and how each run ends.
pub mod Labels
pub mod Counts
mod Tests
use apatchy.Base.{
  ℕ, zero, suc, ◌+◌, String, ◌<>◌, Bool, true, false, not, ◌&&◌, ◌||◌, Option, none, some, List, [],
  ◌∷◌, ◌++◌, map, if◌then◌else◌, leb, eqb, ◌==◌, string_eq, contains, or_default, ◌>>=◌,
}
use apatchy.Base.Decimal.{decimal}
use apatchy.Base.Dict.{Dict, lookup, get_or, insert}
use apatchy.Base.Text.{starts_with, split_on, join, is_space}
use apatchy.Build.Version.{remove_prefix}
use apatchy.Picker.{ℤ, pos, negsuc}
use Prim.Native.Char.{Char, code}

abbrev pub Env : Type 0
Env = Dict String String

-- `config_path`, and the file of `--suppress` with whether it exists.
pub record TriageSetup : Type 0 where
  pub environ : Env
  pub config_path : Option String
  pub suppress : Option (String × Bool)
  pub work_dir : String
  pub symbolizer : Option String
  pub no_color : Bool

-- The options of a sanitizer, with one more.
abbrev pub append_option : String → String → Env → Env
append_option key option env =
    let existing = get_or key env "" in
    insert key (if existing == "" then option else existing <> (":" <> option)) env

abbrev pub with_symbolizer : Option String → Env → Env
with_symbolizer none env = env
with_symbolizer (some path) env = if path == "" then env else insert "ASAN_SYMBOLIZER_PATH" path env

abbrev pub with_suppressions : Option (String × Bool) → Env → Env
with_suppressions none env = env
with_suppressions (some (path, _)) env = append_option "UBSAN_OPTIONS" ("suppressions=" <> path) env

abbrev pub color_options : String → Env → Env
color_options color env =
    append_option "LSAN_OPTIONS" color
      (append_option "UBSAN_OPTIONS" color (append_option "ASAN_OPTIONS" color env))

abbrev pub base_env : TriageSetup → String → Env
base_env t config_path =
    with_symbolizer t.symbolizer
      (insert "FUZZ_ROOT" t.work_dir (insert "FUZZ_CONF" config_path t.environ))

-- `_triage_env`: `none` is a `FileNotFoundError`.
unfoldable pub triage_env : TriageSetup → Option Env
triage_env t = elim t.config_path [
  | none ↦ none
  | some config_path ↦
      let color = "color=" <> (if t.no_color then "never" else "always") in
      let colored = color_options color (base_env t config_path) in
      let options = get_or "UBSAN_OPTIONS" colored "" <> ":print_stacktrace=1:halt_on_error=1" in
      let env = with_suppressions t.suppress (insert "UBSAN_OPTIONS" options colored) in
      elim t.suppress [ none ↦ some env | some (path, exists) ↦ if exists then some env else none ]
]

-- `_BUG_LABELS`
abbrev pub bug_labels : Dict String String
bug_labels =
    ("heap-use-after-free", "UAF")
    ∷ ("heap-buffer-overflow", "heap-overflow")
    ∷ ("stack-buffer-overflow", "stack-overflow")
    ∷ ("global-buffer-overflow", "global-overflow")
    ∷ ("double-free", "double-free")
    ∷ ("SEGV", "SEGV")
    ∷ ("integer-overflow", "int-overflow")
    ∷ ("unsigned-integer-overflow", "int-overflow")
    ∷ ("stack-use-after-return", "use-after-return")
    ∷ ("use-after-poison", "use-after-poison")
    ∷ ("null-dereference", "null-deref")
    ∷ ("FPE", "FPE")
    ∷ ("requested-alignment", "alignment")
    ∷ ("alloc-dealloc-mismatch", "alloc-mismatch")
    ∷ []

-- `_format_exit`, with the names of the signals.
unfoldable pub format_exit : (ℕ → Option String) → ℤ → String
format_exit signals (pos n) = decimal n
format_exit signals (negsuc n) =
    or_default (signals (suc n)) "SIG?" <> ("(-" <> (decimal (suc n) <> ")"))

-- `_classify_bugs`, of the bug types that the SUMMARY lines name: each label once, in their order.
abbrev pub label_of : String → String
label_of raw = get_or raw bug_labels raw

unfoldable pub add_labels : List String → List String → List String
add_labels [] labels = labels
add_labels (raw ∷ raws) labels =
    add_labels raws
      (if contains labels (label_of raw) then labels else labels ++ (label_of raw ∷ []))

abbrev pub or_unknown : List String → String
or_unknown [] = "unknown"
or_unknown (label ∷ labels) = join ", " (label ∷ labels)

unfoldable pub classify_bugs : List String → String
classify_bugs raws = or_unknown (add_labels raws [])

-- `text.split(", ")`
abbrev pub push_front : Char → List String → List String
push_front c [] = String.◌∷◌ c "" ∷ []
push_front c (word ∷ words) = String.◌∷◌ c word ∷ words

abbrev pub is_comma : Char → Bool
is_comma c = eqb (code c) 44

abbrev pub is_blank : Char → Bool
is_blank c = eqb (code c) 32

unfoldable pub split_labels : String → List String
split_labels String.[] = "" ∷ []
split_labels (String.◌∷◌ c String.[]) = String.◌∷◌ c "" ∷ []
split_labels (String.◌∷◌ c (String.◌∷◌ d s)) =
    let skipped = split_labels s in
    let kept = split_labels (String.◌∷◌ d s) in
    if is_comma c && is_blank d then "" ∷ skipped else push_front c kept

-- How the run of a crash file ends: with a code and the output of the sanitizer; by the time limit; by
-- an exception.
pub data CrashRun : Type 0 where
  finished : ℤ → List String → String → CrashRun
  timed_out : CrashRun
  raised : String → CrashRun

abbrev pub is_zero : ℤ → Bool
is_zero (pos n) = eqb n 0
is_zero (negsuc n) = false

abbrev pub bug_type : ℤ → List String → String
bug_type returncode raws =
    let found = classify_bugs raws in
    if is_zero returncode && found == "unknown" then "ok" else found

abbrev pub Row : Type 0
Row = String × String × String × String

unfoldable pub row_of : (ℕ → Option String) → String → CrashRun → Row
row_of signals name (finished returncode raws site) =
    (name, bug_type returncode raws, site, format_exit signals returncode)
row_of signals name timed_out = (name, "timeout", "-", "-")
row_of signals name (raised message) = (name, "error: " <> message, "-", "-")

-- The labels that a run is counted under.
abbrev pub counted_under : CrashRun → List String
counted_under (finished returncode raws site) = split_labels (bug_type returncode raws)
counted_under timed_out = "timeout" ∷ []
counted_under (raised message) = "error" ∷ []

-- `bug_counts[label] += 1`
abbrev pub increment : String → Dict String ℕ → Dict String ℕ
increment label counts = insert label (suc (get_or label counts 0)) counts

abbrev pub increment_all : List String → Dict String ℕ → Dict String ℕ
increment_all [] counts = counts
increment_all (label ∷ labels) counts = increment_all labels (increment label counts)

pub record Bulk : Type 0 where
  pub results : List Row
  pub bug_counts : Dict String ℕ

-- The loop of `triage_bulk`, over the files in the order of their names.
unfoldable pub triage_files : (ℕ → Option String) → List (String × CrashRun) → Bulk → Bulk
triage_files signals [] b = b
triage_files signals ((name, run) ∷ files) b = triage_files signals files (record {
  results = b.results ++ (row_of signals name run ∷ []);
  bug_counts = increment_all (counted_under run) b.bug_counts;
})

-- The rows of the table: every result but those that are ok.
abbrev pub shown : List Row → List Row
shown [] = []
shown ((name, bug, site, code') ∷ rows) =
    let rest = shown rows in if bug == "ok" then rest else (name, bug, site, code') ∷ rest
