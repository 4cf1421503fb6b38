-- ===== src/Report/Triage/Tests.antt =====
-- A bulk triage on concrete runs, and what is shown of it at these.
use apatchy.Base.{
  ℕ, String, true, ◌≡◌, refl, Option, none, some, List, [], ◌∷◌, map, length, string_eq,
  if◌then◌else◌, eqb, ◌>>=◌,
}
use apatchy.Base.Decimal.{decimal}
use apatchy.Base.Dict.{get_or, insert, lookup}
use apatchy.Picker.{pos, negsuc}
use apatchy.Report.Triage.{
  Bulk, CrashRun, TriageSetup, add_labels, classify_bugs, finished, format_exit, raised, row_of,
  shown, split_labels, timed_out, triage_env, triage_files,
}
use apatchy.Report.Triage.Counts.{files_with, triage_files-counts}

abbrev signals : ℕ → Option String
signals n = if eqb n 6 then some "SIGABRT" else none

abbrev files : List (String × CrashRun)
files =
    ("a", finished (negsuc 5) ("SEGV" ∷ "integer-overflow" ∷ "SEGV" ∷ []) "0x1 (f)")
    ∷ ("b", timed_out)
    ∷ ("c", finished (pos 0) [] "-")
    ∷ ("d", finished (pos 1) ("unsigned-integer-overflow" ∷ []) "-")
    ∷ ("e", raised "no file")
    ∷ []

abbrev empty : Bulk
empty = record { results = []; bug_counts = [] }

rows :
    shown (triage_files signals files empty).results
    ≡ ("a", "SEGV, int-overflow", "0x1 (f)", "SIGABRT(-6)")
      ∷ ("b", "timeout", "-", "-")
      ∷ ("d", "int-overflow", "-", "1")
      ∷ ("e", "error: no file", "-", "-")
      ∷ []
unfolding triage_files row_of format_exit classify_bugs add_labels decimal string_eq
rows = refl

counts :
    (triage_files signals files empty).bug_counts
    ≡ ("SEGV", 1) ∷ ("int-overflow", 2) ∷ ("timeout", 1) ∷ ("ok", 1) ∷ ("error", 1) ∷ []
unfolding triage_files classify_bugs add_labels split_labels insert string_eq
counts = refl

abbrev env_setup : TriageSetup
env_setup = record {
  environ = ("UBSAN_OPTIONS", "verbosity=1") ∷ [];
  config_path = some "/c/fuzz.conf";
  suppress = some ("/s.txt", true);
  work_dir = "/w";
  symbolizer = none;
  no_color = true;
}

options :
    (triage_env env_setup >>= lookup "UBSAN_OPTIONS")
    ≡ some "verbosity=1:color=never:print_stacktrace=1:halt_on_error=1:suppressions=/s.txt"
unfolding triage_env insert string_eq
options = refl

triage_files-counts_example :
    let b = triage_files signals files empty in
    (b.results ≡ map (λ f. row_of signals f.0 f.1) files)
    × (get_or "int-overflow" b.bug_counts 0 ≡ length (files_with "int-overflow" files))
triage_files-counts_example = triage_files-counts signals files "int-overflow" refl
