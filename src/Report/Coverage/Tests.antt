-- ===== src/Report/Coverage/Tests.antt =====
-- A coverage run on concrete files, and the theorems at concrete inputs.
use apatchy.Base.{
  String, true, false, ◌≡◌, refl, none, some, [], ◌∷◌, if◌then◌else◌, ◌==◌, string_eq,
}
use apatchy.Base.Text.{has_text, starts_with, split, split_on, strip}
use apatchy.Report.{Triple}
use apatchy.Report.Coverage.{
  CorpusDir, CoveragePaths, CoverageRun, HarnessFiles, build_coverage_harness, built, exclusions,
  excludes, generate_coverage, kept, profile_flags, replay_command, replay_corpus_proto, replayed,
  source_filters, stamp_harness,
}
use apatchy.Report.Coverage.Modules.{build_coverage_modules, built_dirs, built_files}
use apatchy.Report.Coverage.Cache.{build_coverage_harness-again}
use apatchy.Report.Coverage.Pipeline.{Ran, all_commands, generate_coverage-Ran, is_ready, reach}

abbrev files : HarnessFiles
files = record { has_tree = true; harness_time = none; libmain_time = some 5; stamp = none }

abbrev new_files : HarnessFiles
new_files = record {
  has_tree = true;
  harness_time = some 9;
  libmain_time = some 5;
  stamp = some "http";
}

first_build : build_coverage_harness (some (some 9)) (some "http") files ≡ built new_files
unfolding build_coverage_harness
first_build = refl

plain_name : strip "http" ≡ "http"
unfolding strip string_eq
plain_name = refl

abbrev queue : CorpusDir
queue = record {
  path = "out/queue";
  name = "queue";
  exists = true;
  entries = ("a", true) ∷ (".state", true) ∷ ("sub", false) ∷ [];
}

abbrev crashes : CorpusDir
crashes = record {
  path = "out/crashes";
  name = "crashes";
  exists = true;
  entries = ("c", true) ∷ [];
}

-- The files of a directory of crashes are counted, though it is not replayed.
only_crashes : replay_corpus_proto "h" "p" (crashes ∷ []) ≡ (
  1,
  some ("h" ∷ "-runs=0" ∷ "-keep_going=1000000" ∷ "-artifact_prefix=p/replay-crashes/" ∷ []),
)
unfolding replay_corpus_proto replayed has_text starts_with string_eq
only_crashes = refl

filters :
    (source_filters (some "  a.c\n\nb.h ") ≡ "--ignore-filename-regex=a.c|b.h" ∷ [])
    × (profile_flags "-g  -fsanitize=address -O0 -fno-sanitize=x" ≡ "-g -O0")
unfolding split_on strip profile_flags split starts_with string_eq
filters = (refl, refl)

abbrev paths : CoveragePaths
paths = record { harness = "h"; prof_dir = "p"; merged_profdata = "m"; html_dir = "html" }

abbrev tools : Triple
tools = record { profdata = "profdata"; cov = "cov"; cc = "clang" }

abbrev run : CoverageRun
run = record {
  toolchain = some tools;
  dirs = queue ∷ crashes ∷ [];
  harness = built new_files;
  modules = "x.so" ∷ [];
  config = some "fuzz.conf";
  profraw_files = "1.profraw" ∷ [];
  merge_succeeds = true;
  exclude = excludes "t";
  show_succeeds = true;
  with_introspect = true;
  report_succeeds = false;
}

completed : (generate_coverage paths run).is_complete ≡ true
unfolding generate_coverage replay_corpus_proto replayed has_text starts_with split_on strip
    string_eq
completed = refl

modules :
    build_coverage_modules true "m"
      (record { stem = "a"; path = "e/a.c"; compiles = true }
        ∷ record { stem = "b"; path = "e/b.c"; compiles = false }
        ∷ [])
      (record {
        name = "d";
        path = "e/d";
        has_build_script = true;
        script_succeeds = true;
        has_output = true;
      }
        ∷ [])
    ≡ "m/a.so" ∷ "m/d.so" ∷ []
unfolding build_coverage_modules built_files built_dirs
modules = refl

build_coverage_harness-again_example : build_coverage_harness none (some "http2") new_files ≡ (
    if ◌==◌ {A = String} "http" "http2"
    then kept new_files
    else stamp_harness "http2" new_files none)
build_coverage_harness-again_example =
    build_coverage_harness-again (some (some 9)) none (some "http") (some "http2") files new_files
      first_build refl plain_name

generate_coverage-Ran_example :
    Ran run
      (all_commands paths run tools (replay_command "h" "p" run.dirs) (exclusions run.exclude))
      (if is_ready run then reach run else 0)
      (generate_coverage paths run)
generate_coverage-Ran_example = generate_coverage-Ran paths run tools refl
