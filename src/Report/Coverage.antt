-- ===== src/Report/Coverage.antt =====
-- managers/report_manager.py: `generate_coverage`, with the harness that it keeps from one run to the next
-- (`_build_coverage_harness`, `_build_profile_harness`) and the replay of the corpus.
-- Parameters: the times of the files, what `HarnessBuilder.build` leaves, the files of the corpus, and
-- whether a tool succeeds.
pub mod Cache
pub mod Pipeline
pub mod Modules
mod Tests
use apatchy.Base.{
  ℕ, zero, suc, ◌+◌, String, ◌<>◌, Bool, true, false, not, ◌&&◌, ◌||◌, Option, none, some, List, [],
  ◌∷◌, ◌++◌, map, if◌then◌else◌, ltb, eqb, ◌==◌, string_eq, length, keep, is_some, or_default,
}
use apatchy.Base.Dict.{Dict, insert}
use apatchy.Base.Text.{has_text, join, split, split_on, starts_with, strip}
use apatchy.Report.{Triple}

-- The tree of the harness, the times of the harness and of libmain.la where they exist, and the text of
-- the file that names the harness.
pub record HarnessFiles : Type 0 where
  pub has_tree : Bool
  pub harness_time : Option ℕ
  pub libmain_time : Option ℕ
  pub stamp : Option String

abbrev pub is_newer : Option ℕ → Option ℕ → Bool
is_newer (some harness) (some libmain) = ltb libmain harness
is_newer _ _ = false

abbrev pub is_stamped : Option String → String → Bool
is_stamped none name = false
is_stamped (some text) name = strip text == name

abbrev pub is_same_harness : String → HarnessFiles → Bool
is_same_harness name f = is_stamped f.stamp name && is_newer f.harness_time f.libmain_time

-- The harness that was there; one that is built; an exception, before or after a build.
pub data BuiltHarness : Type 0 where
  kept built : HarnessFiles → BuiltHarness
  no_tree : BuiltHarness
  not_built : BuiltHarness

-- After the build, with the time of the harness if it exists; `none` is an exception of the build.
abbrev pub stamp_harness : String → HarnessFiles → Option (Option ℕ) → BuiltHarness
stamp_harness name f none = not_built
stamp_harness name f (some none) = not_built
stamp_harness name f (some (some time)) =
    built (record f { harness_time = some time; stamp = some name })

-- `_build_coverage_harness`
unfoldable pub build_coverage_harness :
    Option (Option ℕ) → Option String → HarnessFiles → BuiltHarness
build_coverage_harness build harness_name f =
    let name = or_default harness_name "" in
    if not f.has_tree
    then no_tree
    else if is_same_harness name f
    then kept f
    else stamp_harness name f build

-- `harness_name or "mod_fuzzy_proto"`
abbrev pub profile_name : Option String → String
profile_name none = "mod_fuzzy_proto"
profile_name (some name) = if name == "" then "mod_fuzzy_proto" else name

-- `_build_profile_harness`, where the tree has been made or is `no_tree`
unfoldable pub build_profile_harness :
    Option (Option ℕ) → Option String → HarnessFiles → BuiltHarness
build_profile_harness build harness_name f =
    let name = profile_name harness_name in
    if not f.has_tree
    then no_tree
    else if is_same_harness name f
    then kept f
    else stamp_harness name f build

-- The flags of a profile build: those of the configuration without the sanitizers.
abbrev pub is_sanitizer_flag : String → Bool
is_sanitizer_flag t = starts_with t "-fsanitize" || starts_with t "-fno-sanitize"

unfoldable pub profile_flags : String → String
profile_flags flags = join " " (keep (λ t. not (is_sanitizer_flag t)) (split flags))

-- A directory to replay: its path and name, and its entries with whether they are files.
pub record CorpusDir : Type 0 where
  pub path : String
  pub name : String
  pub exists : Bool
  pub entries : List (String × Bool)

abbrev pub is_corpus_file : String × Bool → Bool
is_corpus_file (name, is_file) = is_file && not (name == ".state")

abbrev pub existing : List CorpusDir → List CorpusDir
existing dirs = keep (λ d. d.exists) dirs

abbrev pub count_files : List CorpusDir → ℕ
count_files [] = 0
count_files (d ∷ dirs) = length (keep is_corpus_file d.entries) + count_files dirs

-- The directories that the command names: none of crashes.
unfoldable pub replayed : List CorpusDir → List String
replayed dirs = map (λ d. d.path) (keep (λ d. not (has_text "crash" d.name)) (existing dirs))

abbrev pub replay_command : String → String → List CorpusDir → List String
replay_command harness prof_dir dirs =
    harness
    ∷ "-runs=0"
    ∷ "-keep_going=1000000"
    ∷ ("-artifact_prefix=" <> (prof_dir <> "/replay-crashes/"))
    ∷ replayed dirs

-- `_replay_corpus_proto`: the count that it returns, and its command if it runs one.
unfoldable pub replay_corpus_proto : String → String → List CorpusDir → ℕ × Option (List String)
replay_corpus_proto harness prof_dir dirs =
    let total = count_files (existing dirs) in
    if eqb total 0 then (0, none) else (total, some (replay_command harness prof_dir dirs))

abbrev pub replay_env : String → String → String → Dict String String → Dict String String
replay_env config work_dir prof_dir env =
    insert "LLVM_PROFILE_FILE" (prof_dir <> "/proto-cov-%p.profraw")
      (insert "FUZZ_ROOT" work_dir (insert "FUZZ_CONF" config env))

-- `source_filters`, with the text of the file of exclusions; lines end at a line feed.
abbrev pub source_filters : Option String → List String
source_filters none = []
source_filters (some text) = elim (keep (λ line. not (line == "")) (map strip (split_on 10 text))) [
  | [] ↦ []
  | line ∷ lines ↦ ("--ignore-filename-regex=" <> join "|" (line ∷ lines)) ∷ []
]

-- What the steps of `generate_coverage` find. `exclude`: no such file is given; the one that is given
-- does not exist; or its text.
pub data ExcludeFile : Type 0 where
  not_given no_such_file : ExcludeFile
  excludes : String → ExcludeFile

pub record CoverageRun : Type 0 where
  pub toolchain : Option Triple
  pub dirs : List CorpusDir
  pub harness : BuiltHarness
  pub modules : List String
  pub config : Option String
  pub profraw_files : List String
  pub merge_succeeds : Bool
  pub exclude : ExcludeFile
  pub show_succeeds : Bool
  pub with_introspect : Bool
  pub report_succeeds : Bool

pub record CoveragePaths : Type 0 where
  pub harness : String
  pub prof_dir : String
  pub merged_profdata : String
  pub html_dir : String

abbrev pub exclusions : ExcludeFile → Option (Option String)
exclusions not_given = some none
exclusions no_such_file = none
exclusions (excludes text) = some (some text)

abbrev pub merge_command : CoveragePaths → Triple → List String → List String
merge_command p t files =
    t.profdata ∷ "merge" ∷ "-sparse" ∷ (files ++ ("-o" ∷ p.merged_profdata ∷ []))

abbrev pub objects_of : List String → List String
objects_of modules = map (λ so. "--object=" <> so) modules

abbrev pub show_command : CoveragePaths → Triple → List String → List String → List String
show_command p t modules filters =
    t.cov
    ∷ "show"
    ∷ p.harness
    ∷ (objects_of modules
        ++ (("-instr-profile=" <> p.merged_profdata)
            ∷ "-format=html"
            ∷ ("-output-dir=" <> p.html_dir)
            ∷ "-show-line-counts-or-regions"
            ∷ "-show-instantiations=false"
            ∷ filters))

abbrev pub report_command : CoveragePaths → Triple → List String → List String → List String
report_command p t modules filters =
    t.cov
    ∷ "report"
    ∷ p.harness
    ∷ (objects_of modules ++ (("-instr-profile=" <> p.merged_profdata) ∷ filters))

-- The commands that were run, and whether the report is complete.
pub record Reported : Type 0 where
  pub commands : List (List String)
  pub is_complete : Bool

abbrev pub stops_after : List (List String) → Reported
stops_after commands = record { commands = commands; is_complete = false }

abbrev pub is_harness : BuiltHarness → Bool
is_harness (kept f) = true
is_harness (built f) = true
is_harness no_tree = false
is_harness not_built = false

-- The pages, and the summary unless the call tree is to follow.
abbrev pub show_pages :
    CoveragePaths → CoverageRun → Triple → List (List String) → Option (Option String) → Reported
show_pages p r t before none = stops_after before
show_pages p r t before (some text) =
    let filters = source_filters text in
    let shown = before ++ (show_command p t r.modules filters ∷ []) in
    let summed = shown ++ (report_command p t r.modules filters ∷ []) in
    if not r.show_succeeds
    then stops_after shown
    else if r.with_introspect
    then record { commands = shown; is_complete = true }
    else record { commands = summed; is_complete = r.report_succeeds }

abbrev pub merge_profiles : CoveragePaths → CoverageRun → Triple → List (List String) → Reported
merge_profiles p r t before =
    let merged = before ++ (merge_command p t r.profraw_files ∷ []) in
    let done = show_pages p r t merged (exclusions r.exclude) in
    if eqb (length r.profraw_files) 0
    then stops_after before
    else if r.merge_succeeds
    then done
    else stops_after merged

abbrev pub replay : CoveragePaths → CoverageRun → Triple → ℕ × Option (List String) → Reported
replay p r t (total, none) = stops_after []
replay p r t (total, some command) =
    if eqb total 0 then stops_after (command ∷ []) else merge_profiles p r t (command ∷ [])

abbrev pub cover_with : CoveragePaths → CoverageRun → Option Triple → Reported
cover_with p r none = stops_after []
cover_with p r (some t) =
    if eqb (length r.dirs) 0 || not (is_harness r.harness) || not (is_some r.config)
    then stops_after []
    else replay p r t (replay_corpus_proto p.harness p.prof_dir r.dirs)

unfoldable pub generate_coverage : CoveragePaths → CoverageRun → Reported
generate_coverage p r = cover_with p r r.toolchain
