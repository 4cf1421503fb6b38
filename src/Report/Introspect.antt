-- ===== src/Report/Introspect.antt =====
-- managers/report_manager.py, `generate_introspect`: what it looks for before it analyses anything, and
-- the entry points.
-- Parameters: the files on the disk before and after each step, and what the tools return.
use apatchy.Base.{
  String, Bool, not, ◌&&◌, Option, none, some, List, [], ◌∷◌, map, if◌then◌else◌, ◌==◌, string_eq,
  keep, contains,
}
use apatchy.Base.Text.{strip, split, split_on}
use apatchy.Report.{Triple}
use apatchy.Report.Analysis.{Walk}
use apatchy.Report.Annotate.{CovData, Introspect, introspect}

-- `lines` of `llvm-nm --defined-only`: the last word of each with at least three words.
abbrev last_of : String → List String → String
last_of word [] = word
last_of word (next ∷ words) = last_of next words

abbrev pub symbol_of : List String → List String → List String
symbol_of (a ∷ b ∷ c ∷ words) symbols = last_of c words ∷ symbols
symbol_of _ symbols = symbols

abbrev pub symbols_of : List String → List String
symbols_of [] = []
symbols_of (line ∷ lines) = symbol_of (split line) (symbols_of lines)

-- With what `llvm-nm` prints; `none` where there is no such tool, or it fails.
unfoldable pub detect_entries : Option (List String) → List String
detect_entries none = []
detect_entries (some lines) =
    let symbols = symbols_of lines in
    if contains symbols "LLVMFuzzerTestOneInput"
    then "LLVMFuzzerTestOneInput" ∷ []
    else if contains symbols "main"
    then "main" ∷ []
    else []

-- The names between commas, or the one that is detected; `none` where there is none to detect.
unfoldable pub choose_entries : String → Option (List String) → Option (List String)
choose_entries entry printed =
    let named = keep (λ e. not (e == "")) (map strip (split_on 44 entry)) in
    if entry == ""
    then elim (detect_entries printed) [ [] ↦ none | e ∷ es ↦ some (e ∷ es) ]
    else some named

-- What the steps find, in their order. `wuxi_built`: both runs of cmake succeed and the file is there.
-- Whether the viewer can be built makes no difference to the document.
pub record FoundFiles : Type 0 where
  pub toolchain : Option Triple
  pub has_profdata : Bool
  pub has_binary : Bool
  pub has_bitcode : Bool
  pub has_built_bitcode : Bool
  pub printed : Option (List String)
  pub has_wuxi : Bool
  pub wuxi_built : Bool
  pub exported : Option CovData
  pub walk : String → Option Walk

-- An error, at the step that it is reported by, or the document.
pub data IntrospectOutcome : Type 0 where
  no_toolchain no_profdata no_binary no_bitcode no_entry no_wuxi no_export no_walk :
      IntrospectOutcome
  document : Introspect → IntrospectOutcome

abbrev pub with_export :
    String → String → FoundFiles → List String → Option CovData → IntrospectOutcome
with_export orig cov f entries none = no_export
with_export orig cov f entries (some exported) =
    elim (introspect orig cov exported (map (λ e. (e, f.walk e)) entries)) [
      | none ↦ no_walk
      | some doc ↦ document doc
    ]

abbrev pub with_entries : String → String → FoundFiles → Option (List String) → IntrospectOutcome
with_entries orig cov f none = no_entry
with_entries orig cov f (some entries) =
    if not f.has_wuxi && not f.wuxi_built
    then no_wuxi
    else with_export orig cov f entries f.exported

abbrev pub with_toolchain :
    String → String → String → FoundFiles → Option Triple → IntrospectOutcome
with_toolchain orig cov entry f none = no_toolchain
with_toolchain orig cov entry f (some t) =
    if not f.has_profdata
    then no_profdata
    else if not f.has_binary
    then no_binary
    else if not f.has_bitcode && not f.has_built_bitcode
    then no_bitcode
    else with_entries orig cov f (choose_entries entry f.printed)

-- `generate_introspect`, up to the document.
unfoldable pub generate_introspect : String → String → String → FoundFiles → IntrospectOutcome
generate_introspect orig cov entry f = with_toolchain orig cov entry f f.toolchain
