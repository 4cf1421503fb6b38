-- ===== src/Report/Tests.antt =====
-- Concrete hosts, and the theorems at concrete inputs.
use apatchy.Base.Decimal.{decimal}
use apatchy.Base.{
  String, ◌<>◌, Bool, true, false, ◌≡◌, refl, some, none, List, [], ◌∷◌, ◌==◌, ◌||◌, if◌then◌else◌,
  string_eq, nat_eq,
}
use apatchy.Base.Text.{starts_with, split_on, split, int, has_text, lower}
use apatchy.Toolchain.{resolve_tool, scan, load, get, usable, path_valid, ensure_section}
use apatchy.Introspector.{clang_major_version, version_in}
use apatchy.Report.{
  Host, Dir, candidates, tools_for, detect_llvm_toolchain, version_of, choose, find_llvm_symbolizer,
  collect_corpus_dirs,
}
use apatchy.Report.Tools.{Matches, detect_llvm_toolchain-Matches}

abbrev host : Host
host = record {
  tools = record {
    exists = λ p. true;
    which = λ name. if name == "clang-18" then some "/usr/bin/clang-18" else none;
  };
  cfg = [];
  version_output = λ cc. some "clang version 18.1.0";
  is_file = λ p. p == "/usr/bin/llvm-cov-18" || p == "/usr/bin/llvm-profdata-18";
  parent = λ p. "/usr/bin";
  slash = λ a b. a <> ("/" <> b);
}

numeral : decimal 2041 ≡ "2041"
unfolding decimal
numeral = refl

triple :
    detect_llvm_toolchain host
    ≡ some (record {
      profdata = "/usr/bin/llvm-profdata-18";
      cov = "/usr/bin/llvm-cov-18";
      cc = "/usr/bin/clang-18";
    })
unfolding detect_llvm_toolchain candidates tools_for decimal resolve_tool scan load get lower usable
    path_valid ensure_section clang_major_version version_in starts_with split_on split int has_text
    string_eq
triple = refl

abbrev dirs : List (String × List String)
dirs =
    ("/a", "llvm-symbolizer-x" ∷ "llvm-symbolizer-15" ∷ [])
    ∷ ("/b", "llvm-symbolizer-14" ∷ "llvm-symbolizer-15" ∷ [])
    ∷ []

symbolizer :
    (find_llvm_symbolizer host (some 15) dirs ≡ some "/a/llvm-symbolizer-15")
    × (find_llvm_symbolizer host none dirs ≡ some "/b/llvm-symbolizer-14")
unfolding find_llvm_symbolizer choose version_of decimal resolve_tool scan load get lower usable
    path_valid ensure_section starts_with split_on int string_eq nat_eq
symbolizer = (refl, refl)

abbrev dir : String → Bool → Dir
dir path queue = record {
  path = path;
  is_dir = true;
  has_queue = queue;
  has_crashes = false;
  has_files = true;
}

replayed_dirs :
    collect_corpus_dirs (some (dir "/c" true)) (dir "/c/default" true ∷ dir "/c/x" false ∷ [])
    ≡ "/c/default/queue" ∷ []
unfolding collect_corpus_dirs
replayed_dirs = refl

detect_llvm_toolchain-Matches_example : Matches host candidates (record {
  profdata = "/usr/bin/llvm-profdata-18";
  cov = "/usr/bin/llvm-cov-18";
  cc = "/usr/bin/clang-18";
})
detect_llvm_toolchain-Matches_example =
    detect_llvm_toolchain-Matches host
      (record {
        profdata = "/usr/bin/llvm-profdata-18";
        cov = "/usr/bin/llvm-cov-18";
        cc = "/usr/bin/clang-18";
      })
      triple
