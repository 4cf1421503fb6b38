-- ===== src/Report/DocumentTests.antt =====
-- A small export with the walks of two entry points, and the theorems on them.
use apatchy.Base.{
  ℕ, String, Bool, true, false, ◌≡◌, refl, Option, none, some, List, [], ◌∷◌, map, ◌>>=◌, string_eq,
  nat_eq,
}
use apatchy.Base.Dict.{lookup, insert}
use apatchy.Base.Text.{starts_with, split, split_on, strip}
use apatchy.Report.Analysis.{
  Call, CovFile, Edge, FuncMeta, Segment, CallTree, Walk, add_counts, add_edges, add_functions,
  add_segments, count_segments, cover, find_coverage, grow, leaf, line_counts, merge_coverage,
  merge_walks, node, rewrite_dir,
}
use apatchy.Report.Annotate.{CovData, Introspect, annotate, introspect, site_count}
use apatchy.Report.Lines.{covering, line_counts-maximum, maximum, segments_of}
use apatchy.Report.Sites.{flatten}
use apatchy.Report.Document.{IsReport, found, introspect-IsReport}
use apatchy.Report.Introspect.{detect_entries, choose_entries}

abbrev segment : ℕ → ℕ → Bool → Segment
segment line count has_count = record { line = line; count = count; has_count = has_count }

abbrev files : List CovFile
files =
    record { filename = "/w/httpd-cov/server/core.c"; segments = [] }
    ∷ record {
      filename = "/w/httpd-cov/server/core.c";
      segments = segment 3 7 true ∷ segment 5 2 true ∷ segment 5 9 false ∷ segment 8 0 true ∷ [];
    }
    ∷ []

abbrev exported : CovData
exported = record {
  functions =
      record { name = "core.c:run"; count = 4; regions = 4 ∷ 0 ∷ [] }
      ∷ record { name = "main"; count = 0; regions = 0 ∷ [] }
      ∷ [];
  files = files;
}

abbrev call : String → String → ℕ → Call
call name file line = record { name = name; site_file = file; site_line = line }

abbrev main_tree : CallTree Call
main_tree = node (call "main" "" 0) (grow (node (call "run" "core.c" 5) leaf) leaf)

abbrev meta_in : String → FuncMeta
meta_in dir = record { source_dir = dir; line_start = 1; coverage = none }

abbrev edge : ℕ → Edge
edge line = record {
  caller = "main";
  callee = "run";
  site_file = "core.c";
  site_line = line;
  is_indirect = false;
}

abbrev walk : String → List Edge → Walk
walk dir edges = record {
  functions = ("main", meta_in dir) ∷ ("run", meta_in "/w/httpd/server") ∷ [];
  call_edges = edges;
  call_tree = main_tree;
}

abbrev entries : List (String × Walk)
entries =
    ("main", walk "/w/httpd/server/" (edge 5 ∷ edge 6 ∷ edge 5 ∷ []))
    ∷ ("other", walk "/elsewhere" (edge 6 ∷ edge 7 ∷ []))
    ∷ []

dirs :
    (rewrite_dir "/w/httpd" "/w/httpd-cov" "/w/httpd/server" ≡ "/w/httpd-cov/server")
    × (rewrite_dir "/w/httpd" "/w/httpd-cov" "/w/httpd" ≡ "/w/httpd-cov")
    × (rewrite_dir "/w/httpd" "/w/httpd-cov" "/w/httpd2/x" ≡ "/w/httpd2/x")
unfolding starts_with string_eq
dirs = (refl, refl, refl)

-- Line 5 ends one segment, has a second, and starts a third that is not counted.
lines :
    map
      (λ n. lookup "/w/httpd-cov/server/core.c" (line_counts files []) >>= lookup n)
      (2 ∷ 3 ∷ 5 ∷ 6 ∷ 8 ∷ [])
    ≡ none ∷ some 7 ∷ some 7 ∷ none ∷ some 0 ∷ []
unfolding line_counts add_segments count_segments cover insert string_eq nat_eq
lines = refl

abbrev counted : Option Introspect → Option (List (Option ℕ) × List ℕ × Option FuncMeta)
counted none = none
counted (some doc) = elim doc.call_tree [
  | [] ↦ none
  | t ∷ ts ↦ some (
    map (λ x. x.1) (flatten t),
    map (λ e. e.site_line) doc.call_edges,
    lookup "run" doc.functions,
  )
]

document :
    counted (introspect "/w/httpd" "/w/httpd-cov" exported (map found entries))
    ≡ some (
      none ∷ some 7 ∷ [],
      5 ∷ 6 ∷ 7 ∷ [],
      some (record {
        source_dir = "/w/httpd-cov/server";
        line_start = 1;
        coverage = some (record { hit = true; count = 4; regions_total = 2; regions_covered = 1 });
      }),
    )
unfolding introspect merge_walks add_functions add_edges add_counts find_coverage merge_coverage
    line_counts add_segments count_segments cover annotate site_count insert starts_with string_eq
    nat_eq
document = refl

named :
    (choose_entries "a, b,," none ≡ some ("a" ∷ "b" ∷ []))
    × (choose_entries "" (some ("00 T main" ∷ "U x" ∷ [])) ≡ some ("main" ∷ []))
    × (choose_entries "" (some ("U main" ∷ [])) ≡ none)
    × (choose_entries "," none ≡ some [])
unfolding choose_entries detect_entries split split_on strip string_eq
named = (refl, refl, refl, refl)

line_counts-maximum_example :
    (lookup "/w/httpd-cov/server/core.c" (line_counts files []) >>= lookup 5)
    ≡ maximum (covering 5 (segments_of "/w/httpd-cov/server/core.c" files))
line_counts-maximum_example = line_counts-maximum "/w/httpd-cov/server/core.c" 5 files

introspect-IsReport_example :
    (doc : Introspect) × (introspect "/w/httpd" "/w/httpd-cov" exported (map found entries)
      ≡ some doc)
    × IsReport "/w/httpd" "/w/httpd-cov" exported (map (λ e. e.1) entries) doc
introspect-IsReport_example = introspect-IsReport "/w/httpd" "/w/httpd-cov" exported entries
