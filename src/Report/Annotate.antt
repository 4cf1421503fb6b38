-- ===== src/Report/Annotate.antt =====
-- managers/report_manager.py: `annotate_site_counts` and the document of `generate_introspect`.
use apatchy.Base.{
  ℕ, String, ◌<>◌, Bool, ◌&&◌, not, Option, none, some, List, [], map, if◌then◌else◌, ◌==◌, nat_eq,
  string_eq, ◌>>=◌,
}
use apatchy.Base.Dict.{Dict, lookup}
use apatchy.Report.Analysis.{
  Call, CovFile, Edge, Forest, FuncCounts, FuncMeta, CallTree, Walk, add_counts, grow, leaf,
  line_counts, merge_coverage, merge_walks, no_walks, node,
}

-- `s.rstrip("/")`
abbrev pub rstrip_slashes : String → String
rstrip_slashes String.[] = ""
rstrip_slashes (String.◌∷◌ c s) =
    let rest = rstrip_slashes s in
    if rest == "" && String.◌∷◌ c "" == "/" then "" else String.◌∷◌ c rest

-- The source of a caller, where it is known.
abbrev pub dir_of : Dict String FuncMeta → String → String
dir_of functions name = elim (lookup name functions) [ none ↦ "" | some meta ↦ meta.source_dir ]

-- A call with the name of its caller that can have a count: it has a caller, a file and a line.
abbrev pub has_site : String → Call → Bool
has_site caller c = not (c.site_file == "") && (not (c.site_line == 0) && not (caller == ""))

-- How often the line of a call has run; `none` stands for -1.
unfoldable pub site_count : Dict String FuncMeta → Dict String (Dict ℕ ℕ) → String → Call → Option ℕ
site_count functions counts caller c =
    let dir = dir_of functions caller in
    let path = rstrip_slashes dir <> ("/" <> c.site_file) in
    let found = lookup path counts >>= lookup c.site_line in
    if has_site caller c then if dir == "" then none else found else none

-- `annotate_site_counts`; the root has no caller, as a caller without a name.
module _ (functions : Dict String FuncMeta) (counts : Dict String (Dict ℕ ℕ)) where
  unfoldable mutual
    pub annotate : String → CallTree Call → CallTree (Call × Option ℕ)
    annotate caller (node c children) =
        node (c, site_count functions counts caller c) (annotate_all c.name children)

    pub annotate_all : String → Forest Call → Forest (Call × Option ℕ)
    annotate_all caller leaf = leaf
    annotate_all caller (grow t ts) = grow (annotate caller t) (annotate_all caller ts)

-- The document.
pub record Introspect : Type 0 where
  pub entry_points : List String
  pub functions : Dict String FuncMeta
  pub call_tree : List (CallTree (Call × Option ℕ))
  pub call_edges : List Edge

-- What `llvm-cov export` writes.
pub record CovData : Type 0 where
  pub functions : List FuncCounts
  pub files : List CovFile

unfoldable pub introspect :
    String → String → CovData → List (String × Option Walk) → Option Introspect
introspect orig cov data' entries = merge_walks orig cov (map (λ e. e.1) entries) no_walks >>= λ m.
    let l = add_counts data'.functions (record { direct = []; stripped = [] }) in
    let functions = merge_coverage l m.functions in
    let counts = line_counts data'.files [] in
    some (record {
      entry_points = map (λ e. e.0) entries;
      functions = functions;
      call_tree = map (annotate functions counts "") m.trees;
      call_edges = m.edges.merged;
    })
