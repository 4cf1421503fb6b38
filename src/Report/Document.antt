-- ===== src/Report/Document.antt =====
-- managers/report_manager.py, `generate_introspect`: the document as a whole.
use apatchy.Base.{ℕ, String, ◌≡◌, refl, ◌∙◌, ap, Option, some, List, [], ◌∷◌, map, ◌>>=◌, string_eq}
use apatchy.Base.Dict.{Dict, lookup}
use apatchy.Report.Analysis.{
  Call, FuncMeta, Merged, CallTree, Walk, add_counts, line_counts, merge_coverage, merge_walks,
  no_walks,
}
use apatchy.Report.Annotate.{CovData, Introspect, annotate, introspect}
use apatchy.Report.Covered.{coverage_for, covered, merge_coverage-covered, no_lookups}
use apatchy.Report.Edges.{first_edges}
use apatchy.Report.Merge.{all_edges, all_trees, first_meta, merge_walks-IsMerged, rewritten}
use apatchy.Report.Sites.{annotate-expected, erase, flatten, with_callers, with_count}

-- The document of some walks: its functions with their coverage, its edges, its trees, and the counts
-- in the trees.
abbrev pub IsReport : String → String → CovData → List Walk → Introspect → Type 0
IsReport orig cov exported walks doc =
    ((name : String)
      → lookup name doc.functions
        ≡ covered (coverage_for name exported.functions)
            (rewritten orig cov (first_meta name walks)))
    × (doc.call_edges ≡ first_edges (all_edges walks))
    × (map erase doc.call_tree ≡ all_trees walks)
    × (map flatten doc.call_tree
        ≡ map (λ t. map (with_count doc.functions exported.files) (with_callers "" t))
            (all_trees walks))

-- The entry points with the walks that `wuxi` found.
abbrev pub found : String × Walk → String × Option Walk
found (entry, w) = (entry, some w)

module _ (functions : Dict String FuncMeta) (exported : CovData) where
  abbrev annotated : CallTree Call → CallTree (Call × Option ℕ)
  annotated = annotate functions (line_counts exported.files []) ""

  map-erase : (ts : List (CallTree Call)) → map erase (map annotated ts) ≡ ts
  map-erase [] = refl
  map-erase (t ∷ ts) =
      ap (λ x. x ∷ map erase (map annotated ts)) (annotate-expected functions exported.files t).0
      ∙ ap (λ l. t ∷ l) (map-erase ts)

  map-flatten :
      (ts : List (CallTree Call))
      → map flatten (map annotated ts)
        ≡ map (λ t. map (with_count functions exported.files) (with_callers "" t)) ts
  map-flatten [] = refl
  map-flatten (t ∷ ts) =
      ap (λ x. x ∷ map flatten (map annotated ts)) (annotate-expected functions exported.files t).1
      ∙ ap (λ l. map (with_count functions exported.files) (with_callers "" t) ∷ l) (map-flatten ts)

map-found :
    (entries : List (String × Walk))
    → map (λ e. e.1) (map found entries) ≡ map some (map (λ e. e.1) entries)
map-found [] = refl
map-found ((entry, w) ∷ entries) = ap (λ l. some w ∷ l) (map-found entries)

-- If `wuxi` succeeds for every entry point, there is a document. Each function in it is the first of
-- its name that an entry point reaches, with its directory moved to the tree with coverage and with
-- the coverage of the last function of the export that is named so, or else so behind a first colon,
-- or else none. The edges are those of the entry points in order, without each whose key came before.
-- The trees are those of the entry points, each call with the highest count of a segment that reaches
-- over its line in the last file with segments under its caller's directory and its own file name.
pub introspect-IsReport :
    (orig cov : String) (exported : CovData) (entries : List (String × Walk))
    → (doc : Introspect) × (introspect orig cov exported (map found entries) ≡ some doc)
      × IsReport orig cov exported (map (λ e. e.1) entries) doc
unfolding introspect
introspect-IsReport orig cov exported entries =
    let walks = map (λ e. e.1) entries in
    let (m, e, x) = merge_walks-IsMerged orig cov walks in
    let (functions, edges, trees) = x in
    let fs = merge_coverage (add_counts exported.functions no_lookups) m.functions in
    let counts = line_counts exported.files [] in
    let document : Merged → Introspect = λ m'.
      let fs' = merge_coverage (add_counts exported.functions no_lookups) m'.functions in
      record {
        entry_points = map (λ p. p.0) (map found entries);
        functions = fs';
        call_tree = map (annotate fs' counts "") m'.trees;
        call_edges = m'.edges.merged;
      } in
    let written : Option Merged → Option Introspect = λ o. o >>= λ m'. some (document m') in
    (
      document m,
      ap (λ ws. written (merge_walks orig cov ws no_walks)) (map-found entries) ∙ ap written e,
      (
        (λ name.
            merge_coverage-covered exported.functions name m.functions
            ∙ ap (covered (coverage_for name exported.functions)) (functions name)),
        edges,
        map-erase fs exported m.trees ∙ trees,
        map-flatten fs exported m.trees
            ∙ ap (map (λ t. map (with_count fs exported.files) (with_callers "" t))) trees,
      ),
    )
