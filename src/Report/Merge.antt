-- ===== src/Report/Merge.antt =====
-- managers/report_manager.py, `generate_introspect`: what the call trees of several entry points are
-- merged to.
use apatchy.Base.{
  String, Bool, true, false, ◌≡◌, refl, ◌∙◌, sym, ap, subst, Option, none, some, is_some, List, [],
  ◌∷◌, ◌++◌, map, if◌then◌else◌, ◌==◌, string_eq, arith, Bool-cases, Option-cases, inl, inr, all,
  eq_of_==, ==-self,
}
use apatchy.Base.Dict.{Dict, lookup, insert, lookup-insert}
use mathlib.Core.List.{append_assoc, append-nil}
use apatchy.Report.Analysis.{
  Call, Edge, FuncMeta, Merged, CallTree, Walk, add_edges, add_functions, merge_walks, no_walks,
  rewrite_meta,
}
use apatchy.Report.Edges.{first_edges, add_edges-first_edges, add_edges-append}

abbrev pub or_else : Option FuncMeta → Option FuncMeta → Option FuncMeta
or_else none o = o
or_else (some m) o = some m

abbrev pub rewritten : String → String → Option FuncMeta → Option FuncMeta
rewritten orig cov none = none
rewritten orig cov (some m) = some (rewrite_meta orig cov m)

-- The first function of a name.
abbrev pub first_meta : String → List Walk → Option FuncMeta
first_meta name [] = none
first_meta name (w ∷ ws) = or_else (lookup name w.functions) (first_meta name ws)

abbrev pub all_edges : List Walk → List Edge
all_edges [] = []
all_edges (w ∷ ws) = w.call_edges ++ all_edges ws

abbrev pub all_trees : List Walk → List (CallTree Call)
all_trees ws = map (λ w. w.call_tree) ws

or_else_assoc : (a b c : Option FuncMeta) → or_else (or_else a b) c ≡ or_else a (or_else b c)
or_else_assoc none b c = refl
or_else_assoc (some m) b c = refl

rewritten-or_else :
    (orig cov : String) (a b : Option FuncMeta)
    → rewritten orig cov (or_else a b) ≡ or_else (rewritten orig cov a) (rewritten orig cov b)
rewritten-or_else orig cov none b = refl
rewritten-or_else orig cov (some m) b = refl

or_else-none : (o : Option FuncMeta) → or_else o none ≡ o
or_else-none none = refl
or_else-none (some m) = refl

abbrev only_if : Bool → FuncMeta → Option FuncMeta
only_if b m = if b then some m else none

-- A function is added unless there is one of its name.
lookup-add_new :
    (name key : String) (m : FuncMeta) (merged : Dict String FuncMeta)
    → lookup name (if is_some (lookup key merged) then merged else insert key m merged)
      ≡ or_else (lookup name merged) (only_if (name == key) m)
lookup-add_new name key m merged = elim (Bool-cases (name == key)) [
  | inl e ↦
      subst
        (λ k.
          lookup name (if is_some (lookup k merged) then merged else insert k m merged)
          ≡ or_else (lookup name merged) (only_if (name == key) m))
        (eq_of_== name key e)
        (elim (Option-cases (lookup name merged)) [
          | inl q ↦ rw (q, e, lookup-insert name name m merged, ==-self name) refl
          | inr (old, q) ↦ rw q q
        ])
  | inr e ↦ elim (Option-cases (lookup key merged)) [
    | inl q ↦
        rw (q, e)
          (lookup-insert name key m merged
            ∙ ap (λ b. if b then some m else lookup name merged) e
            ∙ sym (or_else-none (lookup name merged)))
    | inr (old, q) ↦ rw (q, e) (sym (or_else-none (lookup name merged)))
  ]
]

module _ (orig cov : String) where
  rewritten-only_if :
      (b : Bool) (m : FuncMeta) (o : Option FuncMeta)
      → or_else (only_if b (rewrite_meta orig cov m)) (rewritten orig cov o)
        ≡ rewritten orig cov (if b then some m else o)
  rewritten-only_if true m o = refl
  rewritten-only_if false m o = refl

  lookup-add_functions :
      (name : String) (fs merged : Dict String FuncMeta)
      → lookup name (add_functions orig cov fs merged)
        ≡ or_else (lookup name merged) (rewritten orig cov (lookup name fs))
  unfolding add_functions
  lookup-add_functions name [] merged = sym (or_else-none (lookup name merged))
  lookup-add_functions name ((key, m) ∷ fs) merged =
      let m' = rewrite_meta orig cov m in
      let here = lookup name merged in
      let rest = rewritten orig cov (lookup name fs) in
      lookup-add_functions name fs
        (if is_some (lookup key merged) then merged else insert key m' merged)
      ∙ ap (λ o. or_else o rest) (lookup-add_new name key m' merged)
      ∙ or_else_assoc here (only_if (name == key) m') rest
      ∙ ap (or_else here) (rewritten-only_if (name == key) m (lookup name fs))

  -- What the loop ends with, for entry points whose trees are all there.
  abbrev pub IsMerged : List Walk → Merged → Type 0
  IsMerged walks m =
      ((name : String) → lookup name m.functions ≡ rewritten orig cov (first_meta name walks))
      × (m.edges.merged ≡ first_edges (all_edges walks))
      × (m.trees ≡ all_trees walks)

  -- The state of the loop after some more walks.
  abbrev Extends : Merged → List Walk → Merged → Type 0
  Extends m walks m' =
      ((name : String)
        → lookup name m'.functions
          ≡ or_else (lookup name m.functions) (rewritten orig cov (first_meta name walks)))
      × (m'.edges ≡ add_edges (all_edges walks) m.edges)
      × (m'.trees ≡ m.trees ++ all_trees walks)

  merge_walks-Extends :
      (walks : List Walk) (m : Merged)
      → (m' : Merged) × (merge_walks orig cov (map some walks) m ≡ some m') × Extends m walks m'
  unfolding merge_walks add_edges
  merge_walks-Extends [] m = (
    m,
    refl,
    ((λ name. sym (or_else-none (lookup name m.functions))), refl, sym (append-nil m.trees)),
  )
  merge_walks-Extends (w ∷ walks) m =
      let next : Merged = record {
        functions = add_functions orig cov w.functions m.functions;
        edges = add_edges w.call_edges m.edges;
        trees = m.trees ++ (w.call_tree ∷ []);
      } in
      let (m', e, x) = merge_walks-Extends walks next in
      let (functions, edges, trees) = x in
      (
        m',
        e,
        (
          (λ name.
              let here = lookup name m.functions in
              let this = lookup name w.functions in
              let rest = first_meta name walks in
              functions name
              ∙ ap (λ o. or_else o (rewritten orig cov rest))
                  (lookup-add_functions name w.functions m.functions)
              ∙ or_else_assoc here (rewritten orig cov this) (rewritten orig cov rest)
              ∙ ap (or_else here) (sym (rewritten-or_else orig cov this rest))),
          edges ∙ sym (add_edges-append w.call_edges (all_edges walks) m.edges),
          trees ∙ append_assoc m.trees (w.call_tree ∷ []) (all_trees walks),
        ),
      )

  -- If `wuxi` succeeds for every entry point, the loop succeeds. A function is then the first one of its
  -- name, with its directory moved to the tree with coverage; the edges are those of all entry points
  -- in order, without each whose key came before; and the trees are all there.
  pub merge_walks-IsMerged :
      (walks : List Walk)
      → (m : Merged) × (merge_walks orig cov (map some walks) no_walks ≡ some m) × IsMerged walks m
  merge_walks-IsMerged walks =
      let (m, e, x) = merge_walks-Extends walks no_walks in
      let (functions, edges, trees) = x in
      (m, e, (functions, ap (λ s. s.merged) edges ∙ add_edges-first_edges (all_edges walks), trees))

  -- If it fails for one, the loop fails.
  merge_walks_fails :
      (walks : List (Option Walk)) (m : Merged)
      → all is_some walks ≡ false
      → merge_walks orig cov walks m ≡ none
  unfolding merge_walks
  merge_walks_fails [] m h = absurd (ground (arith, h))
  merge_walks_fails (none ∷ walks) m h = refl
  merge_walks_fails (some w ∷ walks) m h = merge_walks_fails walks _ h
