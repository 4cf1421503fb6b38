-- ===== src/Report/Sites.antt =====
-- managers/report_manager.py, `annotate_site_counts`: which count each call of a tree is given.
use apatchy.Base.{
  ℕ, String, ◌<>◌, ◌≡◌, refl, ◌∙◌, sym, ap, Option, none, List, [], ◌∷◌, ◌++◌, map, if◌then◌else◌,
  ◌==◌, string_eq, nat_eq,
}
use apatchy.Base.Dict.{Dict}
use mathlib.Core.List.{map-append}
use apatchy.Report.Analysis.{
  Call, CovFile, Forest, FuncMeta, CallTree, grow, leaf, line_counts, node,
}
use apatchy.Report.Annotate.{annotate, annotate_all, dir_of, has_site, rstrip_slashes, site_count}
use apatchy.Report.Lines.{covering, line_counts-maximum, maximum, segments_of}

-- The calls of a tree, each with the name of its caller, in the order of the tree.
abbrev mutual
  pub with_callers : String → CallTree Call → List (String × Call)
  with_callers caller (node c children) = (caller, c) ∷ all_with_callers c.name children

  pub all_with_callers : String → Forest Call → List (String × Call)
  all_with_callers caller leaf = []
  all_with_callers caller (grow t ts) = with_callers caller t ++ all_with_callers caller ts

-- What stands at the nodes, in the same order.
module _ {A : Type 0} where
  abbrev mutual
    pub flatten : CallTree A → List A
    flatten (node a children) = a ∷ flatten_all children

    pub flatten_all : Forest A → List A
    flatten_all leaf = []
    flatten_all (grow t ts) = flatten t ++ flatten_all ts

-- The tree without the counts.
abbrev mutual
  pub erase : CallTree (Call × Option ℕ) → CallTree Call
  erase (node (c, n) children) = node c (erase_all children)

  pub erase_all : Forest (Call × Option ℕ) → Forest Call
  erase_all leaf = leaf
  erase_all (grow t ts) = grow (erase t) (erase_all ts)

-- The count that a call should have: the highest one of its line, in the file that its caller is in.
-- A call without a caller, a file or a line has none, nor has one whose caller is of no known file.
abbrev pub expected : Dict String FuncMeta → List CovFile → String → Call → Option ℕ
expected functions files caller c =
    let dir = dir_of functions caller in
    let path = rstrip_slashes dir <> ("/" <> c.site_file) in
    let found = maximum (covering c.site_line (segments_of path files)) in
    if has_site caller c then if dir == "" then none else found else none

module _ (functions : Dict String FuncMeta) (files : List CovFile) where
  abbrev counts : Dict String (Dict ℕ ℕ)
  counts = line_counts files []

  abbrev pub with_count : String × Call → Call × Option ℕ
  with_count (caller, c) = (c, expected functions files caller c)

  site_count-expected :
      (caller : String) (c : Call)
      → site_count functions counts caller c ≡ expected functions files caller c
  unfolding site_count
  site_count-expected caller c =
      let dir = dir_of functions caller in
      let path = rstrip_slashes dir <> ("/" <> c.site_file) in
      ap (λ o. if has_site caller c then if dir == "" then none else o else none)
        (line_counts-maximum path c.site_line files)

  mutual
    unfolding annotate

    flatten-annotate :
        (caller : String) (t : CallTree Call)
        → flatten (annotate functions counts caller t) ≡ map with_count (with_callers caller t)
    flatten-annotate caller (node c children) =
        ap (λ n. (c, n) ∷ flatten_all (annotate_all functions counts c.name children))
          (site_count-expected caller c)
        ∙ ap (λ l. with_count (caller, c) ∷ l) (flatten_all-annotate_all c.name children)

    flatten_all-annotate_all :
        (caller : String) (ts : Forest Call)
        → flatten_all (annotate_all functions counts caller ts)
          ≡ map with_count (all_with_callers caller ts)
    flatten_all-annotate_all caller leaf = refl
    flatten_all-annotate_all caller (grow t ts) =
        ap (λ l. l ++ flatten_all (annotate_all functions counts caller ts))
          (flatten-annotate caller t)
        ∙ ap (λ l. map with_count (with_callers caller t) ++ l) (flatten_all-annotate_all caller ts)
        ∙ sym (map-append with_count (with_callers caller t) (all_with_callers caller ts))

  mutual
    unfolding annotate

    erase-annotate :
        (caller : String) (t : CallTree Call) → erase (annotate functions counts caller t) ≡ t
    erase-annotate caller (node c children) = ap (node c) (erase_all-annotate_all c.name children)

    erase_all-annotate_all :
        (caller : String) (ts : Forest Call)
        → erase_all (annotate_all functions counts caller ts) ≡ ts
    erase_all-annotate_all caller leaf = refl
    erase_all-annotate_all caller (grow t ts) =
        ap (λ x. grow x (erase_all (annotate_all functions counts caller ts)))
          (erase-annotate caller t)
        ∙ ap (grow t) (erase_all-annotate_all caller ts)

  -- The annotated tree is the tree with a count at each call: the highest count of a segment that
  -- reaches over its line, in the last file with segments under the directory of its caller and the
  -- name of its file. The root, a call without a file or a line, and one whose caller has no known
  -- directory have none.
  pub annotate-expected :
      (t : CallTree Call)
      → (erase (annotate functions (line_counts files []) "" t) ≡ t)
        × (flatten (annotate functions (line_counts files []) "" t)
            ≡ map with_count (with_callers "" t))
  annotate-expected t = (erase-annotate "" t, flatten-annotate "" t)
