-- ===== src/Report/Analysis.antt =====
-- managers/report_manager.py: `generate_introspect`, from the exported coverage and the call trees of
-- the entry points to the one document that the viewer reads.
-- Parameters: what `llvm-cov export` writes and what `wuxi` finds, as `json.loads` reads them.
use apatchy.Base.{
  ℕ, zero, suc, ◌-◌, max, String, ◌<>◌, Bool, false, ◌&&◌, ◌||◌, Option, none, some, List, [], ◌∷◌,
  ◌++◌, map, if◌then◌else◌, ltb, eqb, ◌==◌, nat_eq, string_eq, length, any, keep, is_some,
}
use apatchy.Base.Dict.{Dict, lookup, get_or, insert}
use apatchy.Base.Text.{size, starts_with}
use Prim.Native.Char.{code}

-- A function of the export: its name, how often it ran, and how often each of its regions did.
pub record FuncCounts : Type 0 where
  pub name : String
  pub count : ℕ
  pub regions : List ℕ

pub record Coverage : Type 0 where
  pub hit : Bool
  pub count : ℕ
  pub regions_total : ℕ
  pub regions_covered : ℕ

abbrev pub coverage_of : FuncCounts → Coverage
coverage_of f = record {
  hit = ltb 0 f.count;
  count = f.count;
  regions_total = length f.regions;
  regions_covered = length (keep (ltb 0) f.regions);
}

-- `name.split(":", 1)[1]`, if `":" in name`
abbrev pub bare_name : String → Option String
bare_name String.[] = none
bare_name (String.◌∷◌ c s) = let rest = bare_name s in if eqb (code c) 58 then some s else rest

pub record Lookups : Type 0 where
  pub direct : Dict String Coverage
  pub stripped : Dict String Coverage

abbrev pub add_bare : Option String → Coverage → Dict String Coverage → Dict String Coverage
add_bare none c d = d
add_bare (some bare) c d = insert bare c d

-- `cov_lookup` and `cov_stripped`
unfoldable pub add_counts : List FuncCounts → Lookups → Lookups
add_counts [] l = l
add_counts (f ∷ fs) l = add_counts fs (record {
  direct = insert f.name (coverage_of f) l.direct;
  stripped = add_bare (bare_name f.name) (coverage_of f) l.stripped;
})

-- What the analysis says of a function, and the coverage that is added to it.
pub record FuncMeta : Type 0 where
  pub source_dir : String
  pub line_start : ℕ
  pub coverage : Option Coverage

pub record Edge : Type 0 where
  pub caller : String
  pub callee : String
  pub site_file : String
  pub site_line : ℕ
  pub is_indirect : Bool

-- A node of a call tree, without its children.
pub record Call : Type 0 where
  pub name : String
  pub site_file : String
  pub site_line : ℕ

-- A tree that holds something at each node.
mutual
  pub data CallTree (A : Type 0) : Type 0 where
    node : A → Forest A → CallTree A

  pub data Forest (A : Type 0) : Type 0 where
    leaf : Forest A
    grow : CallTree A → Forest A → Forest A

-- What `wuxi` writes for an entry point.
pub record Walk : Type 0 where
  pub functions : Dict String FuncMeta
  pub call_edges : List Edge
  pub call_tree : CallTree Call

-- `s[n:]`
abbrev pub skip : ℕ → String → String
skip zero s = s
skip (suc n) String.[] = ""
skip (suc n) (String.◌∷◌ c s) = skip n s

-- From the original tree to the tree with coverage.
abbrev pub rewrite_dir : String → String → String → String
rewrite_dir orig cov dir =
    if starts_with dir (orig <> "/") || dir == orig then cov <> skip (size orig) dir else dir

abbrev pub rewrite_meta : String → String → FuncMeta → FuncMeta
rewrite_meta orig cov meta = record meta { source_dir = rewrite_dir orig cov meta.source_dir }

-- The first function of a name wins.
unfoldable pub add_functions :
    String → String → Dict String FuncMeta → Dict String FuncMeta → Dict String FuncMeta
add_functions orig cov [] merged = merged
add_functions orig cov ((name, meta) ∷ fs) merged = add_functions orig cov fs (
    if is_some (lookup name merged)
    then merged
    else insert name (rewrite_meta orig cov meta) merged)

abbrev pub EdgeKey : Type 0
EdgeKey = String × String × String × ℕ

abbrev pub key_of : Edge → EdgeKey
key_of e = (e.caller, e.callee, e.site_file, e.site_line)

abbrev pub same_key : EdgeKey → EdgeKey → Bool
same_key (a, b, c, n) (a', b', c', n') = a == a' && (b == b' && (c == c' && n == n'))

-- `seen_edges` and `merged_edges`
pub record Edges : Type 0 where
  pub seen : List EdgeKey
  pub merged : List Edge

unfoldable pub add_edges : List Edge → Edges → Edges
add_edges [] s = s
add_edges (e ∷ es) s = add_edges es (
    if any (same_key (key_of e)) s.seen
    then s
    else record { seen = key_of e ∷ s.seen; merged = s.merged ++ (e ∷ []) })

pub record Merged : Type 0 where
  pub functions : Dict String FuncMeta
  pub edges : Edges
  pub trees : List (CallTree Call)

abbrev pub no_walks : Merged
no_walks = record { functions = []; edges = record { seen = []; merged = [] }; trees = [] }

-- The loop over the entry points; `none` where `wuxi` fails for one of them.
unfoldable pub merge_walks : String → String → List (Option Walk) → Merged → Option Merged
merge_walks orig cov [] m = some m
merge_walks orig cov (none ∷ walks) m = none
merge_walks orig cov (some w ∷ walks) m = merge_walks orig cov walks (record {
  functions = add_functions orig cov w.functions m.functions;
  edges = add_edges w.call_edges m.edges;
  trees = m.trees ++ (w.call_tree ∷ []);
})

abbrev pub not_covered : Coverage
not_covered = record { hit = false; count = 0; regions_total = 0; regions_covered = 0 }

-- `cov_lookup.get(name) or cov_stripped.get(name)`
unfoldable pub find_coverage : Lookups → String → Option Coverage
find_coverage l name = elim (lookup name l.direct) [
  | some c ↦ some c
  | none ↦ lookup name l.stripped
]

abbrev pub with_coverage : Lookups → String × FuncMeta → String × FuncMeta
with_coverage l (name, meta) = (
  name,
  record meta { coverage = some (elim (find_coverage l name) [ some c ↦ c | none ↦ not_covered ]) },
)

unfoldable pub merge_coverage : Lookups → Dict String FuncMeta → Dict String FuncMeta
merge_coverage l fs = map (with_coverage l) fs

-- The number in the message: functions with coverage.
abbrev pub merged_count : Lookups → Dict String FuncMeta → ℕ
merged_count l fs = length (keep (λ f. is_some (find_coverage l f.0)) fs)

-- `[line, col, count, hasCount]`
pub record Segment : Type 0 where
  pub line : ℕ
  pub count : ℕ
  pub has_count : Bool

pub record CovFile : Type 0 where
  pub filename : String
  pub segments : List Segment

-- The line of the next segment, or the line of the last one.
abbrev pub end_line : Segment → List Segment → ℕ
end_line seg [] = seg.line
end_line seg (next ∷ segs) = next.line

-- So many lines from one on have run at least `count` times.
unfoldable pub cover : ℕ → ℕ → ℕ → Dict ℕ ℕ → Dict ℕ ℕ
cover line zero count lines = lines
cover line (suc n) count lines =
    cover (suc line) n count (insert line (max (get_or line lines 0) count) lines)

unfoldable pub count_segments : List Segment → Dict ℕ ℕ → Dict ℕ ℕ
unfolding cover
count_segments [] lines = lines
count_segments (seg ∷ segs) lines = count_segments segs (
    if seg.has_count
    then cover seg.line (suc (end_line seg segs) - seg.line) seg.count lines
    else lines)

-- A file without segments is passed over.
unfoldable pub add_segments :
    String → List Segment → Dict String (Dict ℕ ℕ) → Dict String (Dict ℕ ℕ)
add_segments name [] counts = counts
add_segments name (seg ∷ segs) counts = insert name (count_segments (seg ∷ segs) []) counts

unfoldable pub line_counts : List CovFile → Dict String (Dict ℕ ℕ) → Dict String (Dict ℕ ℕ)
line_counts [] counts = counts
line_counts (f ∷ fs) counts = line_counts fs (add_segments f.filename f.segments counts)
