-- ===== src/Report/Covered.antt =====
-- managers/report_manager.py, `generate_introspect`: the coverage that each function is given.
use apatchy.Base.{
  String, Bool, true, false, ◌≡◌, refl, ◌∙◌, sym, ap, Option, none, some, List, [], ◌∷◌,
  if◌then◌else◌, ◌==◌, string_eq, Bool-cases, inl, inr, eq_of_==,
}
use apatchy.Base.Dict.{Dict, lookup, insert, lookup-insert}
use apatchy.Report.Analysis.{
  Coverage, FuncCounts, FuncMeta, Lookups, add_bare, add_counts, bare_name, coverage_of,
  find_coverage, merge_coverage, not_covered,
}

abbrev pub or_cover : Option Coverage → Option Coverage → Option Coverage
or_cover none o = o
or_cover (some c) o = some c

abbrev pub cover_if : Bool → FuncCounts → Option Coverage
cover_if b f = if b then some (coverage_of f) else none

-- The coverage of the last function of the export that passes a test.
abbrev pub last_cover : (FuncCounts → Bool) → List FuncCounts → Option Coverage
last_cover p [] = none
last_cover p (f ∷ fs) = or_cover (last_cover p fs) (cover_if (p f) f)

abbrev equals : String → Option String → Bool
equals name none = false
equals name (some bare) = name == bare

-- A function that is named so, and one that is named so behind the first colon.
abbrev pub is_named : String → FuncCounts → Bool
is_named name f = name == f.name

abbrev pub is_bare : String → FuncCounts → Bool
is_bare name f = equals name (bare_name f.name)

or_cover_assoc : (a b c : Option Coverage) → or_cover (or_cover a b) c ≡ or_cover a (or_cover b c)
or_cover_assoc none b c = refl
or_cover_assoc (some m) b c = refl

or_cover-none : (o : Option Coverage) → or_cover o none ≡ o
or_cover-none none = refl
or_cover-none (some c) = refl

or_cover-cover_if :
    (b : Bool) (f : FuncCounts) (o : Option Coverage)
    → (if b then some (coverage_of f) else o) ≡ or_cover (cover_if b f) o
or_cover-cover_if true f o = refl
or_cover-cover_if false f o = refl

lookup-add_bare :
    (name : String) (bare : Option String) (f : FuncCounts) (d : Dict String Coverage)
    → lookup name (add_bare bare (coverage_of f) d)
      ≡ or_cover (cover_if (equals name bare) f) (lookup name d)
lookup-add_bare name none f d = refl
lookup-add_bare name (some bare) f d =
    lookup-insert name bare (coverage_of f) d ∙ or_cover-cover_if (name == bare) f (lookup name d)

abbrev add_one : FuncCounts → Lookups → Lookups
add_one f l = record {
  direct = insert f.name (coverage_of f) l.direct;
  stripped = add_bare (bare_name f.name) (coverage_of f) l.stripped;
}

direct-add_counts :
    (name : String) (fs : List FuncCounts) (l : Lookups)
    → lookup name (add_counts fs l).direct
      ≡ or_cover (last_cover (is_named name) fs) (lookup name l.direct)
unfolding add_counts
direct-add_counts name [] l = refl
direct-add_counts name (f ∷ fs) l =
    let last = last_cover (is_named name) fs in
    direct-add_counts name fs (add_one f l)
    ∙ ap (or_cover last) (
        lookup-insert name f.name (coverage_of f) l.direct
        ∙ or_cover-cover_if (name == f.name) f (lookup name l.direct))
    ∙ sym (or_cover_assoc last (cover_if (name == f.name) f) (lookup name l.direct))

stripped-add_counts :
    (name : String) (fs : List FuncCounts) (l : Lookups)
    → lookup name (add_counts fs l).stripped
      ≡ or_cover (last_cover (is_bare name) fs) (lookup name l.stripped)
unfolding add_counts
stripped-add_counts name [] l = refl
stripped-add_counts name (f ∷ fs) l =
    let last = last_cover (is_bare name) fs in
    stripped-add_counts name fs (add_one f l)
    ∙ ap (or_cover last) (lookup-add_bare name (bare_name f.name) f l.stripped)
    ∙ sym (or_cover_assoc last (cover_if (is_bare name f) f) (lookup name l.stripped))

abbrev pub no_lookups : Lookups
no_lookups = record { direct = []; stripped = [] }

-- The last function of the export that is named so, or else the last one that is named so behind the
-- name of a file, or else no coverage.
abbrev pub coverage_for : String → List FuncCounts → Option Coverage
coverage_for name fs = or_cover (last_cover (is_named name) fs) (last_cover (is_bare name) fs)

or_cover-elim : (a b : Option Coverage) → (elim a [ some c ↦ some c | none ↦ b ]) ≡ or_cover a b
or_cover-elim none b = refl
or_cover-elim (some c) b = refl

find_coverage-coverage_for :
    (name : String) (fs : List FuncCounts)
    → find_coverage (add_counts fs no_lookups) name ≡ coverage_for name fs
unfolding find_coverage
find_coverage-coverage_for name fs =
    let l = add_counts fs no_lookups in
    or_cover-elim (lookup name l.direct) (lookup name l.stripped)
    ∙ ap (λ o. or_cover o (lookup name l.stripped))
        (direct-add_counts name fs no_lookups ∙ or_cover-none (last_cover (is_named name) fs))
    ∙ ap (or_cover (last_cover (is_named name) fs))
        (stripped-add_counts name fs no_lookups ∙ or_cover-none (last_cover (is_bare name) fs))

abbrev pub covered : Option Coverage → Option FuncMeta → Option FuncMeta
covered o none = none
covered none (some m) = some (record m { coverage = some not_covered })
covered (some c) (some m) = some (record m { coverage = some c })

covered-some :
    (o : Option Coverage) (m : FuncMeta)
    → some (record m { coverage = some (elim o [ some c ↦ c | none ↦ not_covered ]) })
      ≡ covered o (some m)
covered-some none m = refl
covered-some (some c) m = refl

lookup-merge_coverage :
    (l : Lookups) (name : String) (fs : Dict String FuncMeta)
    → lookup name (merge_coverage l fs) ≡ covered (find_coverage l name) (lookup name fs)
unfolding merge_coverage
lookup-merge_coverage l name [] = refl
lookup-merge_coverage l name ((key, m) ∷ fs) = elim (Bool-cases (name == key)) [
  | inl e ↦ rw e (
      covered-some (find_coverage l key) m
      ∙ ap (λ k. covered (find_coverage l k) (some m)) (sym (eq_of_== name key e)))
  | inr e ↦ rw e (lookup-merge_coverage l name fs)
]

-- The functions stay those that they were, and each is given the coverage of the last function of the
-- export that is named so, or else of the last one that is named so behind a first colon, or else none.
pub merge_coverage-covered :
    (counts : List FuncCounts) (name : String) (fs : Dict String FuncMeta)
    → lookup name (merge_coverage (add_counts counts no_lookups) fs)
      ≡ covered (coverage_for name counts) (lookup name fs)
merge_coverage-covered counts name fs =
    lookup-merge_coverage (add_counts counts no_lookups) name fs
    ∙ ap (λ o. covered o (lookup name fs)) (find_coverage-coverage_for name counts)
