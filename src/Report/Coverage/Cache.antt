-- ===== src/Report/Coverage/Cache.antt =====
-- managers/report_manager.py, `_build_coverage_harness`: when a harness is kept.
use apatchy.Base.{
  ℕ, String, Bool, true, false, not, ◌&&◌, ◌≡◌, refl, ◌∙◌, sym, ap, subst, Option, none, some,
  if◌then◌else◌, ◌==◌, string_eq, or_default, Bool-cases, inl, inr,
}
use apatchy.Base.Text.{strip}
use apatchy.Report.Coverage.{
  BuiltHarness, HarnessFiles, build_coverage_harness, built, is_same_harness, is_newer, is_stamped,
  kept, no_tree, not_built, stamp_harness,
}

and-true : (b : Bool) → (b && true) ≡ b
and-true true = refl
and-true false = refl

-- What is known of the files behind a build under a name.
abbrev IsStamped : String → HarnessFiles → Type 0
IsStamped name g = (g.stamp ≡ some name) × (g.has_tree ≡ true)

abbrev WhenBuilt : String → BuiltHarness → Type 0
WhenBuilt name (kept g) = Unit
WhenBuilt name (built g) = IsStamped name g
WhenBuilt name no_tree = Unit
WhenBuilt name not_built = Unit

stamp_harness-WhenBuilt :
    (name : String) (f : HarnessFiles) (build : Option (Option ℕ))
    → f.has_tree ≡ true
    → WhenBuilt name (stamp_harness name f build)
stamp_harness-WhenBuilt name f none h = tt
stamp_harness-WhenBuilt name f (some none) h = tt
stamp_harness-WhenBuilt name f (some (some time)) h = (refl, h)

build_coverage_harness-WhenBuilt :
    (name : Option String) (f : HarnessFiles) (build : Option (Option ℕ))
    → WhenBuilt (or_default name "") (build_coverage_harness build name f)
unfolding build_coverage_harness
build_coverage_harness-WhenBuilt name f build = elim (Bool-cases f.has_tree) [
  | inr e ↦ rw e tt
  | inl e ↦
      let text = or_default name "" in
      let tree : Bool → BuiltHarness = λ b.
        if not b
        then no_tree
        else if is_same_harness text f
        then kept f
        else stamp_harness text f build in
      subst (λ b. WhenBuilt text (tree b)) (sym e)
        (elim (Bool-cases (is_same_harness text f)) [
          | inl c ↦
              subst (λ b. WhenBuilt text (if b then kept f else stamp_harness text f build)) (sym c)
                tt
          | inr c ↦
              subst (λ b. WhenBuilt text (if b then kept f else stamp_harness text f build)) (sym c)
                (stamp_harness-WhenBuilt text f build e)
        ])
]

-- After a build that leaves a harness newer than libmain.la, a harness of the same name is kept, and
-- one of another name is built again. The name that was built has no white space at its ends.
pub build_coverage_harness-again :
    (build next : Option (Option ℕ)) (name other : Option String) (f g : HarnessFiles)
    → build_coverage_harness build name f ≡ built g
    → is_newer g.harness_time g.libmain_time ≡ true
    → strip (or_default name "") ≡ or_default name ""
    → build_coverage_harness next other g ≡ (
        if or_default name "" == or_default other ""
        then kept g
        else stamp_harness (or_default other "") g next)
unfolding build_coverage_harness
build_coverage_harness-again build next name other f g e newer plain =
    let text = or_default name "" in
    let (stamped, tree) =
      subst (WhenBuilt text) e (build_coverage_harness-WhenBuilt name f build) in
    let wanted = or_default other "" in
    let rest = stamp_harness wanted g next in
    let newest = is_newer g.harness_time g.libmain_time in
    let pick : Bool → BuiltHarness = λ b. if b then kept g else rest in
    ap (λ b. if not b then no_tree else pick (is_stamped g.stamp wanted && newest)) tree
    ∙ ap (λ s. pick (is_stamped s wanted && newest)) stamped
    ∙ ap (λ x. pick (x == wanted && newest)) plain
    ∙ ap (λ b. pick (text == wanted && b)) newer
    ∙ ap pick (and-true (text == wanted))
