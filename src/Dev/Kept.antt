-- ===== src/Dev/Kept.antt =====
-- managers/dev_manager.py: what a build of a project leaves as it was, and what it makes.
use text.Mathlib.TextLemmas.{append_cancel_left}
use apatchy.Base.{
  [], ◌∷◌, arith, String, ◌<>◌, Bool, true, false, not, ◌&&◌, ◌≡◌, refl, ◌∙◌, sym, ap, subst,
  Option, none, some, is_some, if◌then◌else◌, ◌==◌, string_eq, Bool-cases, Option-cases, inl, inr,
  eq_of_==, ==-self, ◌>>=◌,
}
use apatchy.Base.Dict.{Dict, lookup, insert, lookup-insert}
use apatchy.Dev.{
  DevBuild, DevManager, directory_of, put_binary, DevState, Project, add_engine, build_project,
  compile_arguments, in_directory, set_project, with_harness,
}

-- No project but one differs.
abbrev pub Only : String → Dict String Project → Dict String Project → Type 0
Only name ps qs =
    (other : String) → lookup other qs ≡ (if other == name then lookup name qs else lookup other ps)

Only-self : (name : String) (ps : Dict String Project) → Only name ps ps
Only-self name ps other = elim (Bool-cases (other == name)) [
  | inl e ↦ rw e (ap (λ x. lookup x ps) (eq_of_== other name e))
  | inr e ↦ rw e refl
]

Only-insert :
    (name : String) (p : Project) (ps qs : Dict String Project)
    → Only name ps qs
    → Only name ps (insert name p qs)
Only-insert name p ps qs h other =
    let here : lookup name (insert name p qs) ≡ some p =
      lookup-insert name name p qs
      ∙ ap (λ b. if b then some p else lookup name qs) (==-self name) in
    elim (Bool-cases (other == name)) [
      | inl e ↦
          lookup-insert other name p qs
          ∙ ap (λ b. if b then some p else lookup other qs) e
          ∙ sym here
          ∙ sym (ap (λ b. if b then lookup name (insert name p qs) else lookup other ps) e)
      | inr e ↦
          lookup-insert other name p qs
          ∙ ap (λ b. if b then some p else lookup other qs) e
          ∙ h other
          ∙ ap (λ b. if b then lookup name qs else lookup other ps) e
          ∙ sym (ap (λ b. if b then lookup name (insert name p qs) else lookup other ps) e)
    ]

abbrev pub harness_of : String → Dict String Project → Option String
harness_of name ps = lookup name ps >>= λ p. p.harness

-- Whether a build comes to its end.
abbrev pub can_build : DevBuild → String → Option String → Bool
can_build b engine source =
    is_some source && (not (engine == "standalone" && not b.makes_tree) && b.makes_harness)

-- The working directory, the other projects and the source of the harness are as they were, and an
-- exception leaves the call exactly if the build does not come to its end.
abbrev pub IsKept : DevBuild → String → String → DevState → Bool × DevState → Type 0
IsKept b name engine s (has_raised, t) =
    (t.cwd ≡ s.cwd)
    × Only name s.projects t.projects
    × (harness_of name t.projects ≡ harness_of name s.projects)
    × (has_raised ≡ not (can_build b engine (harness_of name s.projects)))

harness_of-insert :
    (name : String) (p : Project) (ps : Dict String Project)
    → harness_of name (insert name p ps) ≡ p.harness
harness_of-insert name p ps =
    ap (λ o. o >>= λ q. q.harness)
      (lookup-insert name name p ps ∙ ap (λ b. if b then some p else lookup name ps) (==-self name))

bind-some : (o : Option Project) → (o >>= λ p. some p) ≡ o
bind-some none = refl
bind-some (some p) = refl

kept_harness :
    (engine : String) (at : Bool) (o : Option Project)
    → ((o >>= λ p. some (if at then add_engine engine p else p)) >>= λ p. p.harness)
      ≡ (o >>= λ p. p.harness)
kept_harness engine at none = refl
kept_harness engine true (some p) = refl
kept_harness engine false (some p) = refl

module _ (m : DevManager) (engine : String) where
  lookup-put_binary :
      (cwd other : String) (ps : Dict String Project)
      → lookup other (put_binary m cwd engine ps) ≡ (
          lookup other ps >>= λ p.
          some (if directory_of m other == cwd then add_engine engine p else p))
  lookup-put_binary cwd other [] = refl
  lookup-put_binary cwd other ((n, p) ∷ ps) = elim (Bool-cases (other == n)) [
    | inl e ↦ rw e (
        ap (λ d. some (if directory_of m d == cwd then add_engine engine p else p))
          (sym (eq_of_== other n e)))
    | inr e ↦ rw e (lookup-put_binary cwd other ps)
  ]

  directory_of-other :
      (other name : String)
      → (other == name) ≡ false
      → (directory_of m other == directory_of m name) ≡ false
  directory_of-other other name e =
      elim (Bool-cases (directory_of m other == directory_of m name)) [
        | inl f ↦
            let behind =
              append_cancel_left m.dev_dir ("/" <> other) ("/" <> name)
                (eq_of_== (directory_of m other) (directory_of m name) f) in
            let same = append_cancel_left "/" other name behind in
            absurd (ground (arith, sym e ∙ ap (λ d. d == name) same ∙ ==-self name))
        | inr f ↦ f
      ]

  Only-put_binary :
      (name : String) (ps qs : Dict String Project)
      → Only name ps qs
      → Only name ps (put_binary m (directory_of m name) engine qs)
  Only-put_binary name ps qs h other =
      let rs = put_binary m (directory_of m name) engine qs in
      elim (Bool-cases (other == name)) [
        | inl e ↦ rw e (ap (λ x. lookup x rs) (eq_of_== other name e))
        | inr e ↦
            lookup-put_binary (directory_of m name) other qs
            ∙ ap (λ b. lookup other qs >>= λ p. some (if b then add_engine engine p else p))
                (directory_of-other other name e)
            ∙ bind-some (lookup other qs)
            ∙ h other
            ∙ ap (λ b. if b then lookup name qs else lookup other ps) e
            ∙ sym (ap (λ b. if b then lookup name rs else lookup other ps) e)
      ]

  harness_of-put_binary :
      (cwd name : String) (ps : Dict String Project)
      → harness_of name (put_binary m cwd engine ps) ≡ harness_of name ps
  harness_of-put_binary cwd name ps =
      ap (λ o. o >>= λ p. p.harness) (lookup-put_binary cwd name ps)
      ∙ kept_harness engine (directory_of m name == cwd) (lookup name ps)

module _ (m : DevManager) (b : DevBuild) (name engine : String) (s : DevState) where
  with_harness-IsKept :
      (p : Project) (source : Option String)
      → lookup name s.projects ≡ some p
      → p.harness ≡ source
      → IsKept b name engine s (with_harness m b name engine p s source)
  with_harness-IsKept p none found e =
      let same : harness_of name s.projects ≡ none = ap (λ o. o >>= λ q. q.harness) found ∙ e in
      (refl, Only-self name s.projects, refl, sym (ap (λ o. not (can_build b engine o)) same))
  with_harness-IsKept p (some text) found e =
      let same : harness_of name s.projects ≡ some text =
        ap (λ o. o >>= λ q. q.harness) found ∙ e in
      let q = record p { compdb = some (compile_arguments m name) } in
      let t = set_project name q s in
      let there = record t { cwd = m.dev_dir <> ("/" <> name) } in
      let done = record there { projects = put_binary m there.cwd engine there.projects } in
      let no_tree = engine == "standalone" && not b.makes_tree in
      let run : Bool → Bool × DevState =
        λ h. (not h, record (if h then done else there) { cwd = s.cwd }) in
      let step : Bool → Bool × DevState = λ x. if x then (true, t) else run b.makes_harness in
      let raises : (x h r : Bool)
          → no_tree ≡ x
          → b.makes_harness ≡ h
          → r ≡ not (not x && h)
          → r ≡ not (can_build b engine (harness_of name s.projects)) =
        λ x h r u v w.
          w
          ∙ sym (
              ap (λ o. not (can_build b engine o)) same
              ∙ ap (λ y. not (not y && b.makes_harness)) u
              ∙ ap (λ y. not (not x && y)) v) in
      let only = Only-insert name q s.projects s.projects (Only-self name s.projects) in
      let kept_source = harness_of-insert name q s.projects ∙ e ∙ sym same in
      elim (Bool-cases no_tree) [
        | inl u ↦
            subst (λ x. IsKept b name engine s (step x)) (sym u)
              (refl, only, kept_source, raises true b.makes_harness true u refl refl)
        | inr u ↦
            subst (λ x. IsKept b name engine s (step x)) (sym u)
              (elim (Bool-cases b.makes_harness) [
                | inl v ↦
                    subst (λ h. IsKept b name engine s (run h)) (sym v)
                      (
                        refl,
                        Only-put_binary m engine name s.projects t.projects only,
                        harness_of-put_binary m engine there.cwd name t.projects ∙ kept_source,
                        raises false true false u v refl,
                      )
                | inr v ↦
                    subst (λ h. IsKept b name engine s (run h)) (sym v)
                      (refl, only, kept_source, raises false false true u v refl)
              ])
      ]

  -- A build of a project, whatever it comes to, leaves the working directory, the other projects and the
  -- source of the harness as they were. It raises an exception exactly if there is no such source, or
  -- the tree of a standalone build cannot be made, or the harness cannot be built.
  pub build_project-IsKept : IsKept b name engine s (build_project m b name engine s)
  unfolding build_project
  build_project-IsKept = elim (Option-cases (lookup name s.projects)) [
    | inl e ↦
        subst (λ o. IsKept b name engine s (in_directory m b name engine s o)) (sym e)
          (
            refl,
            Only-self name s.projects,
            refl,
            sym (ap (λ o. not (can_build b engine (o >>= λ q. q.harness))) e),
          )
    | inr (p, e) ↦
        subst (λ o. IsKept b name engine s (in_directory m b name engine s o)) (sym e)
          (with_harness-IsKept p p.harness e refl)
  ]
