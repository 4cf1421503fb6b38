-- ===== src/Report/Coverage/Pipeline.antt =====
-- managers/report_manager.py, `generate_coverage`: which of its commands are run.
use apatchy.Base.{
  ℕ, zero, suc, String, Bool, true, false, not, ◌&&◌, ◌||◌, ◌≡◌, ◌<◌, refl, sym, ap, subst, Option,
  none, some, is_some, List, [], ◌∷◌, if◌then◌else◌, eqb, length, arith, Bool-cases, inl, inr,
}
use apatchy.Report.{Triple}
use apatchy.Report.Coverage.{
  CoveragePaths, CoverageRun, Reported, cover_with, count_files, existing, exclusions,
  generate_coverage, is_harness, merge_command, merge_profiles, replay, replay_command,
  replay_corpus_proto, report_command, show_command, show_pages, source_filters, stops_after,
}

-- `l[:n]`
abbrev pub take {ℓ} : {A : Type ℓ} → ℕ → List A → List A
take zero l = []
take (suc n) [] = []
take (suc n) (x ∷ l) = x ∷ take n l

abbrev pub or_empty : Option (Option String) → Option String
or_empty none = none
or_empty (some text) = text

-- The four commands of a whole run, with the text of the exclusions.
abbrev pub all_commands :
    CoveragePaths → CoverageRun → Triple → List String → Option (Option String) → List (List String)
all_commands p r t command text =
    let filters = source_filters (or_empty text) in
    command
    ∷ merge_command p t r.profraw_files
    ∷ show_command p t r.modules filters
    ∷ report_command p t r.modules filters
    ∷ []

abbrev pub last_step : CoverageRun → ℕ
last_step r = if r.with_introspect then 3 else 4

abbrev pub succeeds : CoverageRun → Bool
succeeds r = r.merge_succeeds && (r.show_succeeds && (r.with_introspect || r.report_succeeds))

-- How many commands a run should come to, once the corpus is replayed: it stops where no profile is
-- left; behind the merge, where that fails or the file of exclusions is missing; and behind the pages,
-- where they fail or no summary is wanted.
abbrev pub reach : CoverageRun → ℕ
reach r =
    if eqb (length r.profraw_files) 0
    then 1
    else if not (r.merge_succeeds && is_some (exclusions r.exclude))
    then 2
    else if not r.show_succeeds || r.with_introspect
    then 3
    else 4

-- The first `n` commands were run, and the report is complete if they are all and all succeed.
abbrev pub Ran : CoverageRun → List (List String) → ℕ → Reported → Type 0
Ran r commands n o =
    (o.commands ≡ take n commands) × (o.is_complete ≡ (eqb n (last_step r) && succeeds r))

-- Where that number is the one that a run should come to.
abbrev Reaches : CoverageRun → List (List String) → ℕ → Reported → Type 0
Reaches r commands m o = (n : ℕ) × Ran r commands n o × (m ≡ n)

module _ (p : CoveragePaths) (r : CoverageRun) (t : Triple) (command : List String) where
  abbrev whole : Option (Option String) → List (List String)
  whole text = all_commands p r t command text

  early : (n : ℕ) → n < 3 → eqb n (last_step r) ≡ false
  early n h = elim (Bool-cases r.with_introspect) [
    | inl e ↦ rw e (ground (arith, h))
    | inr e ↦ rw e (ground (arith, h))
  ]

  stops :
      (n : ℕ) (text : Option (Option String))
      → (eqb n (last_step r) && succeeds r) ≡ false
      → (m : ℕ) → m ≡ n
      → Reaches r (whole text) m (stops_after (take n (whole text)))
  stops n text h m e = (n, (refl, sym h), e)

  early_stop : (n : ℕ) → n < 3 → (eqb n (last_step r) && succeeds r) ≡ false
  early_stop n h = ap (λ b. b && succeeds r) (early n h)

  abbrev pages_reach : Option (Option String) → ℕ
  pages_reach text =
      if not (r.merge_succeeds && is_some text)
      then 2
      else if not r.show_succeeds || r.with_introspect
      then 3
      else 4

  show_pages-Reaches :
      (text : Option (Option String))
      → r.merge_succeeds ≡ true
      → Reaches r (whole text) (pages_reach text) (show_pages p r t (take 2 (whole text)) text)
  show_pages-Reaches none m =
      stops 2 none (early_stop 2 (omega arith)) (pages_reach none) (ground (arith, m))
  show_pages-Reaches (some text) m =
      let commands = whole (some text) in
      let end = pages_reach (some text) in
      let final : Bool → Reported = λ b.
        if b
        then record { commands = take 3 commands; is_complete = true }
        else record { commands = take 4 commands; is_complete = r.report_succeeds } in
      let shown : Bool → Reported =
        λ b. if not b then stops_after (take 3 commands) else final r.with_introspect in
      elim (Bool-cases r.show_succeeds) [
        | inr e ↦
            subst (λ b. Reaches r commands end (shown b)) (sym e)
              (stops 3 (some text) (ground (arith, e)) end (ground (arith, e, m)))
        | inl e ↦
            subst (λ b. Reaches r commands end (shown b)) (sym e)
              (elim (Bool-cases r.with_introspect) [
                | inl w ↦
                    subst (λ b. Reaches r commands end (final b)) (sym w)
                      (3, (refl, ground (arith, e, m, w)), ground (arith, e, m, w))
                | inr w ↦
                    subst (λ b. Reaches r commands end (final b)) (sym w)
                      (4, (refl, ground (arith, e, m, w)), ground (arith, e, m, w))
              ])
      ]

  merge_profiles-Reaches :
      Reaches r (whole (exclusions r.exclude)) (reach r) (merge_profiles p r t (command ∷ []))
  merge_profiles-Reaches =
      let text = exclusions r.exclude in
      let commands = whole text in
      let goal : ℕ → Reported → Type 0 = λ m o. Reaches r commands m o in
      let merged : Bool → Reported =
        λ b. if b then show_pages p r t (take 2 commands) text else stops_after (take 2 commands) in
      let pages = pages_reach text in
      elim (Bool-cases (eqb (length r.profraw_files) 0)) [
        | inl e ↦
            subst
              (λ b.
                goal (if b then 1 else pages)
                  (if b then stops_after (take 1 commands) else merged r.merge_succeeds))
              (sym e) (stops 1 text (early_stop 1 (omega arith)) 1 refl)
        | inr e ↦
            subst
              (λ b.
                goal (if b then 1 else pages)
                  (if b then stops_after (take 1 commands) else merged r.merge_succeeds))
              (sym e)
              (elim (Bool-cases r.merge_succeeds) [
                | inl m ↦ subst (λ b. goal pages (merged b)) (sym m) (show_pages-Reaches text m)
                | inr m ↦
                    subst (λ b. goal pages (merged b)) (sym m)
                      (stops 2 text (early_stop 2 (omega arith)) pages (ground (arith, m)))
              ])
      ]

of_Reaches :
    (r : CoverageRun) (commands : List (List String)) (m : ℕ) (o : Reported)
    → Reaches r commands m o
    → Ran r commands m o
of_Reaches r commands m o (n, ran, e) = subst (λ k. Ran r commands k o) (sym e) ran

-- The tools and everything that the replay needs are there.
abbrev pub is_ready : CoverageRun → Bool
is_ready r =
    not (eqb (length r.dirs) 0 || not (is_harness r.harness) || not (is_some r.config))
    && not (eqb (count_files (existing r.dirs)) 0)

-- With the tools of one version, a run comes to exactly these of the four commands, in order: none,
-- where there is no directory, harness, configuration or file to replay; the replay alone, where it
-- leaves no profile; the merge too, where it fails or the file of exclusions is missing; the pages too,
-- where they fail or no summary is wanted; and all. The report is complete exactly if all that are
-- wanted were run and succeeded.
pub generate_coverage-Ran :
    (p : CoveragePaths) (r : CoverageRun) (t : Triple)
    → r.toolchain ≡ some t
    → Ran r
        (all_commands p r t (replay_command p.harness p.prof_dir r.dirs) (exclusions r.exclude))
        (if is_ready r then reach r else 0)
        (generate_coverage p r)
unfolding generate_coverage replay_corpus_proto
generate_coverage-Ran p r t found =
    let text = exclusions r.exclude in
    let command = replay_command p.harness p.prof_dir r.dirs in
    let commands = all_commands p r t command text in
    let total = count_files (existing r.dirs) in
    let missing = eqb (length r.dirs) 0 || not (is_harness r.harness) || not (is_some r.config) in
    let run : Bool → Bool → Reported = λ d z.
      if d then stops_after [] else replay p r t (if z then (0, none) else (total, some command)) in
    let goal : Bool → Bool → Type 0 =
      λ d z. Ran r commands (if not d && not z then reach r else 0) (run d z) in
    let nothing : (false ≡ (eqb 0 (last_step r) && succeeds r)) =
      sym (early_stop p r t command 0 (omega arith)) in
    let merged : eqb total 0 ≡ false → goal false false = λ z.
      subst
        (λ b.
          Ran r commands (reach r)
            (if b then stops_after (command ∷ []) else merge_profiles p r t (command ∷ [])))
        (sym z)
        (of_Reaches r commands (reach r) (merge_profiles p r t (command ∷ []))
          (merge_profiles-Reaches p r t command)) in
    subst (λ o. Ran r commands (if is_ready r then reach r else 0) (cover_with p r o)) (sym found)
      (elim (Bool-cases missing) [
        | inl d ↦ subst (λ b. goal b (eqb total 0)) (sym d) (refl, nothing)
        | inr d ↦
            subst (λ b. goal b (eqb total 0)) (sym d)
              (elim (Bool-cases (eqb total 0)) [
                | inl z ↦ subst (goal false) (sym z) (refl, nothing)
                | inr z ↦ subst (goal false) (sym z) (merged z)
              ])
      ])
