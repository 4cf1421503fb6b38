-- ===== src/Bugs/Linked.antt =====
-- What `BugManager.setup` has linked, wherever it stops.
use apatchy.Base.{
  String, Bool, true, false, ◌≡◌, refl, Option, none, some, List, [], ◌∷◌, All, Bool-cases, inl,
  inr, arith,
}
use apatchy.Flags.{generate_build_config}
use apatchy.Flags.Config.{Mentions}
use apatchy.Build.{Host}
use apatchy.Dispatch.{Switches, manager_of}
use apatchy.Dispatch.Pipeline.{requested, requested-Mentions}
use apatchy.Bugs.{Bug, version_of_bug, cve_id_of, configure_flags_of}
use apatchy.Bugs.Setup.{
  Action, download, configure, compile, build_branch_tree, build_harness, bug_setup, make_seeds,
  Run, ended, raised, and_then, with_value, switches_of_bug, perform, clang_or_default, link_branch,
  runs_seeds, seeds_step, setup_step, download_step, setup,
}

-- Each harness of a log was linked right after its tree had been built with the same flags, and these
-- have among their words the flag of every sanitizer that is asked for.
abbrev pub IsLinked : Switches → List Action → Type 0
IsLinked s [] = Unit
IsLinked s (build_harness suffix mode cflags ldflags harness ∷ []) = ⊥
IsLinked s (build_harness suffix mode cflags ldflags harness ∷ a ∷ log) =
    ((cc : String) × (a ≡ build_branch_tree suffix cc cflags ldflags))
    × All (λ flag. Mentions flag (cflags, ldflags, none)) (requested s)
    × IsLinked s (a ∷ log)
IsLinked s (_ ∷ log) = IsLinked s log

abbrev pub log_of : Run → List Action
log_of (ended log) = log
log_of (raised log) = log

module _ (s : Switches) where
  and_then-IsLinked :
      (r : Run) (f : List Action → Run)
      → IsLinked s (log_of r)
      → ((log : List Action) → IsLinked s log → IsLinked s (log_of (f log)))
      → IsLinked s (log_of (and_then r f))
  and_then-IsLinked (ended log) f i h = h log i
  and_then-IsLinked (raised log) f i h = i

  with_value-IsLinked :
      {A : Type 0} (o : Option A) (f : A → List Action → Run) (log : List Action)
      → ((a : A) → o ≡ some a → IsLinked s (log_of (f a log)))
      → IsLinked s log
      → IsLinked s (log_of (with_value o f log))
  with_value-IsLinked none f log h i = i
  with_value-IsLinked (some a) f log h i = h a refl

  module _ (h : Host) (succeeds : Action → Bool) where
    perform-IsLinked :
        (a : Action) (log : List Action)
        → IsLinked s (a ∷ log)
        → IsLinked s log
        → IsLinked s (log_of (perform h succeeds a log))
    perform-IsLinked a log i j = elim (Bool-cases (succeeds a)) [ inl e ↦ rw e i | inr e ↦ rw e j ]

    download_step-IsLinked :
        (downloaded : Bool) (version : String) (log : List Action)
        → IsLinked s log
        → IsLinked s (log_of (download_step h succeeds downloaded version log))
    download_step-IsLinked true version log i = i
    download_step-IsLinked false version log i = perform-IsLinked (download version) log i i

    seeds_step-IsLinked :
        (b : Bug) (log : List Action)
        → IsLinked s log
        → IsLinked s (log_of (seeds_step h succeeds b log))
    seeds_step-IsLinked b log i = elim (Bool-cases (runs_seeds h succeeds b)) [
      | inl e ↦ rw e (perform-IsLinked make_seeds log i i)
      | inr e ↦ rw e i
    ]

    setup_step-IsLinked :
        (b : Bug) (log : List Action)
        → IsLinked s log
        → IsLinked s (log_of (setup_step h succeeds b log))
    setup_step-IsLinked b log i = ground (arith, perform-IsLinked bug_setup log i i, i)

module _ (h : Host) (succeeds : Action → Bool) where
  link_branch-IsLinked :
      (b : Bug) (version mode suffix : String) (log : List Action)
      → IsLinked (switches_of_bug b) log
      → IsLinked (switches_of_bug b) (log_of (link_branch h succeeds b version mode suffix log))
  unfolding link_branch
  link_branch-IsLinked b version mode suffix log i =
      let s = switches_of_bug b in
      with_value-IsLinked s
        (generate_build_config h.disk h.packaging (manager_of mode s) (some version)) _ log
        (λ config e.
          let build = build_branch_tree suffix (clang_or_default h succeeds) config.0 config.1 in
          let link = build_harness suffix mode config.0 config.1 b.manifest.harness in
          elim (Bool-cases (succeeds build)) [
            | inr n ↦ rw n i
            | inl y ↦ rw y (
                perform-IsLinked s h succeeds link (build ∷ log)
                  (
                    (clang_or_default h succeeds, refl),
                    requested-Mentions h.disk h.packaging mode s (some version) config e,
                    i,
                  )
                  i)
          ])
        i

  -- Wherever a setup stops, and whatever had been downloaded before it: each harness that it has
  -- linked was linked right after its tree had been built with the same flags, and these have among
  -- their words the flag of each of the four known sanitizers that the manifest lists, or of ASan if
  -- it has no list.
  pub setup-IsLinked :
      (downloaded : Bool) (b : Bug)
      → IsLinked (switches_of_bug b) (log_of (setup h succeeds downloaded b))
  unfolding setup
  setup-IsLinked downloaded b =
      let s = switches_of_bug b in
      let flags = configure_flags_of b in
      with_value-IsLinked s (version_of_bug b) _ []
        (λ version _.
          with_value-IsLinked s (cve_id_of b) _ []
            (λ id _.
              and_then-IsLinked s (download_step h succeeds downloaded version []) _
                (download_step-IsLinked s h succeeds downloaded version [] tt)
                (λ log1 i1.
                  and_then-IsLinked s
                    (perform h succeeds (configure (manager_of "fuzz" s) flags) log1) _
                    (perform-IsLinked s h succeeds (configure (manager_of "fuzz" s) flags) log1 i1
                      i1)
                    (λ log2 i2.
                      and_then-IsLinked s (perform h succeeds compile log2) _
                        (perform-IsLinked s h succeeds compile log2 i2 i2)
                        (λ log3 i3.
                          and_then-IsLinked s
                            (link_branch h succeeds b version "libfuzzer" "-lf" log3) _
                            (link_branch-IsLinked b version "libfuzzer" "-lf" log3 i3)
                            (λ log4 i4.
                              and_then-IsLinked s
                                (link_branch h succeeds b version "coverage" "-cov" log4) _
                                (link_branch-IsLinked b version "coverage" "-cov" log4 i4)
                                (λ log5 i5.
                                  and_then-IsLinked s (setup_step h succeeds b log5) _
                                    (setup_step-IsLinked s h succeeds b log5 i5)
                                    (λ log6 i6. seeds_step-IsLinked s h succeeds b log6 i6)))))))
            tt)
        tt
