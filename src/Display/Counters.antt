-- ===== src/Display/Counters.antt =====
-- utils/libfuzzer_ui.py: the two kinds of lines that report counters.
use apatchy.Base.{
  ◌*◌, max, String, ◌<>◌, true, false, ◌≡◌, refl, Option, some, List, [], ◌∷◌, if◌then◌else◌, ltb,
  string_eq, Bool-cases, inl, inr, All,
}
use apatchy.Base.Decimal.{decimal}
use apatchy.Base.Dict.{insert_all}
use apatchy.Base.Text.{strip}
use apatchy.Stats.{State}
use apatchy.Display.Patterns.{status_re, fork_re}
use apatchy.Display.Numerals.{
  IsNumeral, Groups, IsSetTo, AreNumeric-insert_all, decimal-IsNumeral, of_Shape,
}
use apatchy.Display.Calls.{IsExported}
use apatchy.Display.Steps.{other_keys, other_key, poll_system_stats-IsExported, note_new-IsExported}
use apatchy.Display.{
  Setup, Moment, Ui, rstrip_dashes, note_new, poll_system_stats, on_status, on_fork, set_stats,
  note_cov,
}

module _ (s₀ : State) (k : Setup) (m : Moment) where
  pub on_status-IsExported :
      (groups : List String) (u : Ui)
      → Groups status_re groups
      → IsExported s₀ u
      → IsExported s₀ (on_status k m groups u)
  unfolding on_status
  on_status-IsExported [] u gs h = h
  on_status-IsExported (g0 ∷ []) u gs h = h
  on_status-IsExported (g0 ∷ g1 ∷ []) u gs h = h
  on_status-IsExported (g0 ∷ g1 ∷ g2 ∷ []) u gs h = h
  on_status-IsExported (g0 ∷ g1 ∷ g2 ∷ g3 ∷ []) u gs h = h
  on_status-IsExported (g0 ∷ g1 ∷ g2 ∷ g3 ∷ g4 ∷ []) u gs h = h
  on_status-IsExported (g0 ∷ g1 ∷ g2 ∷ g3 ∷ g4 ∷ g5 ∷ []) u gs h = h
  on_status-IsExported (g0 ∷ g1 ∷ g2 ∷ g3 ∷ g4 ∷ g5 ∷ g6 ∷ []) u gs h = h
  on_status-IsExported (g0 ∷ g1 ∷ g2 ∷ g3 ∷ g4 ∷ g5 ∷ g6 ∷ g7 ∷ []) u gs h = h
  on_status-IsExported (g0 ∷ g1 ∷ g2 ∷ g3 ∷ g4 ∷ g5 ∷ g6 ∷ g7 ∷ g8 ∷ []) u gs h = h
  on_status-IsExported (g0 ∷ g1 ∷ g2 ∷ g3 ∷ g4 ∷ g5 ∷ g6 ∷ g7 ∷ g8 ∷ g9 ∷ []) u gs h = h
  on_status-IsExported
        (run_count ∷ kind ∷ cov ∷ ft ∷ corp_n ∷ corp_size ∷ limit ∷ exec_s ∷ rss ∷ size ∷ strategy
          ∷ [])
        u gs (n, f) =
      let mutation = strip (rstrip_dashes strategy) in
      let (event', size', limit', rss', length', strategy', func') = other_keys in
      let (h0, t0) = gs in
      let (_, t1) = t0 in
      let (h2, t2) = t1 in
      let (h3, t3) = t2 in
      let (h4, t4) = t3 in
      let (_, t5) = t4 in
      let (_, t6) = t5 in
      let (h7, _) = t6 in
      let items =
        ("run", run_count)
        ∷ ("event", kind)
        ∷ ("cov", cov)
        ∷ ("ft", ft)
        ∷ ("corp_n", corp_n)
        ∷ ("corp_size", corp_size)
        ∷ ("limit", limit)
        ∷ ("exec_s", exec_s)
        ∷ ("rss", rss)
        ∷ ("length", size)
        ∷ ("strategy", mutation)
        ∷ [] in
      let sets : All IsSetTo items = (
        λ _. of_Shape run_count h0,
        (
          other_key "event" kind event',
          (
            λ _. of_Shape cov h2,
            (
              λ _. of_Shape ft h3,
              (
                λ _. of_Shape corp_n h4,
                (
                  other_key "corp_size" corp_size size',
                  (
                    other_key "limit" limit limit',
                    (
                      λ _. of_Shape exec_s h7,
                      (
                        other_key "rss" rss rss',
                        (
                          other_key "length" size length',
                          (other_key "strategy" mutation strategy', tt),
                        ),
                      ),
                    ),
                  ),
                ),
              ),
            ),
          ),
        ),
      ) in
      let v = set_stats (insert_all items u.stats) u in
      poll_system_stats-IsExported s₀ k m false (note_new m kind mutation v)
        (note_new-IsExported s₀ k m kind mutation v (AreNumeric-insert_all items u.stats sets n, f))
  on_status-IsExported (g0 ∷ g1 ∷ g2 ∷ g3 ∷ g4 ∷ g5 ∷ g6 ∷ g7 ∷ g8 ∷ g9 ∷ g10 ∷ g11 ∷ g) u gs h = h

  -- A step that raises no exception.
  abbrev pub Yields : Option Ui → Type 0
  Yields o = (v : Ui) × (o ≡ some v) × IsExported s₀ v

  pub on_fork-IsExported :
      (groups : List String) (u : Ui)
      → Groups fork_re groups
      → IsExported s₀ u
      → Yields (on_fork k m groups u)
  unfolding on_fork
  on_fork-IsExported [] u gs h = (u, refl, h)
  on_fork-IsExported (g0 ∷ []) u gs h = (u, refl, h)
  on_fork-IsExported (g0 ∷ g1 ∷ []) u gs h = (u, refl, h)
  on_fork-IsExported (g0 ∷ g1 ∷ g2 ∷ []) u gs h = (u, refl, h)
  on_fork-IsExported (g0 ∷ g1 ∷ g2 ∷ g3 ∷ []) u gs h = (u, refl, h)
  on_fork-IsExported (g0 ∷ g1 ∷ g2 ∷ g3 ∷ g4 ∷ []) u gs h = (u, refl, h)
  on_fork-IsExported (g0 ∷ g1 ∷ g2 ∷ g3 ∷ g4 ∷ g5 ∷ []) u gs h = (u, refl, h)
  on_fork-IsExported (g0 ∷ g1 ∷ g2 ∷ g3 ∷ g4 ∷ g5 ∷ g6 ∷ []) u gs h = (u, refl, h)
  on_fork-IsExported (g0 ∷ g1 ∷ g2 ∷ g3 ∷ g4 ∷ g5 ∷ g6 ∷ g7 ∷ []) u gs h = (u, refl, h)
  on_fork-IsExported (g0 ∷ g1 ∷ g2 ∷ g3 ∷ g4 ∷ g5 ∷ g6 ∷ g7 ∷ g8 ∷ []) u gs h = (u, refl, h)
  on_fork-IsExported
        (run_count ∷ cov ∷ ft ∷ corp ∷ rate ∷ ooms ∷ timeouts ∷ crashes ∷ time ∷ job ∷ []) u gs
        (n, f) =
      let (event', _, _, _, _, strategy', _) = other_keys in
      let (h0, t0) = gs in
      let (h1, t1) = t0 in
      let (h2, t2) = t1 in
      let (h3, t3) = t2 in
      let (h4, _) = t3 in
      let (c, hc) = of_Shape cov h1 in
      let (t, ht) = of_Shape ft h2 in
      let (w, hw) = of_Shape rate h4 in
      let (old_cov, more) = n in
      let old_ft = more.0 in
      let files = if ltb 0 m.corpus then decimal m.corpus else corp in
      let files_IsNumeral : IsNumeral files = elim (Bool-cases (ltb 0 m.corpus)) [
        | inl e ↦ rw e (decimal-IsNumeral m.corpus)
        | inr e ↦ rw e (of_Shape corp h3)
      ] in
      let found = "oom:" <> (ooms <> (" tout:" <> (timeouts <> (" crash:" <> crashes)))) in
      let items =
        ("run", run_count)
        ∷ ("event", "job " <> job)
        ∷ ("cov", decimal (max c old_cov.0))
        ∷ ("ft", decimal (max t old_ft.0))
        ∷ ("corp_n", files)
        ∷ ("exec_s", decimal (w * k.workers))
        ∷ ("worker_exec_s", rate)
        ∷ ("strategy", found)
        ∷ [] in
      let sets : All IsSetTo items = (
        λ _. of_Shape run_count h0,
        (
          other_key "event" ("job " <> job) event',
          (
            λ _. decimal-IsNumeral (max c old_cov.0),
            (
              λ _. decimal-IsNumeral (max t old_ft.0),
              (
                λ _. files_IsNumeral,
                (
                  λ _. decimal-IsNumeral (w * k.workers),
                  (λ _. (w, hw), (other_key "strategy" found strategy', tt)),
                ),
              ),
            ),
          ),
        ),
      ) in
      let v = set_stats (insert_all items u.stats) u in
      let polled = poll_system_stats k m true v in
      (
        note_cov m c polled,
        rw (hc, old_cov.1, ht, old_ft.1, hw) refl,
        poll_system_stats-IsExported s₀ k m true v (AreNumeric-insert_all items u.stats sets n, f),
      )
  on_fork-IsExported (g0 ∷ g1 ∷ g2 ∷ g3 ∷ g4 ∷ g5 ∷ g6 ∷ g7 ∷ g8 ∷ g9 ∷ g10 ∷ g) u gs h =
      (u, refl, h)
