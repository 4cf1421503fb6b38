-- ===== src/Display/Exported.antt =====
-- utils/libfuzzer_ui.py and utils/stats_exporter.py: what the display hands to the exporter, line by
-- line, is what the exporter can read.
use apatchy.Base.Text.{size}
use apatchy.Base.{
  All, ◌≤◌, String, ◌≡◌, refl, ◌∙◌, ap, Option, none, some, List, [], ◌∷◌, if◌then◌else◌, ◌==◌,
  string_eq, ◌>>=◌, Bool-cases, inl, inr, When,
}
use apatchy.Base.Text.{rstrip}
use apatchy.Stats.{State, pulse, calls}
use apatchy.Display.Patterns.{status_re, fork_re, match_pieces, search_new_func, strip_ansi}
use apatchy.Display.Numerals.{Groups, match_pieces-Groups}
use apatchy.Display.Calls.{Follows-export, pulse-IsQuiet, IsExported}
use apatchy.Display.Steps.{if_new_func-IsExported}
use apatchy.Display.Counters.{on_status-IsExported, on_fork-IsExported, Yields}
use apatchy.Display.{
  Setup, EngineLine, Moment, Ui, export, if_fork, if_status, parse_line, checked, handle_line,
  handle_lines, push_log,
}

module _ (s₀ : State) (k : Setup) (m : Moment) where
  if_fork-IsExported :
      (line : String) (o : Option (List String)) (u : Ui)
      → When (Groups fork_re) o
      → IsExported s₀ u
      → Yields s₀ k m (if_fork k m line o u)
  if_fork-IsExported line none u g h =
      (_, refl, if_new_func-IsExported s₀ k m line (search_new_func line) u h)
  if_fork-IsExported line (some groups) u g h = on_fork-IsExported s₀ k m groups u g h

  if_status-IsExported :
      (line : String) (o : Option (List String)) (u : Ui)
      → When (Groups status_re) o
      → IsExported s₀ u
      → Yields s₀ k m (if_status k m line o u)
  if_status-IsExported line none u g h =
      if_fork-IsExported line (match_pieces fork_re line) u (match_pieces-Groups fork_re line) h
  if_status-IsExported line (some groups) u g h =
      (_, refl, on_status-IsExported s₀ k m groups u g h)

  parse_line-IsExported :
      (line : String) (u : Ui) → IsExported s₀ u → Yields s₀ k m (parse_line k m line u)
  unfolding parse_line
  parse_line-IsExported line u h =
      if_status-IsExported line (match_pieces status_re line) u (match_pieces-Groups status_re line)
        h

  handle_line-IsExported :
      (line : String) (u : Ui) → IsExported s₀ u → Yields s₀ k m (handle_line k m line u)
  unfolding handle_line
  handle_line-IsExported line u h =
      let clean = rstrip line in
      let stripped = strip_ansi clean in
      let (v, e, x) = parse_line-IsExported stripped u h in
      let (n, f) = x in
      elim (Bool-cases (clean == "")) [
        | inl q ↦ rw q (u, refl, h)
        | inr q ↦
            let c = pulse m.reading v.stats in
            let (cs, same, raised) =
              Follows-export s₀ c v.exporter (pulse-IsQuiet m.reading v.stats n) f in
            let keep : Ui → Option State → Ui =
              λ v' o. record v' { exporter = o; log = push_log k.log_height stripped v'.log } in
            let rest : Ui → Option Ui = λ v'.
              checked (export (pulse m.reading v'.stats) v'.exporter) >>= λ o. some (keep v' o) in
            let done : (parse_line k m stripped u >>= rest) ≡ some (keep v (some (calls cs s₀))) =
              ap (λ o. o >>= rest) e
              ∙ ap (λ o. checked o >>= λ x'. some (keep v x')) same
              ∙ ap (λ b. (if b then none else some (some (calls cs s₀))) >>= λ x'. some (keep v x'))
                  raised in
            (
              keep v (some (calls cs s₀)),
              ap (λ b. if b then some u else parse_line k m stripped u >>= rest) q ∙ done,
              (n, (cs, refl, raised)),
            )
      ]

-- A line that is decoded, and has no more characters than a numeral of `int` may have digits, with
-- room for those of the workers.
abbrev pub IsRead : EngineLine → Type 0
IsRead (m, none) = ⊥
IsRead (m, some line) = size line ≤ 4000

pub handle_lines-IsExported :
    (s₀ : State) (k : Setup) (lines : List EngineLine) (u : Ui)
    → All IsRead lines
    → IsExported s₀ u
    → (v : Ui) × (handle_lines k lines u ≡ some v) × IsExported s₀ v
unfolding handle_lines
handle_lines-IsExported s₀ k [] u r h = (u, refl, h)
handle_lines-IsExported s₀ k ((m, none) ∷ lines) u (r, rs) h = absurd r
handle_lines-IsExported s₀ k ((m, some line) ∷ lines) u (r, rs) h =
    let (v, e, i) = handle_line-IsExported s₀ k m line u h in
    let (w, q, j) = handle_lines-IsExported s₀ k lines v rs i in
    (w, ap (λ o. o >>= handle_lines k lines) e ∙ q, j)
