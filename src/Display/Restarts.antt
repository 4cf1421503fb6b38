-- ===== src/Display/Restarts.antt =====
-- `LibFuzzerUI.run` of utils/libfuzzer_ui.py with the exporter of utils/stats_exporter.py: a whole
-- session, with the engine started again after each crash.
use apatchy.Base.{
  true, false, ◌≡◌, refl, ◌∙◌, sym, ap, subst, Option, none, some, List, [], ◌∷◌, ◌++◌, string_eq,
  if◌then◌else◌, All, Bool-cases, inl, inr,
}
use apatchy.Base.Text.{int}
use apatchy.Stats.{
  Session, Exporter, Reading, State, StatFile, sessions, load_existing, calls, add_pulse, pulse_of,
  final_flush, capture, flush, Pulse, Fields,
}
use apatchy.Stats.Flush.{EndsBefore, final_flush-calls}
use apatchy.Display.{
  Setup, Ui, EngineRun, Result, stopped, failed, running, is_one, note_restart, run_loop, run,
  initial_ui, initial_stats, finish, with_exporter, flush_export, checked,
}
use apatchy.Display.Numerals.{AreNumeric}
use apatchy.Display.Calls.{IsExported, pulse_of-AreNumeric}
use apatchy.Display.Exported.{IsRead, handle_lines-IsExported}

-- The loop raises no exception; a code that it stops with is not 1, and an engine is still running
-- only behind runs that all had code 1.
abbrev LoopEnds : State → List EngineRun → Result → Type 0
LoopEnds s₀ runs failed = ⊥
LoopEnds s₀ runs (stopped u code) = (is_one code ≡ false) × IsExported s₀ u
LoopEnds s₀ runs (running u) = All (λ r. is_one r.returncode ≡ true) runs

LoopEnds-cons :
    (s₀ : State) (r : EngineRun) (runs : List EngineRun) (o : Result)
    → is_one r.returncode ≡ true
    → LoopEnds s₀ runs o
    → LoopEnds s₀ (r ∷ runs) o
LoopEnds-cons s₀ r runs failed e h = h
LoopEnds-cons s₀ r runs (stopped u code) e h = h
LoopEnds-cons s₀ r runs (running u) e h = (e, h)

run_loop-LoopEnds :
    (s₀ : State) (k : Setup) (runs : List EngineRun) (u : Ui)
    → All (λ r. All IsRead r.lines) runs
    → IsExported s₀ u
    → LoopEnds s₀ runs (run_loop k runs u)
unfolding run_loop
run_loop-LoopEnds s₀ k [] u a h = tt
run_loop-LoopEnds s₀ k (r ∷ runs) u (a, as') h =
    let (v, e, i) = handle_lines-IsExported s₀ k r.lines u a h in
    let again = run_loop-LoopEnds s₀ k runs (note_restart k v) as' i in
    let next : Option Ui → Result = λ o. elim o as (λ _. Result) [
      | none ↦ failed
      | some w ↦
          let more = run_loop k runs (note_restart k w) in
          if is_one r.returncode then more else stopped w r.returncode
    ] in
    subst (λ o. LoopEnds s₀ (r ∷ runs) (next o)) (sym e)
      (elim (Bool-cases (is_one r.returncode)) [
        | inl q ↦ rw q (LoopEnds-cons s₀ r runs (run_loop k runs (note_restart k v)) q again)
        | inr q ↦ rw q (q, i)
      ])

-- The exporter that the display starts with, and the file that it finds.
abbrev pub start_state : Exporter → StatFile → State
start_state e file = record { exporter = e; file = file; raised = false }

-- A run that ends, by a code other than 1, leaves this file; it raises no exception; and it goes on
-- only behind runs that all had code 1.
abbrev pub Exports : List Session → List EngineRun → Result → Type 0
Exports earlier runs failed = ⊥
Exports earlier runs (running u) = All (λ r. is_one r.returncode ≡ true) runs
Exports earlier runs (stopped u code) =
    (is_one code ≡ false)
    × ((s : State) × (u.exporter ≡ some s)
        × (s.file ≡ sessions (earlier ++ (s.exporter.session ∷ []))))

abbrev captured : Pulse → State → State
captured p s =
    let t = add_pulse p s.exporter.session in
    record { exporter = record s.exporter { session = t }; file = flush t s.file; raised = false }

flush-captured :
    (r : Reading) (stats : Fields) (p : Pulse) (s : State)
    → pulse_of r stats ≡ some p
    → final_flush r stats s.exporter s.file ≡ captured p s
unfolding final_flush
flush-captured r stats p s q = rw (q, capture) refl

initial-AreNumeric : AreNumeric initial_stats
unfolding string_eq int
initial-AreNumeric = ((0, refl), ((0, refl), ((0, refl), ((0, refl), ((0, refl), (none, refl))))))

finish-Exports :
    (r : Reading) (e : Exporter) (file : StatFile) (runs : List EngineRun) (o : Result)
    → EndsBefore e.session.start_time (load_existing file)
    → LoopEnds (start_state e file) runs o
    → Exports (load_existing file) runs (finish r o)
unfolding final_flush
finish-Exports r e file runs failed new h = h
finish-Exports r e file runs (running u) new h = h
finish-Exports r e file runs (stopped u code) new (c, i) =
    let (n, f) = i in
    let (cs, same, raised) = f in
    let (p, q) = pulse_of-AreNumeric r u.stats n in
    let s = calls cs (start_state e file) in
    let last = final_flush r u.stats s.exporter s.file in
    let flushed : last ≡ captured p s = flush-captured r u.stats p s q in
    let written = final_flush-calls (load_existing file) cs e file r u.stats new refl q in
    let ends = Exports (load_existing file) runs in
    subst (λ o. ends (with_exporter u code (checked (flush_export r u.stats o)))) (sym same)
      (subst (λ t. ends (with_exporter u code (checked (some t)))) (sym flushed)
        (c, (captured p s, refl, ap (λ t. t.file) (sym flushed) ∙ written)))

-- If each line that the engine writes is decoded, has at most 4000 characters and finds a display that
-- can be drawn: however often the engine is started again, the session raises no exception.
-- If it ends, its code is not 1, and `stat.json` holds the sessions that it held before, unchanged and
-- in order, and behind them the session of the exporter, once. If it goes on, all its runs had code 1.
-- The session has an exporter, and the file does not end with a session of the same start time.
pub run-Exports :
    (k : Setup) (r : Reading) (runs : List EngineRun) (e : Exporter) (file : StatFile)
    → All (λ run. All IsRead run.lines) runs
    → EndsBefore e.session.start_time (load_existing file)
    → Exports (load_existing file) runs (run k r runs (initial_ui (some (start_state e file))))
unfolding run calls
run-Exports k r runs e file read new =
    let u = initial_ui (some (start_state e file)) in
    finish-Exports r e file runs (run_loop k runs u) new
      (run_loop-LoopEnds (start_state e file) k runs u read (initial-AreNumeric, ([], refl, refl)))
