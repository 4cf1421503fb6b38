-- ===== src/Stats/Flush.antt =====
-- utils/stats_exporter.py: what stands in `stat.json` after a run.
use apatchy.Base.{
  String, false, ◌≡◌, refl, ◌≢◌, ◌⊎◌, inl, inr, some, List, [], ◌∷◌, ◌++◌, arith, string_eq,
  Option-cases, Bool-cases,
}
use apatchy.Stats.{
  Session, Exporter, Reading, Fields, State, StatFile, sessions, Call, pulse, mutators, event,
  Pulse, pulse_of, add_pulse, load_existing, merge, flush, capture, final_flush, call, calls,
  too_soon,
}

-- The last session of a file was started at another time than `start`.
abbrev pub EndsBefore : String → List Session → Type 0
EndsBefore start [] = Unit
EndsBefore start (x ∷ []) = x.start_time ≢ start
EndsBefore start (x ∷ y ∷ l) = EndsBefore start (y ∷ l)

-- A session that is not in the file yet is appended.
merge-append_new :
    (l : List Session) (s : Session) → EndsBefore s.start_time l → merge l s ≡ l ++ (s ∷ [])
unfolding merge
merge-append_new [] s h = refl
merge-append_new (x ∷ []) s h = ground arith
merge-append_new (x ∷ y ∷ l) s h = rw (merge-append_new (y ∷ l) s h)

-- A session that the file ends with is replaced.
merge-append_old :
    (l : List Session) (old s : Session)
    → old.start_time ≡ s.start_time
    → merge (l ++ (old ∷ [])) s ≡ l ++ (s ∷ [])
unfolding merge
merge-append_old [] old s h = ground arith
merge-append_old (x ∷ []) old s h = ground arith
merge-append_old (x ∷ y ∷ l) old s h = rw (merge-append_old (y ∷ l) old s h)

-- Between the calls the file holds the earlier sessions, and behind them at most one more, which was
-- started when this one was.
abbrev pub Holds : List Session → String → StatFile → Type 0
Holds earlier start file =
    (load_existing file ≡ earlier)
    ⊎ ((s : Session) × (load_existing file ≡ earlier ++ (s ∷ [])) × (s.start_time ≡ start))

flush_lem :
    (earlier : List Session) (s : Session) (file : StatFile)
    → EndsBefore s.start_time earlier
    → Holds earlier s.start_time file
    → flush s file ≡ sessions (earlier ++ (s ∷ []))
unfolding flush
flush_lem earlier s file h (inl e) = rw (e, merge-append_new earlier s h)
flush_lem earlier s file h (inr (old, e, same)) = rw (e, merge-append_old earlier old s same)

-- Over a run: the start time stays, and `Holds` is kept.
abbrev Kept : List Session → String → State → Type 0
Kept earlier start s = (s.exporter.session.start_time ≡ start) × Holds earlier start s.file

module _ (earlier : List Session) (start : String) (new : EndsBefore start earlier) where
  capture-Kept :
      (r : Reading) (stats : Fields) (e : Exporter) (file : StatFile)
      → e.session.start_time ≡ start
      → Holds earlier start file
      → Kept earlier start (capture r stats e file)
  unfolding load_existing
  capture-Kept r stats e file h k = elim (Option-cases (pulse_of r stats)) [
    | inl q ↦ rw (q, capture) (h, k)
    | inr (p, q) ↦
        let s' = add_pulse p e.session in
        let e' = flush_lem earlier s' file (rw h new) (rw h k) in
        rw (q, capture) (h, inr (s', rw e', h))
  ]

  call-Kept : (c : Call) (s : State) → Kept earlier start s → Kept earlier start (call c s)
  unfolding call
  call-Kept (pulse r stats) s (h, k) = elim (Bool-cases (too_soon r.now s.exporter)) [
    | inl q ↦ rw q (h, k)
    | inr q ↦ rw q (capture-Kept r stats (record s.exporter { last_pulse_time = r.now }) s.file h k)
  ]
  call-Kept (mutators strategy) s (h, k) = (h, k)
  call-Kept (event kind value stamp) s (h, k) = (ground arith, k)

  calls-Kept : (cs : List Call) (s : State) → Kept earlier start s → Kept earlier start (calls cs s)
  unfolding calls
  calls-Kept [] s k = k
  calls-Kept (c ∷ cs) s k = elim (Bool-cases s.raised) [
    | inl q ↦ simp q k
    | inr q ↦ simp q (calls-Kept cs (call c s) (call-Kept c s k))
  ]

-- After any calls of a session, pulses or none, a last flush that reads its fields leaves the
-- sessions that the file held before, unchanged and in order, and behind them this session, once.
-- No earlier session ends the file with the same start time.
pub final_flush-calls :
    (earlier : List Session) (cs : List Call) (e : Exporter) (file : StatFile) (r : Reading)
    (stats : Fields) {p : Pulse}
    → EndsBefore e.session.start_time earlier
    → load_existing file ≡ earlier
    → pulse_of r stats ≡ some p
    → let s = calls cs (record { exporter = e; file = file; raised = false }) in
      (final_flush r stats s.exporter s.file).file
      ≡ sessions (earlier ++ (add_pulse p s.exporter.session ∷ []))
unfolding final_flush
final_flush-calls earlier cs e file r stats {p} new held numeric =
    let s₀ : State = record { exporter = e; file = file; raised = false } in
    let (h, k) = calls-Kept earlier e.session.start_time new cs s₀ (refl, inl held) in
    let s = calls cs s₀ in
    rw (numeric, capture)
      (flush_lem earlier (add_pulse p s.exporter.session) s.file (rw h new) (rw h k))

-- Two runs that start in the same second share a start time: the flush of the second overwrites the
-- session of the first, whatever was recorded in it.
flush_same_second :
    (earlier : List Session) (first second : Session)
    → first.start_time ≡ second.start_time
    → flush second (sessions (earlier ++ (first ∷ []))) ≡ sessions (earlier ++ (second ∷ []))
unfolding flush
flush_same_second earlier first second same = rw (merge-append_old earlier first second same)
