-- ===== src/Stats/Pulses.antt =====
-- utils/stats_exporter.py: how often `maybe_pulse` captures.
use apatchy.Base.{
  ℕ, ◌+◌, ◌*◌, ◌≤◌, ◌<◌, ◌≡◌, refl, inl, inr, List, [], ◌∷◌, arith, Option-cases, Bool-cases,
  length, length-append, All,
}
use apatchy.Stats.{
  Reading, Fields, State, Call, pulse, mutators, event, pulse_of, capture, call, calls, too_soon,
}

abbrev pub count : State → ℕ
count s = length s.exporter.session.pulses

abbrev last : State → ℕ
last s = s.exporter.last_pulse_time

-- The clock readings of the calls are positive.
abbrev pub IsTicking : Call → Type 0
IsTicking (pulse r stats) = 0 < r.now
IsTicking (mutators strategy) = Unit
IsTicking (event kind value stamp) = Unit

-- What one call adds to the pulses is paid for by the time since the last one.
record Paid (s t : State) : Type 0 where
  same : t.exporter.pulse_interval ≡ s.exporter.pulse_interval
  ticking : 0 < last t
  paid : count t * s.exporter.pulse_interval + last s ≤ count s * s.exporter.pulse_interval + last t

capture-Paid :
    (r : Reading) (stats : Fields) (s : State)
    → 0 < last s
    → last s + s.exporter.pulse_interval ≤ r.now
    → Paid s (capture r stats (record s.exporter { last_pulse_time = r.now }) s.file)
capture-Paid r stats s h k = elim (Option-cases (pulse_of r stats)) [
  | inl q ↦ rw (q, capture) (record { same = refl; ticking = omega arith; paid = omega arith })
  | inr (p, q) ↦
      let len = length-append s.exporter.session.pulses (p ∷ []) in
      rw (q, capture) (record { same = refl; ticking = omega arith; paid = rw len (omega arith) })
]

call-Paid : (c : Call) (s : State) → IsTicking c → 0 < last s → Paid s (call c s)
unfolding call
call-Paid (pulse r stats) s t h = elim (Bool-cases (too_soon r.now s.exporter)) [
  | inl q ↦ rw q (record { same = refl; ticking = h; paid = omega arith })
  | inr q ↦ rw q (capture-Paid r stats s h (ground arith))
]
call-Paid (mutators strategy) s t h = record { same = refl; ticking = h; paid = omega arith }
call-Paid (event kind value stamp) s t h = record {
  same = ground arith;
  ticking = ground arith;
  paid = ground arith;
}

-- After a first pulse, `k` more pulses take at least `k` intervals: over any calls, the pulses that
-- are added, times the interval, are at most the time between the pulse before and the last one.
pub calls-rate :
    (cs : List Call) (s : State)
    → All IsTicking cs
    → 0 < s.exporter.last_pulse_time
    → let t = calls cs s in
      count t * s.exporter.pulse_interval + s.exporter.last_pulse_time
      ≤ count s * s.exporter.pulse_interval + t.exporter.last_pulse_time
unfolding calls
calls-rate [] s _ h = omega arith
calls-rate (c ∷ cs) s (t, ts) h = elim (Bool-cases s.raised) [
  | inl q ↦ simp q (omega arith)
  | inr q ↦
      let p = call-Paid c s t h in
      let ih = calls-rate cs (call c s) ts p.ticking in
      simp q (omega (arith, p.paid, rw p.same at ih))
]
