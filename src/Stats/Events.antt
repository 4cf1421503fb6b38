-- ===== src/Stats/Events.antt =====
-- utils/stats_exporter.py: the functions that `record_event` has seen.
use mathlib.Core.Bool.{◌||◌, ◌&&◌}
use apatchy.Base.{
  String, true, false, ◌≡◌, inl, inr, List, [], ◌∷◌, ◌++◌, arith, Bool-cases, ◌∙◌, ◌==◌, string_eq,
  contains,
}
use apatchy.Stats.{Event, Exporter, values, record_event}

-- No event of the kind "last_func" has the value of an event before it, nor one of `seen`.
abbrev pub Fresh : List String → List Event → Type 0
Fresh seen [] = Unit
Fresh seen (e ∷ events) =
    ((e.kind == "last_func") ≡ true → contains seen e.value ≡ false) × Fresh (e.value ∷ seen) events

-- The values among which the end of a list looks.
contains-cons_swap :
    (v w : String) (seen vs : List String)
    → (contains (w ∷ seen) v || contains vs v) ≡ (contains seen v || contains (w ∷ vs) v)
contains-cons_swap v w seen vs = ground arith

Fresh-snoc :
    (seen : List String) (events : List Event) (e : Event)
    → Fresh seen events
    → ((e.kind == "last_func") ≡ true
        → (contains seen e.value || contains (values events) e.value) ≡ false)
    → Fresh seen (events ++ (e ∷ []))
Fresh-snoc seen [] e _ h = (λ k. ground (arith, h k), tt)
Fresh-snoc seen (x ∷ events) e (f, fs) h = (
  f,
  Fresh-snoc (x.value ∷ seen) events e fs
      (λ k. contains-cons_swap e.value x.value seen (values events) ∙ h k),
)

-- However events are recorded, a value that is reported as the last function was not reported
-- before, neither as a function nor as a crash.
pub record_event-Fresh :
    (kind value stamp : String) (e : Exporter)
    → Fresh [] e.session.events
    → Fresh [] (record_event kind value stamp e).session.events
unfolding record_event
record_event-Fresh kind value stamp e h =
    elim (Bool-cases ((kind == "last_func") && contains (values e.session.events) value)) [
      | inl q ↦ rw q h
      | inr q ↦ rw q (Fresh-snoc [] e.session.events _ h (λ k. rw k at q))
    ]
