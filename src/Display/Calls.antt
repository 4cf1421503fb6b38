-- ===== src/Display/Calls.antt =====
-- utils/libfuzzer_ui.py and utils/stats_exporter.py: the calls of the exporter that the display makes.
use apatchy.Base.{
  String, Bool, true, false, ◌≡◌, refl, ◌∙◌, sym, ap, subst, Option, some, List, [], ◌∷◌, ◌++◌,
  if◌then◌else◌, string_eq, arith, Bool-cases, Option-cases, is_some, inl, inr,
}
use apatchy.Stats.{
  Fields, Reading, State, Call, pulse, mutators, event, call, calls, maybe_pulse, pulse_of, capture,
  too_soon, Pulse,
}
use apatchy.Display.Numerals.{AreNumeric}
use apatchy.Display.{Ui, export}

-- The exporter of a session has been called without an exception.
abbrev pub Follows : State → Option State → Type 0
Follows s₀ o = (cs : List Call) × (o ≡ some (calls cs s₀)) × ((calls cs s₀).raised ≡ false)

calls-snoc :
    (cs : List Call) (c : Call) (s : State)
    → (calls cs s).raised ≡ false
    → calls (cs ++ (c ∷ [])) s ≡ call c (calls cs s)
unfolding calls
calls-snoc [] c s h = subst (λ b. (if b then s else call c s) ≡ call c s) (sym h) refl
calls-snoc (d ∷ cs) c s h =
    let same : Bool → Type 0 = λ b.
      (if b then s else calls (cs ++ (c ∷ [])) (call d s))
      ≡ call c (if b then s else calls cs (call d s)) in
    elim (Bool-cases s.raised) [
      | inl e ↦ absurd (ground (arith, h, e))
      | inr e ↦ subst same (sym e) (
          calls-snoc cs c (call d s)
            (subst (λ b. (if b then s else calls cs (call d s)).raised ≡ false) e h))
    ]

-- A call that raises no exception of its own.
abbrev pub IsQuiet : Call → Type 0
IsQuiet c = (s : State) → s.raised ≡ false → (call c s).raised ≡ false

pub Follows-export :
    (s₀ : State) (c : Call) (o : Option State) → IsQuiet c → Follows s₀ o → Follows s₀ (export c o)
Follows-export s₀ c o q (cs, e, h) =
    let same = calls-snoc cs c s₀ h in
    (
      cs ++ (c ∷ []),
      ap (export c) e ∙ ap some (sym same),
      ap (λ s. s.raised) same ∙ q (calls cs s₀) h,
    )

pub mutators-IsQuiet : (strategy : String) → IsQuiet (mutators strategy)
unfolding call
mutators-IsQuiet strategy s h = h

pub event-IsQuiet : (kind value stamp : String) → IsQuiet (event kind value stamp)
unfolding call
event-IsQuiet kind value stamp s h = h

pub pulse_of-AreNumeric :
    (r : Reading) (stats : Fields) → AreNumeric stats → (p : Pulse) × (pulse_of r stats ≡ some p)
unfolding pulse_of
pulse_of-AreNumeric r stats (a, t) =
    let (b, t1) = t in
    let (c, t2) = t1 in
    let (d, t3) = t2 in
    let (e, f) = t3 in
    let found : is_some (pulse_of r stats) ≡ true = rw (a.1, b.1, c.1, d.1, e.1, f.1) refl in
    elim (Option-cases (pulse_of r stats)) [ inl q ↦ absurd (ground (arith, found, q)) | inr q ↦ q ]

pub pulse-IsQuiet : (r : Reading) (stats : Fields) → AreNumeric stats → IsQuiet (pulse r stats)
unfolding call maybe_pulse
pulse-IsQuiet r stats n s h = elim (Bool-cases (too_soon r.now s.exporter)) [
  | inl e ↦ rw e refl
  | inr e ↦ let (p, q) = pulse_of-AreNumeric r stats n in rw (e, q, capture) refl
]

-- The display between two lines.
abbrev pub IsExported : State → Ui → Type 0
IsExported s₀ u = AreNumeric u.stats × Follows s₀ u.exporter
