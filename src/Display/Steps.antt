-- ===== src/Display/Steps.antt =====
-- utils/libfuzzer_ui.py: the lines of the output that are no counters, and what every line shares.
use apatchy.Base.{
  ◌+◌, String, ◌<>◌, Bool, false, ◌&&◌, ◌≡◌, refl, Option, none, some, List, [], ◌∷◌, ltb, ◌==◌,
  string_eq, contains, arith, Bool-cases, inl, inr,
}
use apatchy.Base.Decimal.{decimal}
use apatchy.Stats.{State, mutators, event}
use apatchy.Display.Patterns.{after_last}
use apatchy.Display.Numerals.{IsSetTo, number_keys, AreNumeric-insert}
use apatchy.Display.Calls.{Follows-export, mutators-IsQuiet, event-IsQuiet, IsExported}
use apatchy.Display.{
  Setup, Moment, Ui, note_new, poll_system_stats, on_new_func, on_crash, if_crash, if_new_func,
  short_path, crash_name,
}

-- Keys that the exporter does not read as numbers.
pub other_keys :
    (contains number_keys "event" ≡ false)
    × (contains number_keys "corp_size" ≡ false)
    × (contains number_keys "limit" ≡ false)
    × (contains number_keys "rss" ≡ false)
    × (contains number_keys "length" ≡ false)
    × (contains number_keys "strategy" ≡ false)
    × (contains number_keys "last_func" ≡ false)
unfolding string_eq
other_keys = (refl, refl, refl, refl, refl, refl, refl)

pub other_key : (key value : String) → contains number_keys key ≡ false → IsSetTo (key, value)
other_key key value h k = absurd (ground (arith, h, k))

module _ (s₀ : State) (k : Setup) (m : Moment) where
  pub poll_system_stats-IsExported :
      (poll_rss : Bool) (u : Ui)
      → IsExported s₀ u
      → IsExported s₀ (poll_system_stats k m poll_rss u)
  unfolding poll_system_stats
  poll_system_stats-IsExported poll_rss u (n, f) =
      elim (Bool-cases (ltb m.polled (u.last_poll + k.poll_ticks))) [
        | inl e ↦ rw e (n, f)
        | inr e ↦ rw e (elim (Bool-cases (poll_rss && ltb 0 m.rss_mb)) [
          | inl q ↦ rw q (
            AreNumeric-insert "rss" (decimal m.rss_mb <> "Mb") u.stats
                (other_key "rss" _ other_keys.3) n,
            f,
          )
          | inr q ↦ rw q (n, f)
        ])
      ]

  pub note_new-IsExported :
      (kind strategy : String) (u : Ui)
      → IsExported s₀ u
      → IsExported s₀ (note_new m kind strategy u)
  note_new-IsExported kind strategy u (n, f) = elim (Bool-cases (kind == "NEW")) [
    | inr e ↦ rw e (n, f)
    | inl e ↦ rw e (elim (Bool-cases (strategy == "")) [
      | inl q ↦ rw q (n, f)
      | inr q ↦
          rw q (n, Follows-export s₀ (mutators strategy) u.exporter (mutators-IsQuiet strategy) f)
    ])
  ]

  on_new_func-IsExported :
      (groups : List String) (u : Ui) → IsExported s₀ u → IsExported s₀ (on_new_func m groups u)
  unfolding on_new_func
  on_new_func-IsExported [] u h = h
  on_new_func-IsExported (func ∷ []) u h = h
  on_new_func-IsExported (func ∷ path ∷ []) u (n, f) =
      let value = func <> ("  (" <> (short_path path <> ")")) in
      (
        AreNumeric-insert "last_func" value u.stats (other_key "last_func" value other_keys.6) n,
        Follows-export s₀ (event "last_func" value m.stamp) u.exporter
            (event-IsQuiet "last_func" value m.stamp) f,
      )
  on_new_func-IsExported (func ∷ path ∷ x ∷ groups) u h = h

  on_crash-IsExported :
      (after : String) (u : Ui) → IsExported s₀ u → IsExported s₀ (on_crash k m after u)
  unfolding on_crash
  on_crash-IsExported after u (n, f) =
      let name = crash_name k after in
      (
        n,
        Follows-export s₀ (event "crash" name m.stamp) u.exporter
            (event-IsQuiet "crash" name m.stamp) f,
      )

  if_crash-IsExported :
      (o : Option String) (u : Ui) → IsExported s₀ u → IsExported s₀ (if_crash k m o u)
  if_crash-IsExported none u h = h
  if_crash-IsExported (some after) u h = on_crash-IsExported after u h

  pub if_new_func-IsExported :
      (line : String) (o : Option (List String)) (u : Ui)
      → IsExported s₀ u
      → IsExported s₀ (if_new_func k m line o u)
  if_new_func-IsExported line none u h =
      if_crash-IsExported (after_last "Test unit written to" line) u h
  if_new_func-IsExported line (some groups) u h = on_new_func-IsExported groups u h
