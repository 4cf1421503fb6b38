-- ===== src/Base/Decimal.antt =====
-- `str(n)` of a number that is not negative, and that `int` reads it back.
use Prim.Native.Nat.{ℕ, zero, suc, ◌+◌, ◌-◌, ◌*◌, ◌/◌, ◌%◌, ◌<◌}
use Prim.Native.Char.{code}
use Prim.Native.String.{String, ◌++◌ as ◌<>◌}
use mathlib.Core.Path.{◌≡◌, refl, ◌∙◌, ap}
use mathlib.Core.Logic.{inl, inr}
use mathlib.Core.Option.{some}
use mathlib.Core.List.{List, [], ◌∷◌}
use native.Mathlib.Omega.{arith}
use text.Mathlib.TextLemmas.{cons-append, nil-append}
use apatchy.Base.Tests.{if◌then◌else◌, leb, or_default, Bool-cases, ◌>>=◌}
use apatchy.Base.Lists.{get_elem?}
use apatchy.Base.Text.{digits, int}

-- A digit for each step.
abbrev pub digit : ℕ → String
digit n =
    or_default (get_elem? ("0" ∷ "1" ∷ "2" ∷ "3" ∷ "4" ∷ "5" ∷ "6" ∷ "7" ∷ "8" ∷ "9" ∷ []) (n % 10))
      ""

abbrev pub decimal_of : ℕ → ℕ → String
decimal_of zero n = ""
decimal_of (suc fuel) n =
    let rest = decimal_of fuel (n / 10) in if leb n 9 then digit n else rest <> digit n

unfoldable pub decimal : ℕ → String
decimal n = decimal_of (suc n) n

digits-append : (m : ℕ) (s t : String) → digits m (s <> t) ≡ (digits m s >>= λ n. digits n t)
digits-append m String.[] t = rw (nil-append t) refl
digits-append m (String.◌∷◌ c s) t =
    rw (cons-append c s t) (ground (arith, digits-append (m * 10 + (code c - 48)) s t))

abbrev digit_texts : List String
digit_texts = "0" ∷ "1" ∷ "2" ∷ "3" ∷ "4" ∷ "5" ∷ "6" ∷ "7" ∷ "8" ∷ "9" ∷ []

digits-digit_small :
    (m d : ℕ) → d < 10 → digits m (or_default (get_elem? digit_texts d) "") ≡ some (m * 10 + d)
digits-digit_small m zero h = refl
digits-digit_small m (suc zero) h = refl
digits-digit_small m (suc (suc zero)) h = refl
digits-digit_small m (suc (suc (suc zero))) h = refl
digits-digit_small m (suc (suc (suc (suc zero)))) h = refl
digits-digit_small m (suc (suc (suc (suc (suc zero))))) h = refl
digits-digit_small m (suc (suc (suc (suc (suc (suc zero)))))) h = refl
digits-digit_small m (suc (suc (suc (suc (suc (suc (suc zero))))))) h = refl
digits-digit_small m (suc (suc (suc (suc (suc (suc (suc (suc zero)))))))) h = refl
digits-digit_small m (suc (suc (suc (suc (suc (suc (suc (suc (suc zero))))))))) h = refl
digits-digit_small m (suc (suc (suc (suc (suc (suc (suc (suc (suc (suc d)))))))))) h =
    absurd (omega (arith, h))

digits-digit : (m n : ℕ) → digits m (digit n) ≡ some (m * 10 + n % 10)
digits-digit m n = digits-digit_small m (n % 10) (omega arith)

digits-decimal_of : (fuel n : ℕ) → n < fuel → digits 0 (decimal_of fuel n) ≡ some n
digits-decimal_of zero n h = absurd (omega (arith, h))
digits-decimal_of (suc fuel) n h = elim (Bool-cases (leb n 9)) [
  | inl e ↦ rw e (digits-digit 0 n ∙ ap some (ground arith))
  | inr e ↦
      let big : 9 < n = ground (arith, e) in
      let rest = digits-decimal_of fuel (n / 10) (omega (arith, h, big)) in
      rw e (
        digits-append 0 (decimal_of fuel (n / 10)) (digit n)
        ∙ ap (λ o. o >>= λ m. digits m (digit n)) rest
        ∙ digits-digit (n / 10) n
        ∙ ap some (omega arith))
]

int-digits : (s : String) (n : ℕ) → digits 0 s ≡ some (suc n) → int s ≡ some (suc n)
unfolding int
int-digits String.[] n h = cc
int-digits (String.◌∷◌ c s) n h = h

-- A number is read back from its print.
pub int-decimal : (n : ℕ) → int (decimal n) ≡ some n
unfolding int decimal
int-decimal zero = refl
int-decimal (suc n) =
    int-digits (decimal (suc n)) n (digits-decimal_of (suc (suc n)) (suc n) (omega arith))
