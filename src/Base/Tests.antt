-- ===== src/Base/Tests.antt =====
-- Python's tests on numbers, its conditional, and splits that keep the equation.
use Prim.Native.Nat.{ℕ, compare, Ordering}
use mathlib.Core.Path.{◌≡◌, refl, subst}
use mathlib.Core.Logic.{◌⊎◌, inl, inr}
use mathlib.Core.Bool.{Bool, true, false}
use mathlib.Core.Option.{Option, none, some}

abbrev pub ltb : ℕ → ℕ → Bool
ltb a b = elim (compare a b) [ Ordering.lt ↦ true | _ ↦ false ]

abbrev pub leb : ℕ → ℕ → Bool
leb a b = elim (compare a b) [ Ordering.gt ↦ false | _ ↦ true ]

abbrev pub eqb : ℕ → ℕ → Bool
eqb a b = elim (compare a b) [ Ordering.eq ↦ true | _ ↦ false ]

infix 1 if◌then◌else◌
abbrev pub if◌then◌else◌ {ℓ} : {A : Type ℓ} → Bool → A → A → A
if true then x else y = x
if false then x else y = y

pub Bool-cases : (b : Bool) → (b ≡ true) ⊎ (b ≡ false)
Bool-cases true = inl refl
Bool-cases false = inr refl

pub Option-cases {ℓ} : {A : Type ℓ} (o : Option A) → (o ≡ none) ⊎ ((a : A) × (o ≡ some a))
Option-cases none = inl refl
Option-cases (some a) = inr (a, refl)

-- `x is not None`
abbrev pub is_some {ℓ} : {A : Type ℓ} → Option A → Bool
is_some none = false
is_some (some a) = true

-- `x or d`, where `x` is `None` or truthy
abbrev pub or_default {ℓ} : {A : Type ℓ} → Option A → A → A
or_default none d = d
or_default (some a) d = a

-- A chain of steps that may fail.
infixl 5 ◌>>=◌
abbrev pub ◌>>=◌ {ℓ κ} : {A : Type ℓ} {B : Type κ} → Option A → (A → Option B) → Option B
none >>= f = none
some a >>= f = f a

-- A chain that succeeds is one whose steps do.
pub bind-eq-some {ℓ κ} :
    {A : Type ℓ} {B : Type κ} (m : Option A) (f : A → Option B) {b : B}
    → (m >>= f) ≡ some b
    → (a : A) × (m ≡ some a) × (f a ≡ some b)
bind-eq-some none f h = cc
bind-eq-some (some a) f h = (a, refl, h)

-- A predicate of the result of a chain, if it has one.
module _ {ℓ κ} {A : Type ℓ} (P : A → Type κ) where
  abbrev pub When : Option A → Type κ
  When none = Unit
  When (some a) = P a

  pub When-bind {μ} :
      {B : Type μ} (m : Option B) (f : B → Option A) → ((b : B) → When (f b)) → When (m >>= f)
  When-bind none f h = tt
  When-bind (some b) f h = h b

  pub of_When : (o : Option A) (a : A) → o ≡ some a → When o → P a
  of_When o a e h = subst When e h

  pub When-bind_eq {μ} :
      {B : Type μ} (m : Option B) (f : B → Option A)
      → ((b : B) → m ≡ some b → When (f b))
      → When (m >>= f)
  When-bind_eq none f h = tt
  When-bind_eq (some b) f h = h b refl
