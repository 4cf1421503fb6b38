-- ===== src/Base/Equality.antt =====
-- `==` and `in` for types with a decided equality.
use Prim.Native.Nat.{ℕ}
use Prim.Native.String.{String}
use mathlib.Core.Path.{◌≡◌, refl}
use mathlib.Core.Logic.{◌≢◌, ite, dite}
use mathlib.Core.Bool.{Bool, true, false, ◌||◌, Bool-discrete}
use mathlib.Core.List.{List, [], ◌∷◌, ◌++◌}
use native.Mathlib.Decide.{ℕ_discrete}
use native.Mathlib.Omega.{arith}
use text.Mathlib.Text
use text.Mathlib.TextEquality.{eq_iff}

pub record Eq {ℓ} (A : Type ℓ) : Type ℓ where
  pub dec : Discrete A

module _ {ℓ} {A : Type ℓ} ⦃e : Eq A⦄ where
  infix 50 ◌==◌
  abbrev pub ◌==◌ : A → A → Bool
  a == b = ite (e.dec a b) true false

  abbrev pub contains : List A → A → Bool
  contains [] a = false
  contains (x ∷ xs) a = a == x || contains xs a

  pub eq_of_== : (a b : A) → (a == b) ≡ true → a ≡ b
  eq_of_== a b h = ground arith

  pub ne_of_== : (a b : A) → (a == b) ≡ false → a ≢ b
  ne_of_== a b h = ground arith

  pub ==-self : (a : A) → (a == a) ≡ true
  ==-self a = ground arith

  pub contains-append :
      (xs ys : List A) (a : A) → contains (xs ++ ys) a ≡ (contains xs a || contains ys a)
  contains-append [] ys a = refl
  contains-append (x ∷ xs) ys a = ground (arith, contains-append xs ys a)

string_dec : Discrete String
string_dec s t =
    dite (Bool-discrete (Text.◌==◌ s t) true) (λ same. yes ((eq_iff s t).0 same))
      (λ differ. no (λ p. differ ((eq_iff s t).1 p)))

-- Shut in proofs, where a split on `s == t` gives the equation or its negation.
instance unfoldable pub string_eq : Eq String
unfolding string_dec
string_eq = record { dec = string_dec }

instance unfoldable pub nat_eq : Eq ℕ
unfolding ℕ_discrete
nat_eq = record { dec = ℕ_discrete }

bytes_dec : Discrete (List ℕ)
unfolding ℕ_discrete
bytes_dec = hlevel ℕ_discrete

-- `bytes`, as the list of their values
instance unfoldable pub bytes_eq : Eq (List ℕ)
unfolding bytes_dec
bytes_eq = record { dec = bytes_dec }

parts_dec : Discrete (List String)
unfolding string_dec
parts_dec = hlevel string_dec

-- Paths, as the list of their parts
instance unfoldable pub parts_eq : Eq (List String)
unfolding parts_dec
parts_eq = record { dec = parts_dec }
