-- ===== src/Base/Substrings.antt =====
-- Laws of `in` and `startswith` on texts.
use Prim.Native.Nat.{◌+◌, ◌<◌}
use Prim.Native.String.{String, ◌++◌ as ◌<>◌}
use mathlib.Core.Path.{◌≡◌, refl, subst, ap}
use mathlib.Core.Bool.{true, false}
use native.Mathlib.Omega.{arith}
use text.Mathlib.TextLemmas.{cons-append, nil-append}
use apatchy.Base.Tests.{Bool-cases}
use mathlib.Core.Logic.{inl, inr}
use apatchy.Base.Equality.{◌==◌, string_eq, eq_of_==, ==-self}
use apatchy.Base.Text.{has_text, starts_with, size}

pub starts_with-append : (s p t : String) → starts_with s p ≡ true → starts_with (s <> t) p ≡ true
unfolding starts_with
starts_with-append s String.[] t h = refl
starts_with-append String.[] (String.◌∷◌ d p) t h = ground arith
starts_with-append (String.◌∷◌ c s) (String.◌∷◌ d p) t h =
    rw (cons-append c s t) (ground (arith, starts_with-append s p t))

pub starts_with_self : (s : String) → starts_with s s ≡ true
unfolding starts_with
starts_with_self String.[] = refl
starts_with_self (String.◌∷◌ c s) = ground (arith, starts_with_self s)

pub has_text_of_prefix : (p s : String) → starts_with s p ≡ true → has_text p s ≡ true
unfolding has_text starts_with
has_text_of_prefix String.[] String.[] h = ==-self {A = String} ""
has_text_of_prefix (String.◌∷◌ d p) String.[] h = ground arith
has_text_of_prefix p (String.◌∷◌ c s) h = rw h refl

pub size-append : (s t : String) → size (s <> t) ≡ size s + size t
size-append String.[] t = rw (nil-append t) (omega arith)
size-append (String.◌∷◌ c s) t = rw (cons-append c s t) (omega (arith, size-append s t))

-- A text is not itself with more behind it.
pub append-other : (s t : String) → 0 < size t → ((s <> t) == s) ≡ false
append-other s t h = elim (Bool-cases ((s <> t) == s)) [
  | inl e ↦
      let same = ap size (eq_of_== (s <> t) s e) in absurd (omega (arith, same, size-append s t, h))
  | inr e ↦ e
]

-- A text that starts with another is not one that does not.
pub starts_with-other : (p s t : String) → starts_with t p ≡ false → ((p <> s) == t) ≡ false
starts_with-other p s t h = elim (Bool-cases ((p <> s) == t)) [
  | inl e ↦
      let starts = starts_with-append p p s (starts_with_self p) in
      let other = subst (λ u. starts_with u p ≡ true) (eq_of_== (p <> s) t e) starts in
      ground (arith, other, h)
  | inr e ↦ e
]
