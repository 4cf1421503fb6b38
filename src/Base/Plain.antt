-- ===== src/Base/Plain.antt =====
-- Texts without a blank, and the words of `s.split()` that they occur in.
use Prim.Native.Char.{Char, code}
use Prim.Native.String.{String}
use mathlib.Core.Path.{◌≡◌, refl, subst, sym, ap}
use mathlib.Core.Bool.{Bool, true, false, not, ◌&&◌}
use mathlib.Core.List.{List, [], ◌∷◌}
use mathlib.Core.Logic.{inl, inr}
use native.Mathlib.Omega.{arith}
use apatchy.Base.Tests.{Bool-cases}
use apatchy.Base.Lists.{All}
use apatchy.Base.Equality.{◌==◌, contains, string_eq, eq_of_==, ==-self}
use apatchy.Base.Text.{split, split_spaces, drop_empty, push_char, is_space, has_text, starts_with}
use apatchy.Base.Words.{IsWord, split_spaces-cons}
use apatchy.Base.Substrings.{has_text_of_prefix}

abbrev pub no_blank : String → Bool
no_blank String.[] = true
no_blank (String.◌∷◌ c s) = not (is_space c) && no_blank s

-- A text that is not empty and has no blank.
abbrev pub is_plain : String → Bool
is_plain String.[] = false
is_plain (String.◌∷◌ c s) = no_blank (String.◌∷◌ c s)

abbrev pub IsPlain : String → Type 0
IsPlain s = is_plain s ≡ true

split_spaces-no_blank : (s : String) → no_blank s ≡ true → split_spaces s ≡ s ∷ []
unfolding split_spaces
split_spaces-no_blank String.[] h = refl
split_spaces-no_blank (String.◌∷◌ c s) h = elim (Bool-cases (is_space c)) [
  | inl e ↦ ground (arith, h, e)
  | inr e ↦ let rest = split_spaces-no_blank s (ground (arith, h, e)) in rw (e, rest) refl
]

pub IsPlain-IsWord : (s : String) → IsPlain s → IsWord s
unfolding split
IsPlain-IsWord String.[] h = ground arith
IsPlain-IsWord (String.◌∷◌ c s) h = ap drop_empty (split_spaces-no_blank (String.◌∷◌ c s) h)

abbrev NoBlanks : List String → Type 0
NoBlanks words = All (λ w. no_blank w ≡ true) words

push_char-NoBlanks :
    (c : Char) (words : List String)
    → is_space c ≡ false
    → NoBlanks words
    → NoBlanks (push_char c words)
push_char-NoBlanks c [] h ws = (rw h refl, tt)
push_char-NoBlanks c (w ∷ words) h (i, is) = (rw h i, is)

split_spaces-NoBlanks : (s : String) → NoBlanks (split_spaces s)
unfolding split_spaces
split_spaces-NoBlanks String.[] = (refl, tt)
split_spaces-NoBlanks (String.◌∷◌ c s) = elim (Bool-cases (is_space c)) [
  | inl e ↦ rw e (refl, split_spaces-NoBlanks s)
  | inr e ↦ rw e (push_char-NoBlanks c (split_spaces s) e (split_spaces-NoBlanks s))
]

drop_empty-IsPlain :
    (words : List String) (w : String)
    → NoBlanks words
    → contains (drop_empty words) w ≡ true
    → IsPlain w
drop_empty-IsPlain [] w b h = ground arith
drop_empty-IsPlain (String.[] ∷ words) w (b, bs) h = drop_empty-IsPlain words w bs h
drop_empty-IsPlain (String.◌∷◌ c v ∷ words) w (b, bs) h = elim (Bool-cases (w == String.◌∷◌ c v)) [
  | inl e ↦ subst IsPlain (sym (eq_of_== w (String.◌∷◌ c v) e)) b
  | inr e ↦ drop_empty-IsPlain words w bs (ground (arith, h, e))
]

-- The words of a text are not empty and have no blank.
pub split-IsPlain : (s w : String) → contains (split s) w ≡ true → IsPlain w
unfolding split
split-IsPlain s w h = drop_empty-IsPlain (split_spaces s) w (split_spaces-NoBlanks s) h

-- One of some words has a text in it.
abbrev pub HasWord : String → List String → Type 0
HasWord p words = (w : String) × (contains words w ≡ true) × (has_text p w ≡ true)

-- The first of some words starts with a text.
abbrev StartsFirst : String → List String → Type 0
StartsFirst p [] = ⊥
StartsFirst p (w ∷ words) = starts_with w p ≡ true

starts_with-nil : (s : String) → starts_with s "" ≡ true
unfolding starts_with
starts_with-nil String.[] = refl
starts_with-nil (String.◌∷◌ c s) = refl

push_char-StartsFirst :
    (c : Char) (p : String) (words : List String)
    → StartsFirst p words
    → (d : Char) → code c ≡ code d
    → StartsFirst (String.◌∷◌ d p) (push_char c words)
unfolding starts_with
push_char-StartsFirst c p [] h d e = absurd h
push_char-StartsFirst c p (w ∷ words) h d e = ground (arith, h, e)

split_spaces-StartsFirst :
    (s p : String) → no_blank p ≡ true → starts_with s p ≡ true → StartsFirst p (split_spaces s)
unfolding split_spaces starts_with
split_spaces-StartsFirst String.[] String.[] b h = refl
split_spaces-StartsFirst String.[] (String.◌∷◌ d p) b h = ground arith
split_spaces-StartsFirst (String.◌∷◌ c s) String.[] b h =
    let (w, ws, e) = split_spaces-cons (String.◌∷◌ c s) in rw e (starts_with-nil w)
split_spaces-StartsFirst (String.◌∷◌ c s) (String.◌∷◌ d p) b h =
    let rest = split_spaces-StartsFirst s p (ground (arith, b)) (ground (arith, h)) in
    let same : code c ≡ code d = ground (arith, h) in
    let solid : is_space c ≡ false = ground (arith, b, same) in
    rw solid (push_char-StartsFirst c p (split_spaces s) rest d same)

StartsFirst-HasWord : (p : String) (words : List String) → StartsFirst p words → HasWord p words
StartsFirst-HasWord p [] h = absurd h
StartsFirst-HasWord p (w ∷ words) h = (w, ground (arith, ==-self w), has_text_of_prefix p w h)

HasWord-cons : (p v : String) (words : List String) → HasWord p words → HasWord p (v ∷ words)
HasWord-cons p v words (w, k, t) = (w, ground (arith, k), t)

push_char-HasWord :
    (c : Char) (p : String) (words : List String) → HasWord p words → HasWord p (push_char c words)
unfolding has_text
push_char-HasWord c p [] (w, k, t) = ground arith
push_char-HasWord c p (v ∷ words) (w, k, t) = elim (Bool-cases (w == v)) [
  | inl e ↦
      let inside = subst (λ u. has_text p u ≡ true) (eq_of_== w v e) t in
      (String.◌∷◌ c v, ground (arith, ==-self (String.◌∷◌ c v)), ground (arith, inside))
  | inr e ↦ HasWord-cons p (String.◌∷◌ c v) words (w, ground (arith, k, e), t)
]

split_spaces-HasWord :
    (s p : String) → no_blank p ≡ true → has_text p s ≡ true → HasWord p (split_spaces s)
unfolding split_spaces has_text
split_spaces-HasWord String.[] p b h = ("", ground (arith, ==-self {A = String} ""), h)
split_spaces-HasWord (String.◌∷◌ c s) p b h = elim (Bool-cases (starts_with (String.◌∷◌ c s) p)) [
  | inl e ↦
      StartsFirst-HasWord p (split_spaces (String.◌∷◌ c s))
        (split_spaces-StartsFirst (String.◌∷◌ c s) p b e)
  | inr e ↦
      let rest = split_spaces-HasWord s p b (ground (arith, h, e)) in
      elim (Bool-cases (is_space c)) [
        | inl f ↦ rw f (HasWord-cons p "" (split_spaces s) rest)
        | inr f ↦ rw f (push_char-HasWord c p (split_spaces s) rest)
      ]
]

plain-other : (p : String) → IsPlain p → (p == "") ≡ false
plain-other p h = elim (Bool-cases (p == "")) [
  | inl e ↦ let none = subst IsPlain (eq_of_== p "" e) h in ground (arith, none)
  | inr e ↦ e
]

drop_empty-HasWord :
    (words : List String) (p : String) → IsPlain p → HasWord p words → HasWord p (drop_empty words)
unfolding has_text
drop_empty-HasWord [] p b (w, k, t) = ground arith
drop_empty-HasWord (String.[] ∷ words) p b (w, k, t) = elim (Bool-cases (w == "")) [
  | inl e ↦
      let none = subst (λ u. has_text p u ≡ true) (eq_of_== w "" e) t in
      ground (arith, none, plain-other p b)
  | inr e ↦ drop_empty-HasWord words p b (w, ground (arith, k, e), t)
]
drop_empty-HasWord (String.◌∷◌ c v ∷ words) p b (w, k, t) =
    elim (Bool-cases (w == String.◌∷◌ c v)) [
      | inl e ↦ (w, ground (arith, e), t)
      | inr e ↦
          HasWord-cons p (String.◌∷◌ c v) (drop_empty words)
            (drop_empty-HasWord words p b (w, ground (arith, k, e), t))
    ]

no_blank-plain : (p : String) → IsPlain p → no_blank p ≡ true
no_blank-plain String.[] h = refl
no_blank-plain (String.◌∷◌ c p) h = h

-- A plain text that occurs in a text occurs in one of its words.
pub split-HasWord : (s p : String) → IsPlain p → has_text p s ≡ true → HasWord p (split s)
unfolding split
split-HasWord s p b h =
    drop_empty-HasWord (split_spaces s) p b (split_spaces-HasWord s p (no_blank-plain p b) h)
