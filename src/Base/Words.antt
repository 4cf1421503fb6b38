-- ===== src/Base/Words.antt =====
-- Laws of `s.split()`: the words of texts that are put together with a blank between them.
use Prim.Native.Char.{Char}
use Prim.Native.String.{String, ◌++◌ as ◌<>◌}
use mathlib.Core.Path.{◌≡◌, refl, subst, ap, ◌∙◌}
use mathlib.Core.Bool.{true}
use mathlib.Core.List.{List, [], ◌∷◌, ◌++◌}
use mathlib.Core.Logic.{inl, inr}
use native.Mathlib.Omega.{arith}
use text.Mathlib.TextLemmas.{cons-append, nil-append}
use apatchy.Base.Tests.{Bool-cases}
use apatchy.Base.Equality.{◌==◌, contains, string_eq, eq_of_==, ==-self, contains-append}
use apatchy.Base.Text.{split, split_spaces, drop_empty, push_char, is_space, join}

-- A text that is one word: it is not empty and has no blank.
abbrev pub IsWord : String → Type 0
IsWord w = split w ≡ w ∷ []

-- The character between two words.
abbrev blank : Char
blank = " "

drop_empty-append : (xs ys : List String) → drop_empty (xs ++ ys) ≡ drop_empty xs ++ drop_empty ys
drop_empty-append [] ys = refl
drop_empty-append (String.[] ∷ xs) ys = drop_empty-append xs ys
drop_empty-append (String.◌∷◌ c w ∷ xs) ys = ap (λ l. String.◌∷◌ c w ∷ l) (drop_empty-append xs ys)

pub split_spaces-cons : (s : String) → (w : String) × (ws : List String) × (split_spaces s ≡ w ∷ ws)
unfolding split_spaces
split_spaces-cons String.[] = ("", [], refl)
split_spaces-cons (String.◌∷◌ c s) =
    let (w, ws, e) = split_spaces-cons s in
    elim (Bool-cases (is_space c)) [
      | inl b ↦ ("", split_spaces s, rw b refl)
      | inr b ↦ (String.◌∷◌ c w, ws, rw (b, e) refl)
    ]

push_char-append :
    (c : Char) (xs ys : List String)
    → ((w : String) × (ws : List String) × (xs ≡ w ∷ ws))
    → push_char c (xs ++ ys) ≡ push_char c xs ++ ys
push_char-append c xs ys (w, ws, e) = rw e refl

split_spaces-append :
    (s t : String) → split_spaces (s <> (" " <> t)) ≡ split_spaces s ++ split_spaces t
unfolding split_spaces
split_spaces-append String.[] t =
    ap split_spaces (nil-append (" " <> t))
    ∙ ap split_spaces (cons-append blank "" t ∙ ap (λ u. String.◌∷◌ blank u) (nil-append t))
split_spaces-append (String.◌∷◌ c s) t =
    rw (cons-append c s (" " <> t), split_spaces-append s t)
      (elim (Bool-cases (is_space c)) [
        | inl b ↦ rw b refl
        | inr b ↦ rw b (push_char-append c (split_spaces s) (split_spaces t) (split_spaces-cons s))
      ])

-- The words of two texts with a blank between them are those of the first and those of the second.
pub split-append : (s t : String) → split (s <> (" " <> t)) ≡ split s ++ split t
unfolding split
split-append s t =
    ap drop_empty (split_spaces-append s t) ∙ drop_empty-append (split_spaces s) (split_spaces t)

pub contains-split_left :
    (w s t : String) → contains (split s) w ≡ true → contains (split (s <> (" " <> t))) w ≡ true
contains-split_left w s t h =
    ap (λ l. contains l w) (split-append s t) ∙ (contains-append (split s) (split t) w ∙ rw h refl)

pub contains-split_right :
    (w s t : String) → contains (split t) w ≡ true → contains (split (s <> (" " <> t))) w ≡ true
contains-split_right w s t h =
    ap (λ l. contains l w) (split-append s t)
    ∙ (contains-append (split s) (split t) w ∙ ground (arith, h))

pub contains-split_self : (w : String) → IsWord w → contains (split w) w ≡ true
contains-split_self w h = ap (λ l. contains l w) h ∙ ground (arith, ==-self w)

pub contains-split-join :
    (w : String) (words : List String)
    → IsWord w
    → contains words w ≡ true
    → contains (split (join " " words)) w ≡ true
contains-split-join w [] i h = ground arith
contains-split-join w (word ∷ []) i h = elim (Bool-cases (w == word)) [
  | inl e ↦ subst (λ s. contains (split s) w ≡ true) (eq_of_== w word e) (contains-split_self w i)
  | inr e ↦ ground (arith, h, e)
]
contains-split-join w (word ∷ next ∷ words) i h = elim (Bool-cases (w == word)) [
  | inl e ↦
      contains-split_left w word (join " " (next ∷ words))
        (subst (λ s. contains (split s) w ≡ true) (eq_of_== w word e) (contains-split_self w i))
  | inr e ↦
      contains-split_right w word (join " " (next ∷ words))
        (contains-split-join w (next ∷ words) i (ground (arith, h, e)))
]
