-- ===== src/Report/Triage/Labels.antt =====
-- managers/report_manager.py, `_classify_bugs` and `triage_bulk`: the labels in the text of a result.
use apatchy.Base.{
  String, ◌<>◌, Bool, true, false, not, ◌&&◌, ◌≡◌, refl, ◌∙◌, sym, ap, subst, none, some, List, [],
  ◌∷◌, ◌++◌, if◌then◌else◌, ◌==◌, string_eq, arith, contains, contains-append, eq_of_==, ==-self,
  all, Bool-cases, inl, inr,
}
use apatchy.Base.Dict.{Dict, lookup, get_or}
use apatchy.Base.Text.{join}
use apatchy.Report.Triage.{add_labels, bug_labels, is_blank, label_of, push_front, split_labels}
use text.Mathlib.TextLemmas.{cons-append, nil-append}
use Prim.Native.Char.{Char}

-- A text without a blank, as a group `\S+` is.
abbrev pub no_blank : String → Bool
no_blank String.[] = true
no_blank (String.◌∷◌ c s) = not (is_blank c) && no_blank s

no_blank_second :
    (c d : Char) (s : String) → no_blank (String.◌∷◌ c (String.◌∷◌ d s)) ≡ true → is_blank d ≡ false
no_blank_second c d s h = ground (arith, h)

no_blank_tail :
    (c d : Char) (s : String)
    → no_blank (String.◌∷◌ c (String.◌∷◌ d s)) ≡ true
    → no_blank (String.◌∷◌ d s) ≡ true
no_blank_tail c d s h = ground (arith, h)

not_split :
    (c d : Char) (s : String)
    → is_blank d ≡ false
    → split_labels (String.◌∷◌ c (String.◌∷◌ d s)) ≡ push_front c (split_labels (String.◌∷◌ d s))
unfolding split_labels
not_split c d s h = ground (arith, h)

pub split_labels-no_blank : (w : String) → no_blank w ≡ true → split_labels w ≡ w ∷ []
unfolding split_labels
split_labels-no_blank String.[] h = refl
split_labels-no_blank (String.◌∷◌ c String.[]) h = refl
split_labels-no_blank (String.◌∷◌ c (String.◌∷◌ d s)) h =
    not_split c d s (no_blank_second c d s h)
    ∙ ap (push_front c) (split_labels-no_blank (String.◌∷◌ d s) (no_blank_tail c d s h))

abbrev sign : Char → String → String
sign c s = String.◌∷◌ c s

comma-append : (c d : Char) (t : String) → sign c (sign d "") <> t ≡ sign c (sign d t)
comma-append c d t =
    cons-append c (sign d "") t ∙ ap (sign c) (cons-append d "" t ∙ ap (sign d) (nil-append t))

split_comma : (t : String) → split_labels (", " <> t) ≡ "" ∷ split_labels t
unfolding split_labels
split_comma t = ap split_labels (comma-append "," " " t)

split_labels-comma :
    (w t : String) → no_blank w ≡ true → split_labels (w <> (", " <> t)) ≡ w ∷ split_labels t
unfolding split_labels
split_labels-comma String.[] t h = ap split_labels (nil-append (", " <> t)) ∙ split_comma t
split_labels-comma (String.◌∷◌ c String.[]) t h =
    ap split_labels (cons-append c "" (", " <> t) ∙ ap (sign c) (nil-append (", " <> t)))
    ∙ ap (λ u. split_labels (sign c u)) (comma-append "," " " t)
    ∙ not_split c "," (sign " " t) refl
    ∙ ap (push_front c) (ap split_labels (sym (comma-append "," " " t)) ∙ split_comma t)
split_labels-comma (String.◌∷◌ c (String.◌∷◌ d s)) t h =
    let rest = s <> (", " <> t) in
    ap split_labels
      (cons-append c (sign d s) (", " <> t) ∙ ap (sign c) (cons-append d s (", " <> t)))
    ∙ not_split c d rest (no_blank_second c d s h)
    ∙ ap (λ u. push_front c (split_labels u)) (sym (cons-append d s (", " <> t)))
    ∙ ap (push_front c) (split_labels-comma (String.◌∷◌ d s) t (no_blank_tail c d s h))

-- The labels that are joined are read back, if none has a blank.
pub split_labels-join :
    (label : String) (labels : List String)
    → all no_blank (label ∷ labels) ≡ true
    → split_labels (join ", " (label ∷ labels)) ≡ label ∷ labels
split_labels-join label [] h = split_labels-no_blank label (ground (arith, h))
split_labels-join label (next ∷ labels) h =
    split_labels-comma label (join ", " (next ∷ labels)) (ground (arith, h))
    ∙ ap (λ l. label ∷ l) (split_labels-join next labels (ground (arith, h)))

-- What a lookup finds passes a test that all values pass.
get_or-all :
    (key default : String) (d : Dict String String)
    → all (λ x. no_blank x.1) d ≡ true
    → no_blank default ≡ true
    → no_blank (get_or key d default) ≡ true
get_or-all key default [] h q = q
get_or-all key default ((k, v) ∷ d) h q =
    let passes : Bool → Type 0 = λ b.
      no_blank
        (elim (if b then some v else lookup key d) as (λ _. String) [ none ↦ default | some w ↦ w ])
      ≡ true in
    elim (Bool-cases (key == k)) [
      | inl e ↦ subst passes (sym e) (ground (arith, h))
      | inr e ↦ subst passes (sym e) (get_or-all key default d (ground (arith, h)) q)
    ]

label_of-no_blank : (raw : String) → no_blank raw ≡ true → no_blank (label_of raw) ≡ true
label_of-no_blank raw h = get_or-all raw raw bug_labels refl h

all-snoc :
    (labels : List String) (label : String)
    → all no_blank labels ≡ true
    → no_blank label ≡ true
    → all no_blank (labels ++ (label ∷ [])) ≡ true
all-snoc [] label h q = rw q refl
all-snoc (l ∷ labels) label h q = ground (arith, h, all-snoc labels label (ground (arith, h)) q)

abbrev pub next_labels : String → List String → List String
next_labels raw labels =
    if contains labels (label_of raw) then labels else labels ++ (label_of raw ∷ [])

pub add_labels-no_blank :
    (raws labels : List String)
    → all no_blank raws ≡ true
    → all no_blank labels ≡ true
    → all no_blank (add_labels raws labels) ≡ true
unfolding add_labels
add_labels-no_blank [] labels h q = q
add_labels-no_blank (raw ∷ raws) labels h q =
    add_labels-no_blank raws (next_labels raw labels) (ground (arith, h))
      (elim (Bool-cases (contains labels (label_of raw))) [
        | inl e ↦ rw e q
        | inr e ↦
            rw e (all-snoc labels (label_of raw) q (label_of-no_blank raw (ground (arith, h))))
      ])

-- No label stands twice.
abbrev pub distinct : List String → Bool
distinct [] = true
distinct (l ∷ labels) = not (contains labels l) && distinct labels

distinct-snoc :
    (labels : List String) (label : String)
    → distinct labels ≡ true
    → contains labels label ≡ false
    → distinct (labels ++ (label ∷ [])) ≡ true
distinct-snoc [] label h q = refl
distinct-snoc (l ∷ labels) label h q =
    let other : (l == label) ≡ false = elim (Bool-cases (l == label)) [
      | inl e ↦
          let same : (label == l) ≡ true =
            subst (λ x. (label == x) ≡ true) (sym (eq_of_== l label e)) (==-self label) in
          absurd (ground (arith, same, q))
      | inr e ↦ e
    ] in
    let rest = distinct-snoc labels label (ground (arith, h)) (ground (arith, q)) in
    rw (contains-append labels (label ∷ []) l, other, rest) (ground (arith, h))

pub add_labels-distinct :
    (raws labels : List String) → distinct labels ≡ true → distinct (add_labels raws labels) ≡ true
unfolding add_labels
add_labels-distinct [] labels h = h
add_labels-distinct (raw ∷ raws) labels h =
    add_labels-distinct raws (next_labels raw labels)
      (elim (Bool-cases (contains labels (label_of raw))) [
        | inl e ↦ rw e h
        | inr e ↦ rw e (distinct-snoc labels (label_of raw) h e)
      ])
