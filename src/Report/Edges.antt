-- ===== src/Report/Edges.antt =====
-- managers/report_manager.py, `generate_introspect`: the edges of the call graph, each key once.
use apatchy.Base.{
  Bool, true, false, not, ◌&&◌, ◌≡◌, refl, ◌∙◌, sym, ap, subst, List, [], ◌∷◌, ◌++◌, if◌then◌else◌,
  ◌==◌, nat_eq, string_eq, arith, Bool-cases, inl, inr, any, keep, eq_of_==,
}
use mathlib.Core.List.{append_assoc, append-nil}
use apatchy.Report.Analysis.{EdgeKey, Edge, Edges, key_of, same_key, add_edges}

-- An edge, and of what follows only edges with another key.
abbrev pub first_edges : List Edge → List Edge
first_edges [] = []
first_edges (e ∷ es) = e ∷ keep (λ x. not (same_key (key_of x) (key_of e))) (first_edges es)

and_true : (a b : Bool) → (a && b) ≡ true → (a ≡ true) × (b ≡ true)
and_true true b h = (refl, h)
and_true false b h = absurd (ground (arith, h))

eq_of_same_key : (k j : EdgeKey) → same_key k j ≡ true → k ≡ j
eq_of_same_key (a, b, c, n) (a', b', c', n') h =
    let (ha, t) = and_true (a == a') _ h in
    let (hb, u) = and_true (b == b') _ t in
    let (hc, hn) = and_true (c == c') _ u in
    rw (eq_of_== a a' ha, eq_of_== b b' hb, eq_of_== c c' hc, eq_of_== n n' hn) refl

abbrev unseen : List EdgeKey → Edge → Bool
unseen seen x = not (any (same_key (key_of x)) seen)

module _ {A : Type 0} where
  keep-keep :
      (p q r : A → Bool) (xs : List A)
      → ((x : A) → (p x && q x) ≡ r x)
      → keep p (keep q xs) ≡ keep r xs
  keep-keep p q r [] h = refl
  keep-keep p q r (x ∷ xs) h = ground (arith, h x, keep-keep p q r xs h)

seen_key :
    (seen : List EdgeKey) (e x : Edge)
    → any (same_key (key_of e)) seen ≡ true
    → (unseen seen x && not (same_key (key_of x) (key_of e))) ≡ unseen seen x
seen_key seen e x h = elim (Bool-cases (same_key (key_of x) (key_of e))) [
  | inr q ↦ ground (arith, q)
  | inl q ↦ ground (
    arith,
    q,
    subst (λ k. any (same_key k) seen ≡ true) (sym (eq_of_same_key (key_of x) (key_of e) q)) h,
  )
]

-- The edges that are added to some are the first ones of each key that is new.
merged-add_edges :
    (es : List Edge) (s : Edges)
    → (add_edges es s).merged ≡ s.merged ++ keep (unseen s.seen) (first_edges es)
unfolding add_edges
merged-add_edges [] s = sym (append-nil s.merged)
merged-add_edges (e ∷ es) s =
    let rest = first_edges es in
    let other : Edge → Bool = λ x. not (same_key (key_of x) (key_of e)) in
    let t : Edges = record { seen = key_of e ∷ s.seen; merged = s.merged ++ (e ∷ []) } in
    let step : Bool → List Edge = λ b. (add_edges es (if b then s else t)).merged in
    let later = keep (unseen s.seen) (keep other rest) in
    let new : Bool → List Edge = λ b. s.merged ++ (if not b then e ∷ later else later) in
    elim (Bool-cases (any (same_key (key_of e)) s.seen)) [
      | inl h ↦
          ap step h
          ∙ merged-add_edges es s
          ∙ ap (λ l. s.merged ++ l)
              (sym
                (keep-keep (unseen s.seen) other (unseen s.seen) rest (λ x. seen_key s.seen e x h)))
          ∙ sym (ap new h)
      | inr h ↦
          ap step h
          ∙ merged-add_edges es t
          ∙ append_assoc s.merged (e ∷ []) (keep (unseen t.seen) rest)
          ∙ ap (λ l. s.merged ++ (e ∷ l))
              (sym (keep-keep (unseen s.seen) other (unseen t.seen) rest (λ x. ground arith)))
          ∙ sym (ap new h)
    ]

keep-all : (p : Edge → Bool) (es : List Edge) → ((x : Edge) → p x ≡ true) → keep p es ≡ es
keep-all p [] h = refl
keep-all p (e ∷ es) h = rw (h e) (ap (λ l. e ∷ l) (keep-all p es h))

pub add_edges-first_edges :
    (es : List Edge) → (add_edges es (record { seen = []; merged = [] })).merged ≡ first_edges es
add_edges-first_edges es =
    merged-add_edges es (record { seen = []; merged = [] })
    ∙ keep-all (unseen []) (first_edges es) (λ x. refl)

pub add_edges-append :
    (es fs : List Edge) (s : Edges) → add_edges (es ++ fs) s ≡ add_edges fs (add_edges es s)
unfolding add_edges
add_edges-append [] fs s = refl
add_edges-append (e ∷ es) fs s = add_edges-append es fs (
    if any (same_key (key_of e)) s.seen
    then s
    else record { seen = key_of e ∷ s.seen; merged = s.merged ++ (e ∷ []) })
