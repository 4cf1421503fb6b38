-- ===== src/Grammar/Total.antt =====
-- fuzzers/grammar.py: when `_expand` raises an exception.
use apatchy.Base.{
  ℕ, zero, suc, ◌<◌, String, ◌<>◌, ◌≡◌, refl, Option, some, List, Option-cases, inl, inr, [], ◌∷◌,
  arith, length, get_elem?, string_eq,
}
use apatchy.Base.Dict.{lookup}
use apatchy.Grammar.{
  Random, Productions, Grammar, concat, first_terminal, terminal_or_shortest, shortest, shortest_of,
  expand_terminal, expand_terminals, choice, expand_each, expand,
}

-- Every symbol that is a key of the grammar has a production.
abbrev pub HasProductions : Grammar → Type 0
HasProductions g = (t : String) (ps : Productions) → lookup t g ≡ some ps → 0 < length ps

abbrev pub Succeeds : {A : Type 0} → Option A → Type 0
Succeeds {A} o = (a : A) × (o ≡ some a)

get_elem?-Succeeds : (ps : Productions) (i : ℕ) → i < length ps → Succeeds (get_elem? ps i)
get_elem?-Succeeds [] i h = absurd (omega arith)
get_elem?-Succeeds (p ∷ ps) zero h = (p, refl)
get_elem?-Succeeds (p ∷ ps) (suc i) h = get_elem?-Succeeds ps i (omega arith)

shortest-Succeeds : (ps : Productions) → 0 < length ps → Succeeds (shortest ps)
unfolding shortest
shortest-Succeeds [] h = absurd (omega arith)
shortest-Succeeds (p ∷ ps) h = (shortest_of p ps, refl)

module _ (g : Grammar) (ok : HasProductions g) where
  expand_terminal-Succeeds : (t : String) → Succeeds (expand_terminal g t)
  unfolding expand_terminal
  expand_terminal-Succeeds t = elim (Option-cases (lookup t g)) [
    | inl absent ↦ (t, rw (absent, expand_terminal))
    | inr (ps, present) ↦ elim (Option-cases (first_terminal g ps)) [
      | inl missing ↦
          let (p, e) = shortest-Succeeds ps (ok t ps present) in
          (concat p, rw (present, expand_terminal) (rw (missing, terminal_or_shortest) (rw e)))
      | inr (p, found) ↦
          (concat p, rw (present, expand_terminal) (rw (found, terminal_or_shortest)))
    ]
  ]

  expand_terminals-Succeeds : (ts : List String) → Succeeds (expand_terminals g ts)
  unfolding expand_terminals
  expand_terminals-Succeeds [] = ("", refl)
  expand_terminals-Succeeds (t ∷ ts) =
      let (x, e) = expand_terminal-Succeeds t in
      let (y, f) = expand_terminals-Succeeds ts in (x <> y, rw e (rw f))

  module _ (r : Random) where
    choice-Succeeds : (ps : Productions) (s : r.Source) → 0 < length ps → Succeeds (choice g r ps s)
    unfolding choice
    choice-Succeeds ps s h =
        let (i, s') = r.below (length ps) s in
        let (p, e) = get_elem?-Succeeds ps i (r.below-lt (length ps) s h) in
        ((p, s'), rw (e, choice))

    expand_each-Succeeds :
        (f : String → r.Source → Option (String × r.Source))
        → ((t : String) (s : r.Source) → Succeeds (f t s))
        → (ts : List String) (s : r.Source) → Succeeds (expand_each g r f ts s)
    expand_each-Succeeds f h [] s = (("", s), refl)
    expand_each-Succeeds f h (t ∷ ts) s =
        let ((x, s'), e) = h t s in
        let ((y, s''), e') = expand_each-Succeeds f h ts s' in ((x <> y, s''), rw e (rw e'))

    -- On a grammar in which every key has a production, expanding any symbol with any number of
    -- levels left, cyclic productions included, returns a text: no exception is raised.
    pub expand-Succeeds : (left : ℕ) (t : String) (s : r.Source) → Succeeds (expand g r left t s)
    unfolding expand
    expand-Succeeds zero t s = elim (Option-cases (lookup t g)) [
      | inl absent ↦ ((t, s), rw (absent, expand))
      | inr (ps, present) ↦
          let (p, e) = shortest-Succeeds ps (ok t ps present) in
          let (x, e') = expand_terminals-Succeeds p in ((x, s), rw (present, expand) (rw e (rw e')))
    ]
    expand-Succeeds (suc left) t s = elim (Option-cases (lookup t g)) [
      | inl absent ↦ ((t, s), rw (absent, expand))
      | inr (ps, present) ↦
          let ((p, s'), e) = choice-Succeeds ps s (ok t ps present) in
          let (result, e') = expand_each-Succeeds (expand g r left) (expand-Succeeds left) p s' in
          (result, rw (present, expand) (rw e e'))
    ]
