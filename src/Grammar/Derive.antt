-- ===== src/Grammar/Derive.antt =====
-- fuzzers/grammar.py: what `_expand` can produce.
use apatchy.Base.{
  bind-eq-some, ℕ, zero, suc, String, ◌<>◌, true, ◌≡◌, refl, ◌∙◌, ap, sym, subst, Option, some,
  List, leb, Bool-cases, Option-cases, inl, inr, [], ◌∷◌, ◌++◌, arith, All, All-append, all, length,
  get_elem?, string_eq,
}
use text.Mathlib.TextLemmas.{append-nil as append-empty, nil-append as empty-append, append_assoc}
use apatchy.Base.Dict.{lookup}
use apatchy.Grammar.{
  Random, Productions, Grammar, concat, is_terminal, first_terminal, terminal_or_shortest, shortest,
  shortest_of, expand_terminal, expand_terminals, choice, expand_each, expand,
}

-- `Derives g t us`: the symbols `us` come from `t` by leaving it as it is, or by replacing it by one
-- of its productions, each of whose symbols is treated so in turn.
mutual
  pub data Derives (g : Grammar) : String → List String → Type 0 where
    leave : (t : String) → Derives g t (t ∷ [])
    replace :
        {p us : List String} (t : String) (ps : Productions) (i : ℕ)
        → lookup t g ≡ some ps
        → get_elem? ps i ≡ some p
        → DerivesAll g p us
        → Derives g t us

  pub data DerivesAll (g : Grammar) : List String → List String → Type 0 where
    none_left : DerivesAll g [] []
    each :
        {t : String} {ts us vs : List String}
        → Derives g t us
        → DerivesAll g ts vs
        → DerivesAll g (t ∷ ts) (us ++ vs)

abbrev pub AreTerminals : Grammar → List String → Type 0
AreTerminals g = All (λ t. is_terminal g t ≡ true)

-- Every symbol that has productions has one of terminals only.
abbrev pub IsGrounded : Grammar → Type 0
IsGrounded g =
    (t : String) (ps : Productions)
    → lookup t g ≡ some ps
    → (p : List String) × (first_terminal g ps ≡ some p)

-- `text` spells symbols that come from `t`, all of them terminals if the grammar is grounded.
pub record Spells (g : Grammar) (t : String) (text : String) : Type 0 where
  pub symbols : List String
  pub derives : Derives g t symbols
  pub spelled : text ≡ concat symbols
  pub grounded : IsGrounded g → AreTerminals g symbols

-- The same for the symbols of a production.
record SpellsAll (g : Grammar) (ts : List String) (text : String) : Type 0 where
  symbols : List String
  derives : DerivesAll g ts symbols
  spelled : text ≡ concat symbols
  grounded : IsGrounded g → AreTerminals g symbols

fst_of_some {ℓ κ} :
    {A : Type ℓ} {B : Type κ} {a c : A} {b d : B}
    → some (let p : A × B = (a, b) in p) ≡ some (c, d)
    → a ≡ c
fst_of_some e = cc e

concat-append : (us vs : List String) → concat (us ++ vs) ≡ concat us <> concat vs
concat-append [] vs = sym (empty-append (concat vs))
concat-append (u ∷ us) vs =
    ap (λ t. u <> t) (concat-append us vs) ∙ sym (append_assoc u (concat us) (concat vs))

AreTerminals-of_all :
    (g : Grammar) (p : List String) → all (is_terminal g) p ≡ true → AreTerminals g p
AreTerminals-of_all g [] h = tt
AreTerminals-of_all g (t ∷ p) h = (ground arith, AreTerminals-of_all g p (ground arith))

-- A production that is found is one of the list.
abbrev pub IsOneOf : List String → Productions → Type 0
IsOneOf p ps = (i : ℕ) × (get_elem? ps i ≡ some p)

first_terminal_lem :
    (g : Grammar) (ps : Productions) {p : List String}
    → first_terminal g ps ≡ some p
    → AreTerminals g p × IsOneOf p ps
first_terminal_lem g [] e = cc
first_terminal_lem g (q ∷ ps) {p} e = elim (Bool-cases (all (is_terminal g) q)) [
  | inl h ↦
      let same : q ≡ p = ground arith in (rw same at (AreTerminals-of_all g q h), (0, ap some same))
  | inr h ↦
      let (terminals, (i, found)) = first_terminal_lem g ps {p = p} (ground arith) in
      (terminals, (suc i, found))
]

shortest_of_lem : (p : List String) (ps : Productions) → IsOneOf (shortest_of p ps) (p ∷ ps)
shortest_of_lem p [] = (0, refl)
shortest_of_lem p (q ∷ ps) =
    let (i, found) = shortest_of_lem q ps in
    elim (Bool-cases (leb (length p) (length (shortest_of q ps)))) [
      | inl h ↦ rw h (0, refl)
      | inr h ↦ rw h (suc i, found)
    ]

shortest_lem : (ps : Productions) {p : List String} → shortest ps ≡ some p → IsOneOf p ps
unfolding shortest
shortest_lem [] e = cc
shortest_lem (q ∷ ps) {p} e =
    let same : shortest_of q ps ≡ p = cc in rw same at (shortest_of_lem q ps)

module _ (g : Grammar) where
  Spells-leave : (t : String) → is_terminal g t ≡ true → Spells g t t
  Spells-leave t h = record {
    symbols = t ∷ [];
    derives = leave t;
    spelled = sym (append-empty t);
    grounded = λ _. (h, tt);
  }

  Spells-replace :
      (t text : String) (ps : Productions) (i : ℕ) {p : List String}
      → lookup t g ≡ some ps
      → get_elem? ps i ≡ some p
      → SpellsAll g p text
      → Spells g t text
  Spells-replace t text ps i e f s = record {
    symbols = s.symbols;
    derives = replace t ps i e f s.derives;
    spelled = s.spelled;
    grounded = s.grounded;
  }

  SpellsAll-nil : SpellsAll g [] ""
  SpellsAll-nil = record { symbols = []; derives = none_left; spelled = refl; grounded = λ _. tt }

  SpellsAll-cons :
      (t x y : String) (ts : List String)
      → Spells g t x
      → SpellsAll g ts y
      → SpellsAll g (t ∷ ts) (x <> y)
  SpellsAll-cons t x y ts a b = record {
    symbols = a.symbols ++ b.symbols;
    derives = each a.derives b.derives;
    spelled = rw (a.spelled, b.spelled, concat-append a.symbols b.symbols) refl;
    grounded = λ h. All-append _ a.symbols b.symbols (a.grounded h) (b.grounded h);
  }

  -- The symbols of a production as they are, where they are terminals if the grammar is grounded.
  SpellsAll-leave : (p : List String) → (IsGrounded g → AreTerminals g p) → SpellsAll g p (concat p)
  SpellsAll-leave p h = record {
    symbols = p;
    derives = DerivesAll-refl p;
    spelled = refl;
    grounded = h;
  }
    where
      DerivesAll-refl : (ts : List String) → DerivesAll g ts ts
      DerivesAll-refl [] = none_left
      DerivesAll-refl (t ∷ ts) = each (leave t) (DerivesAll-refl ts)

  terminal_or_shortest_lem :
      (t : String) (ps : Productions) {p : List String}
      → lookup t g ≡ some ps
      → terminal_or_shortest g ps ≡ some p
      → IsOneOf p ps × (IsGrounded g → AreTerminals g p)
  terminal_or_shortest_lem t ps {p} e f = elim (Option-cases (first_terminal g ps)) [
    | inl missing ↦ (
      shortest_lem ps (rw (missing, terminal_or_shortest) at f),
      λ h. absurd (cc (missing, (h t ps e).1)),
    )
    | inr (q, found) ↦
        let same : q ≡ p = cc (rw (found, terminal_or_shortest) at f) in
        let (terminals, one) = first_terminal_lem g ps found in
        (rw same at one, λ _. rw same at terminals)
  ]

  expand_terminal-Spells :
      (t : String) {text : String} → expand_terminal g t ≡ some text → Spells g t text
  unfolding expand_terminal
  expand_terminal-Spells t {text} e = elim (Option-cases (lookup t g)) [
    | inl absent ↦
        let same : t ≡ text = ground arith in
        subst (Spells g t) same (Spells-leave t (rw absent refl))
    | inr (ps, present) ↦
        let (p, chosen, spelled) =
          bind-eq-some (terminal_or_shortest g ps) (λ p. some (concat p)) {b = text}
            (rw (present, expand_terminal) at e) in
        let same : concat p ≡ text = cc in
        let ((i, found), terminals) = terminal_or_shortest_lem t ps present chosen in
        rw same at (Spells-replace t (concat p) ps i present found (SpellsAll-leave p terminals))
  ]

  expand_terminals-SpellsAll :
      (ts : List String) {text : String} → expand_terminals g ts ≡ some text → SpellsAll g ts text
  unfolding expand_terminals
  expand_terminals-SpellsAll [] {text} e = let same : "" ≡ text = cc in rw same at SpellsAll-nil
  expand_terminals-SpellsAll (t ∷ ts) {text} e =
      let (x, head, e') = bind-eq-some (expand_terminal g t) _ e in
      let (y, rest, e'') = bind-eq-some (expand_terminals g ts) _ e' in
      let same : (x <> y) ≡ text = cc in
      rw same at (
        SpellsAll-cons t x y ts (expand_terminal-Spells t head)
          (expand_terminals-SpellsAll ts rest))

  module _ (r : Random) where
    choice_lem :
        (ps : Productions) (s : r.Source) {p : List String} {s' : r.Source}
        → choice g r ps s ≡ some (p, s')
        → IsOneOf p ps
    unfolding choice
    choice_lem ps s {p} e = ((r.below (length ps) s).0, ground arith)

    expand_each-SpellsAll :
        (f : String → r.Source → Option (String × r.Source))
        → ((t : String) (s : r.Source) (text : String) (s' : r.Source)
            → f t s ≡ some (text, s')
            → Spells g t text)
        → (ts : List String) (s : r.Source) {text : String} {s' : r.Source}
        → expand_each g r f ts s ≡ some (text, s')
        → SpellsAll g ts text
    expand_each-SpellsAll f sound [] s {text} e =
        let same : "" ≡ text = ground arith in rw same at SpellsAll-nil
    expand_each-SpellsAll f sound (t ∷ ts) s {text} e =
        let ((x, s₁), head, e') = bind-eq-some (f t s) _ e in
        let ((y, s₂), rest, e'') = bind-eq-some (expand_each g r f ts s₁) _ e' in
        let same : (x <> y) ≡ text = fst_of_some e'' in
        rw same at
          (SpellsAll-cons t x y ts (sound t s x s₁ head) (expand_each-SpellsAll f sound ts s₁ rest))

    -- Every text that `_expand` produces, at whatever depth it stops, spells symbols that the grammar
    -- derives from the symbol that was expanded. If each symbol that has productions has one of
    -- terminals only, no symbol that has productions is left in the text.
    pub expand-Spells :
        (left : ℕ) (t : String) (s : r.Source) {text : String} {s' : r.Source}
        → expand g r left t s ≡ some (text, s')
        → Spells g t text
    unfolding expand
    expand-Spells zero t s {text} {s'} e = elim (Option-cases (lookup t g)) [
      | inl absent ↦
          let same : t ≡ text = ground arith in
          subst (Spells g t) same (Spells-leave t (rw absent refl))
      | inr (ps, present) ↦
          let (p, chosen, e') =
            bind-eq-some (shortest ps) _ {b = (text, s')} (rw (present, expand) at e) in
          let (x, spelled, e'') = bind-eq-some (expand_terminals g p) _ e' in
          let (i, found) = shortest_lem ps chosen in
          subst (Spells g t) (fst_of_some e'')
            (Spells-replace t x ps i present found (expand_terminals-SpellsAll p spelled))
    ]
    expand-Spells (suc left) t s {text} {s'} e = elim (Option-cases (lookup t g)) [
      | inl absent ↦
          let same : t ≡ text = ground arith in
          subst (Spells g t) same (Spells-leave t (rw absent refl))
      | inr (ps, present) ↦
          let ((p, s₁), chosen, e') =
            bind-eq-some (choice g r ps s) _ {b = (text, s')} (rw (present, expand) at e) in
          let (i, found) = choice_lem ps s chosen in
          Spells-replace t text ps i present found (
            expand_each-SpellsAll (expand g r left) (λ u s₂ x s₃ h. expand-Spells left u s₂ h) p s₁
              e')
    ]
