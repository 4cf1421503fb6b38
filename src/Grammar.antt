-- ===== src/Grammar.antt =====
-- framework/src/apatchy/fuzzers/grammar.py: `GrammarSeedGenerator` and `generate_seeds`.
-- `random.choice` draws from a generator that the model is given; `none` is the exception that
-- leaves a call: `IndexError` or `ValueError` of an empty list, `UnicodeEncodeError` of `encode`.
pub mod Derive
pub mod Seeds
pub mod Total
mod Tests
use Prim.Native.Char.{code}
use Prim.Native.String
use apatchy.Base.{
  ◌>>=◌, ℕ, zero, suc, ◌+◌, ◌-◌, ◌*◌, ◌<◌, ◌/◌, ◌%◌, String, ◌<>◌, Bool, true, false, ◌&&◌, not,
  Option, none, some, List, [], ◌∷◌, ◌++◌, ltb, leb, if◌then◌else◌, ◌==◌, string_eq, bytes_eq,
  is_some, length, all, any, get_elem?, contains,
}
use apatchy.Base.Dict.{Dict, lookup}

-- The part of `random` that the code calls: a number below `n`, for `n` above 0.
pub record Random : Type 1 where
  pub Source : Type 0
  pub below : ℕ → Source → ℕ × Source
  pub below-lt : (n : ℕ) (s : Source) → 0 < n → (below n s).0 < n

abbrev pub Productions : Type 0
Productions = List (List String)

abbrev pub Grammar : Type 0
Grammar = Dict String Productions

-- `"".join(texts)`
abbrev pub concat : List String → String
concat [] = ""
concat (text ∷ texts) = text <> concat texts

-- `min(productions, key=len)`: the first of the shortest.
abbrev shorter : List String → List String → List String
shorter p q = if leb (length p) (length q) then p else q

abbrev pub shortest_of : List String → Productions → List String
shortest_of p [] = p
shortest_of p (q ∷ ps) = shorter p (shortest_of q ps)

unfoldable pub shortest : Productions → Option (List String)
shortest [] = none
shortest (p ∷ ps) = some (shortest_of p ps)

-- `text.encode("latin-1")`
abbrev pub encode : String → Option (List ℕ)
encode String.[] = some []
encode (String.◌∷◌ c text) =
    let rest = encode text >>= λ bytes. some (code c ∷ bytes) in
    if ltb (code c) 256 then rest else none

-- The number that is returned, the files that are written, and the generator afterwards.
pub record Result (S : Type 0) : Type 0 where
  pub written : ℕ
  pub files : List (ℕ × List ℕ)
  pub source : S

-- The default of `max_depth`, which `generate_seeds` takes.
abbrev pub default_depth : ℕ
default_depth = 12

module _ (g : Grammar) where
  -- `symbol not in self.grammar`
  abbrev pub is_terminal : String → Bool
  is_terminal symbol = not (is_some (lookup symbol g))

  -- The loop of `_expand_terminal` over the productions, and the shortest one after it.
  abbrev pub first_terminal : Productions → Option (List String)
  first_terminal [] = none
  first_terminal (p ∷ ps) =
      let rest = first_terminal ps in if all is_terminal p then some p else rest

  abbrev pub terminal_or_shortest : Productions → Option (List String)
  terminal_or_shortest ps = elim (first_terminal ps) [ none ↦ shortest ps | some p ↦ some p ]

  unfoldable pub expand_terminal : String → Option String
  expand_terminal symbol = elim (lookup symbol g) [
    | none ↦ some symbol
    | some ps ↦ terminal_or_shortest ps >>= λ p. some (concat p)
  ]

  -- `"".join(self._expand_terminal(t) for t in shortest)`
  unfoldable pub expand_terminals : List String → Option String
  expand_terminals [] = some ""
  expand_terminals (t ∷ ts) = do x ← expand_terminal t; y ← expand_terminals ts; some (x <> y)

  module _ (r : Random) where
    -- `random.choice(productions)`
    unfoldable pub choice : Productions → r.Source → Option (List String × r.Source)
    choice ps s =
        let (i, s') = r.below (length ps) s in
        elim (get_elem? ps i) [ none ↦ none | some p ↦ some (p, s') ]

    -- `"".join(self._expand(t, depth + 1) for t in chosen)`, for the next depth's `_expand`
    abbrev pub expand_each :
        (String → r.Source → Option (String × r.Source))
        → List String
        → r.Source
        → Option (String × r.Source)
    expand_each f [] s = some ("", s)
    expand_each f (t ∷ ts) s =
        f t s >>= λ (x, s'). expand_each f ts s' >>= λ (y, s''). some (x <> y, s'')

    -- `_expand`, with `max_depth - depth` levels left. The limit that Python sets to nested calls is not
    -- modelled; the program goes 12 levels deep.
    unfoldable pub expand : ℕ → String → r.Source → Option (String × r.Source)
    expand zero symbol s = elim (lookup symbol g) [
      | none ↦ some (symbol, s)
      | some ps ↦ shortest ps >>= λ p. expand_terminals p >>= λ text. some (text, s)
    ]
    expand (suc left) symbol s = elim (lookup symbol g) [
      | none ↦ some (symbol, s)
      | some ps ↦ choice ps s >>= λ (p, s'). expand_each (expand left) p s'
    ]

    unfoldable pub generate : ℕ → r.Source → Option (List ℕ × r.Source)
    generate max_depth s = do
      expanded ← expand max_depth "<A>" s
      bytes ← encode expanded.0
      some (bytes, expanded.1)

    -- The loop of `generate_seeds` over the rounds that are left. A file is listed by its number,
    -- which its name is made of, and its bytes.
    unfoldable pub seed_loop :
        ℕ → ℕ → ℕ → List (List ℕ) → List (ℕ × List ℕ) → r.Source → Option (Result r.Source)
    seed_loop zero count written seen files s =
        some (record { written = written; files = files; source = s })
    seed_loop (suc rounds) count written seen files s = elim (leb count written) [
      | true ↦ some (record { written = written; files = files; source = s })
      | false ↦ generate default_depth s >>= λ (bytes, s'). elim (contains seen bytes) [
        | true ↦ seed_loop rounds count written seen files s'
        | false ↦
            seed_loop rounds count (written + 1) (bytes ∷ seen) (files ++ ((written, bytes) ∷ []))
              s'
      ]
    ]

module _ (r : Random) where
  -- `none` is a grammar file that cannot be read or is no JSON.
  unfoldable pub generate_seeds : Option Grammar → ℕ → r.Source → Option (Result r.Source)
  generate_seeds none count s = some (record { written = 0; files = []; source = s })
  generate_seeds (some g) count s =
      if is_terminal g "<A>"
      then some (record { written = 0; files = []; source = s })
      else seed_loop g r (count * 3) count 0 [] [] s
