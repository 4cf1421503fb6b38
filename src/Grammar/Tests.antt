-- ===== src/Grammar/Tests.antt =====
-- The generator on a small grammar, and its theorems at concrete inputs.
use native.Mathlib.Nat.{mod-lt}
use apatchy.Base.{ℕ, ◌+◌, ◌%◌, ◌≡◌, refl, some, none, [], ◌∷◌, arith, string_eq, bytes_eq, nat_eq}
use apatchy.Grammar.{
  Random, Grammar, Result, expand, expand_terminals, expand_terminal, shortest, choice, generate,
  generate_seeds, seed_loop,
}
use apatchy.Grammar.Derive.{Spells, expand-Spells}
use apatchy.Grammar.Seeds.{IsSeeded, generate_seeds-IsSeeded}
use apatchy.Grammar.Total.{HasProductions, Succeeds, expand-Succeeds}

-- A source that counts.
abbrev counter : Random
counter = record { Source = ℕ; below = λ n s. (s % n, s + 1); below-lt = λ n s h. mod-lt s h }

abbrev requests : Grammar
requests =
    ("<A>", (("<m>" ∷ " " ∷ "<p>" ∷ []) ∷ ("<m>" ∷ []) ∷ []))
    ∷ ("<m>", (("GET" ∷ []) ∷ ("PUT" ∷ []) ∷ []))
    ∷ ("<p>", (("/" ∷ "<p>" ∷ []) ∷ ("/" ∷ []) ∷ []))
    ∷ []

expanded : expand requests counter 12 "<A>" 0 ≡ some ("PUT //", 4)
unfolding expand choice string_eq
expanded = refl

at_limit : expand requests counter 0 "<A>" 0 ≡ some ("GET", 0)
unfolding expand expand_terminals expand_terminal shortest string_eq
at_limit = refl

-- A key without productions: `random.choice` raises.
empty_choice : expand (("<A>", []) ∷ []) counter 12 "<A>" 0 ≡ none
unfolding expand choice string_eq
empty_choice = refl

expand-Spells_example : Spells requests "<A>" "PUT //"
expand-Spells_example = expand-Spells requests counter 12 "<A>" 0 expanded

requests-HasProductions : HasProductions requests
requests-HasProductions t ps h = ground arith

expand-Succeeds_example : Succeeds (expand requests counter 12 "<A>" 7)
expand-Succeeds_example = expand-Succeeds requests requests-HasProductions counter 12 "<A>" 7

-- The source repeats itself, and so do the texts: the five later ones are passed over.
abbrev one : Result ℕ
one = record { written = 1; files = (0, 80 ∷ 85 ∷ 84 ∷ 32 ∷ 47 ∷ 47 ∷ []) ∷ []; source = 24 }

run : generate_seeds counter (some requests) 2 0 ≡ some one
unfolding generate_seeds seed_loop generate expand choice string_eq bytes_eq
run = refl

generate_seeds-IsSeeded_example : IsSeeded requests counter 2 1 one.files
generate_seeds-IsSeeded_example = generate_seeds-IsSeeded requests counter 2 0 run
