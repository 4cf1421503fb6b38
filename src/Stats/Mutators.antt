-- ===== src/Stats/Mutators.antt =====
-- utils/stats_exporter.py: the counts of `record_mutators`.
use apatchy.Base.{
  ℕ, ◌+◌, String, ◌≡◌, refl, List, [], ◌∷◌, arith, ap, if◌then◌else◌, ◌∙◌, ◌==◌, string_eq,
}
use apatchy.Base.Dict.{Dict, get_or, insert, lookup-insert}
use apatchy.Base.Text.{strip, split_on}
use apatchy.Stats.{Exporter, is_known, count_mutators, record_mutators}

-- How often a name stands among the words, white space aside.
abbrev pub occurrences : String → List String → ℕ
occurrences name [] = 0
occurrences name (word ∷ words) =
    let rest = occurrences name words in if name == strip word then rest + 1 else rest

pub get_or-insert :
    (j k : String) (n : ℕ) (m : Dict String ℕ)
    → get_or j (insert k n m) 0 ≡ (if j == k then n else get_or j m 0)
get_or-insert j k n m = ground (arith, lookup-insert j k n m)

-- One round of the loop, with the name's text stripped.
abbrev bump : String → Dict String ℕ → Dict String ℕ
bump name m = if is_known name then insert name (get_or name m 0 + 1) m else m

get_or-bump :
    (j name : String) (m : Dict String ℕ)
    → get_or j (bump name m) 0
      ≡ get_or j m 0 + (if is_known j then (if j == name then 1 else 0) else 0)
get_or-bump j name m = ground (arith, get_or-insert j name (get_or name m 0 + 1) m)

count_mutators-cons :
    (word : String) (words : List String) (m : Dict String ℕ)
    → count_mutators (word ∷ words) m ≡ count_mutators words (bump (strip word) m)
unfolding count_mutators
count_mutators-cons word words m = refl

get_or-count_mutators :
    (name : String) (words : List String) (m : Dict String ℕ)
    → get_or name (count_mutators words m) 0
      ≡ get_or name m 0 + (if is_known name then occurrences name words else 0)
get_or-count_mutators name [] m = unfold count_mutators in ground arith
get_or-count_mutators name (word ∷ words) m =
    ap (λ t. get_or name t 0) (count_mutators-cons word words m)
    ∙ ground (
      arith,
      get_or-count_mutators name words (bump (strip word) m),
      get_or-bump name (strip word) m,
    )

-- A strategy adds to the count of a known mutator how often it names it, between dashes and white
-- space aside, and leaves the count of every other name as it was.
pub get_or-record_mutators :
    (name strategy : String) (e : Exporter)
    → get_or name (record_mutators strategy e).session.mutators 0
      ≡ get_or name e.session.mutators 0
        + (if is_known name then occurrences name (split_on b'-' strategy) else 0)
get_or-record_mutators name strategy e =
    unfold record_mutators in get_or-count_mutators name (split_on b'-' strategy) e.session.mutators
