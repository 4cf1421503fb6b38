-- ===== src/Display/Numerals.antt =====
-- utils/libfuzzer_ui.py: the fields that the exporter reads as numbers are numbers.
use apatchy.Base.{
  ℕ, ◌+◌, ◌-◌, ◌*◌, String, ◌<>◌, true, false, ◌≡◌, refl, ◌∙◌, sym, ap, subst, Option, none, some,
  List, [], ◌∷◌, if◌then◌else◌, ◌==◌, string_eq, contains, arith, Bool-cases, inl, inr, ==-self,
  All, eq_of_==, When, When-bind, When-bind_eq, of_When,
}
use Prim.Native.Char.{code}
use mathlib.Core.Option.{some-injective}
use text.Mathlib.TextLemmas.{append-nil}
use apatchy.Base.Decimal.{decimal, int-decimal}
use apatchy.Base.Dict.{lookup, insert, insert_all, lookup-insert}
use apatchy.Base.Text.{int, digits, is_space}
use apatchy.Build.Version.{is_digit, remove_prefix}
use apatchy.Stats.{Fields, int_field, int_or_none}
use apatchy.Display.Patterns.{
  CharClass, digit_char, word_char, other_char, is_in, Piece, literal, spaces, some_spaces,
  some_digits, group, remainder, span_class, run_of, match_pieces,
}

-- A text that `int` reads.
abbrev pub IsNumeral : String → Type 0
IsNumeral s = (n : ℕ) × (int s ≡ some n)

digits-span_class : (m : ℕ) (s : String) → (n : ℕ) × (digits m (span_class is_digit s).0 ≡ some n)
digits-span_class m String.[] = (m, refl)
digits-span_class m (String.◌∷◌ c s) = elim (Bool-cases (is_digit c)) [
  | inl e ↦ let (n, h) = digits-span_class (m * 10 + (code c - 48)) s in (n, ground (arith, e, h))
  | inr e ↦ rw e (m, refl)
]

int-digits_of : (s : String) (n : ℕ) → digits 0 s ≡ some n → (s == "") ≡ false → int s ≡ some n
unfolding int
int-digits_of String.[] n h e = absurd (ground (arith, e, ==-self {A = String} ""))
int-digits_of (String.◌∷◌ c s) n h e = h

-- What a match says of a group: its digits are a numeral.
abbrev pub Shape : CharClass → String → String → Type 0
Shape digit_char t g = (d : String) × (g ≡ d <> t) × IsNumeral d
Shape word_char t g = Unit
Shape other_char t g = Unit

abbrev pub Groups : List Piece → List String → Type 0
Groups [] [] = Unit
Groups [] (g ∷ gs) = ⊥
Groups (group k t ∷ ps) [] = ⊥
Groups (group k t ∷ ps) (g ∷ gs) = Shape k t g × Groups ps gs
Groups (remainder ∷ ps) [] = ⊥
Groups (remainder ∷ ps) (g ∷ gs) = Groups ps gs
Groups (literal t ∷ ps) gs = Groups ps gs
Groups (spaces ∷ ps) gs = Groups ps gs
Groups (some_spaces ∷ ps) gs = Groups ps gs
Groups (some_digits ∷ ps) gs = Groups ps gs

run_of-Shape :
    (k : CharClass) (t s : String) (found : String × String)
    → run_of (is_in k) s ≡ some found
    → Shape k t (found.0 <> t)
run_of-Shape word_char t s found h = tt
run_of-Shape other_char t s found h = tt
run_of-Shape digit_char t s found h =
    let (n, e) = digits-span_class 0 s in
    let d = (span_class is_digit s).0 in
    elim (Bool-cases (d == "")) [
      | inl q ↦ absurd (ground (arith, h, q))
      | inr q ↦
          let same =
            some-injective _ _
              (subst (λ b. (if b then none else some (span_class is_digit s)) ≡ some found) q h) in
          (d, ap (λ x. x.0 <> t) (sym same), (n, int-digits_of d n e q))
    ]

pub match_pieces-Groups : (ps : List Piece) (s : String) → When (Groups ps) (match_pieces ps s)
unfolding match_pieces
match_pieces-Groups [] s = tt
match_pieces-Groups (literal t ∷ ps) s =
    When-bind (Groups (literal t ∷ ps)) (remove_prefix t s) (match_pieces ps)
      (λ rest. match_pieces-Groups ps rest)
match_pieces-Groups (spaces ∷ ps) s = match_pieces-Groups ps (span_class is_space s).1
match_pieces-Groups (some_spaces ∷ ps) s =
    When-bind (Groups (some_spaces ∷ ps)) (run_of is_space s) _
      (λ found. match_pieces-Groups ps found.1)
match_pieces-Groups (some_digits ∷ ps) s =
    When-bind (Groups (some_digits ∷ ps)) (run_of is_digit s) _
      (λ found. match_pieces-Groups ps found.1)
match_pieces-Groups (group k t ∷ ps) s =
    let P : List String → Type 0 = Groups (group k t ∷ ps) in
    When-bind_eq P (run_of (is_in k) s) _ (λ found e.
      When-bind P (remove_prefix t found.1) _ (λ rest.
        When-bind_eq P (match_pieces ps rest) _ (λ groups q. (
          run_of-Shape k t s found e,
          of_When (Groups ps) (match_pieces ps rest) groups q (match_pieces-Groups ps rest),
        ))))
match_pieces-Groups (remainder ∷ ps) s =
    let P : List String → Type 0 = Groups (remainder ∷ ps) in
    When-bind_eq P (match_pieces ps "") _
      (λ groups q. of_When (Groups ps) (match_pieces ps "") groups q (match_pieces-Groups ps ""))

-- The fields of the display that the exporter reads with `int`, by their keys.
abbrev pub HasNumber : String → Fields → Type 0
HasNumber key stats = (n : ℕ) × (int_field key stats ≡ some n)

abbrev pub HasWorkers : Fields → Type 0
HasWorkers stats = (o : Option ℕ) × (int_or_none (lookup "worker_exec_s" stats) ≡ some o)

abbrev pub AreNumeric : Fields → Type 0
AreNumeric stats =
    HasNumber "cov" stats
    × (HasNumber "ft" stats
        × (HasNumber "corp_n" stats
            × (HasNumber "run" stats × (HasNumber "exec_s" stats × HasWorkers stats))))

abbrev pub number_keys : List String
number_keys = "cov" ∷ "ft" ∷ "corp_n" ∷ "run" ∷ "exec_s" ∷ "worker_exec_s" ∷ []

-- A field that is set: to a numeral where it is one of these.
abbrev pub IsSetTo : String × String → Type 0
IsSetTo (key, value) = contains number_keys key ≡ true → IsNumeral value

HasNumber-insert :
    (key j value : String) (stats : Fields)
    → ((key == j) ≡ true → IsNumeral value)
    → HasNumber key stats
    → HasNumber key (insert j value stats)
HasNumber-insert key j value stats set (n, h) = elim (Bool-cases (key == j)) [
  | inl e ↦ let (m, q) = set e in (m, rw (int_field, lookup-insert key j value stats, e) q)
  | inr e ↦ (n, rw (int_field, lookup-insert key j value stats, e) h)
]

int_or_none-IsNumeral :
    (value : String) → IsNumeral value → (o : Option ℕ) × (int_or_none (some value) ≡ some o)
int_or_none-IsNumeral value (n, h) = elim (Bool-cases (value == "")) [
  | inl e ↦ (none, rw e refl)
  | inr e ↦ (some n, rw e (rw h refl))
]

HasWorkers-insert :
    (j value : String) (stats : Fields)
    → (("worker_exec_s" == j) ≡ true → IsNumeral value)
    → HasWorkers stats
    → HasWorkers (insert j value stats)
HasWorkers-insert j value stats set (o, h) = elim (Bool-cases ("worker_exec_s" == j)) [
  | inl e ↦
      let (p, q) = int_or_none-IsNumeral value (set e) in
      (p, rw (lookup-insert "worker_exec_s" j value stats, e) q)
  | inr e ↦ (o, rw (lookup-insert "worker_exec_s" j value stats, e) h)
]

pub AreNumeric-insert :
    (j value : String) (stats : Fields)
    → IsSetTo (j, value)
    → AreNumeric stats
    → AreNumeric (insert j value stats)
AreNumeric-insert j value stats set (a, t) =
    let (b, t1) = t in
    let (c, t2) = t1 in
    let (d, t3) = t2 in
    let (e, f) = t3 in
    let is : (key : String)
        → contains number_keys key ≡ true
        → (key == j) ≡ true
        → IsNumeral value =
      λ key k q. set (subst (λ x. contains number_keys x ≡ true) (eq_of_== key j q) k) in
    (
      HasNumber-insert "cov" j value stats (is "cov" (ground (arith, ==-self {A = String} "cov")))
          a,
      (
        HasNumber-insert "ft" j value stats (is "ft" (ground (arith, ==-self {A = String} "ft"))) b,
        (
          HasNumber-insert "corp_n" j value stats
              (is "corp_n" (ground (arith, ==-self {A = String} "corp_n"))) c,
          (
            HasNumber-insert "run" j value stats
                (is "run" (ground (arith, ==-self {A = String} "run"))) d,
            (
              HasNumber-insert "exec_s" j value stats
                  (is "exec_s" (ground (arith, ==-self {A = String} "exec_s"))) e,
              HasWorkers-insert j value stats
                  (is "worker_exec_s" (ground (arith, ==-self {A = String} "worker_exec_s"))) f,
            ),
          ),
        ),
      ),
    )

pub AreNumeric-insert_all :
    (items : List (String × String)) (stats : Fields)
    → All IsSetTo items
    → AreNumeric stats
    → AreNumeric (insert_all items stats)
AreNumeric-insert_all [] stats _ n = n
AreNumeric-insert_all ((key, value) ∷ items) stats (set, sets) n =
    AreNumeric-insert_all items (insert key value stats) sets
      (AreNumeric-insert key value stats set n)

pub decimal-IsNumeral : (n : ℕ) → IsNumeral (decimal n)
decimal-IsNumeral n = (n, int-decimal n)

-- A group of digits alone.
pub of_Shape : (g : String) → Shape digit_char "" g → IsNumeral g
of_Shape g (d, e, n) = subst IsNumeral (sym (e ∙ append-nil d)) n
