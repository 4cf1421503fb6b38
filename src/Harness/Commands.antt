-- ===== src/Harness/Commands.antt =====
-- core/harness.py: the entries of compile_commands.json after a merge_commands.
use apatchy.Base.{
  String, Bool, true, not, ◌≡◌, refl, ◌∙◌, ◌||◌, some, List, [], ◌∷◌, ◌++◌, ◌==◌, contains,
  string_eq, arith, keep, ap, sym, ==-self,
}
use apatchy.Harness.{CompileEntry, files_of, is_for, merge_commands}

module _ {A : Type 0} where
  keep-append : (p : A → Bool) (xs ys : List A) → keep p (xs ++ ys) ≡ keep p xs ++ keep p ys
  keep-append p [] ys = refl
  keep-append p (x ∷ xs) ys = ground (arith, keep-append p xs ys)

  keep_rest : (p : A → Bool) (xs : List A) → keep p (keep (λ x. not (p x)) xs) ≡ []
  keep_rest p [] = refl
  keep_rest p (x ∷ xs) = ground (arith, keep_rest p xs)

  keep_none : (p : A → Bool) (xs : List A) → keep (λ x. not (p x)) (keep p xs) ≡ []
  keep_none p [] = refl
  keep_none p (x ∷ xs) = ground (arith, keep_none p xs)

  keep_idem : (p : A → Bool) (xs : List A) → keep p (keep p xs) ≡ keep p xs
  keep_idem p [] = refl
  keep_idem p (x ∷ xs) = ground (arith, keep_idem p xs)

-- Every entry names its file.
abbrev pub AreNamed : List CompileEntry → Type 0
AreNamed [] = Unit
AreNamed (e ∷ entries) = ((f : String) × (e.file ≡ some f)) × AreNamed entries

append-nil : {A : Type 0} (xs : List A) → xs ++ [] ≡ xs
append-nil [] = refl
append-nil (x ∷ xs) = ap (λ ys. x ∷ ys) (append-nil xs)

contains-files_of :
    (e : CompileEntry) (entries : List CompileEntry) (f g : String)
    → e.file ≡ some f
    → contains (files_of (e ∷ entries)) g ≡ (g == f || contains (files_of entries) g)
contains-files_of e entries f g k = ground (arith, k)

-- The entries for some files among which all of theirs are.
keep_own :
    (files : List String) (entries : List CompileEntry)
    → AreNamed entries
    → ((f : String) → contains (files_of entries) f ≡ true → contains files f ≡ true)
    → keep (is_for files) entries ≡ entries
keep_own files [] n h = refl
keep_own files (e ∷ entries) ((f, k), n) h =
    let own : contains files f ≡ true =
      h f (contains-files_of e entries f f k ∙ ground (arith, ==-self f)) in
    let found : is_for files e ≡ true = ground (arith, k, own) in
    let rest : keep (is_for files) entries ≡ entries =
      keep_own files entries n
        (λ g q. h g (contains-files_of e entries f g k ∙ ground (arith, q))) in
    ground (arith, found, rest)

keep_other :
    (files : List String) (entries : List CompileEntry)
    → keep (is_for files) entries ≡ entries
    → keep (λ e. not (is_for files e)) entries ≡ []
keep_other files entries h =
    ap (keep (λ e. not (is_for files e))) (sym h) ∙ keep_none (is_for files) entries

-- After a merge_commands the entries for the files of the new ones are the new ones, in their order, those
-- for other files are the old ones, in their order, and a second merge_commands changes nothing.
pub merge_commands-keeps :
    (existing entries : List CompileEntry)
    → AreNamed entries
    → (keep (is_for (files_of entries)) (merge_commands existing entries) ≡ entries)
      × (keep (λ e. not (is_for (files_of entries) e)) (merge_commands existing entries)
          ≡ keep (λ e. not (is_for (files_of entries) e)) existing)
      × (merge_commands (merge_commands existing entries) entries ≡ merge_commands existing entries)
unfolding merge_commands
merge_commands-keeps existing entries n =
    let files = files_of entries in
    let old : CompileEntry → Bool = λ e. not (is_for files e) in
    let own = keep_own files entries n (λ f h. h) in
    let kept : keep old (keep old existing ++ entries) ≡ keep old existing =
      keep-append old (keep old existing) entries
      ∙ rw (keep_idem old existing, keep_other files entries own) (append-nil _) in
    (
      keep-append (is_for files) (keep old existing) entries
          ∙ rw (keep_rest (is_for files) existing, own) refl,
      kept,
      ap (λ es. es ++ entries) kept,
    )
