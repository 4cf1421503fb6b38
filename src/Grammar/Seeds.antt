-- ===== src/Grammar/Seeds.antt =====
-- fuzzers/grammar.py: the files that `generate_seeds` writes.
use apatchy.Base.{
  bind-eq-some, ℕ, zero, suc, ◌+◌, ◌*◌, ◌<◌, ◌≤◌, String, false, ◌≡◌, refl, ◌∙◌, sym, subst, some,
  List, leb, Bool-cases, inl, inr, [], ◌∷◌, ◌++◌, arith, length, length-append, All, All-append,
  contains, ◌==◌, bytes_eq, ◌||◌, string_eq,
}
use mathlib.Core.Option.{some-injective}
use apatchy.Grammar.{
  Random, Grammar, Result, is_terminal, expand, encode, generate, default_depth, seed_loop,
  generate_seeds,
}
use apatchy.Grammar.Derive.{Spells, expand-Spells}

abbrev pub Files : Type 0
Files = List (ℕ × List ℕ)

-- The files are numbered from `i` on.
abbrev pub Numbered : ℕ → Files → Type 0
Numbered i [] = Unit
Numbered i ((n, bytes) ∷ files) = (n ≡ i) × Numbered (suc i) files

abbrev contents : Files → List (List ℕ)
contents [] = []
contents ((n, bytes) ∷ files) = bytes ∷ contents files

-- No file has the contents of a file before it, nor of `seen`.
abbrev pub AllNew : List (List ℕ) → Files → Type 0
AllNew seen [] = Unit
AllNew seen ((n, bytes) ∷ files) = (contains seen bytes ≡ false) × AllNew (bytes ∷ seen) files

-- The bytes of a file are a text of the start symbol.
abbrev pub IsSentence : Grammar → Random → ℕ × List ℕ → Type 0
IsSentence g r (n, bytes) = (text : String) × Spells g "<A>" text × (encode text ≡ some bytes)

Numbered-snoc :
    (i : ℕ) (files : Files) (n : ℕ) (bytes : List ℕ)
    → n ≡ i + length files
    → Numbered i files
    → Numbered i (files ++ ((n, bytes) ∷ []))
Numbered-snoc i [] n bytes e _ = (omega arith, tt)
Numbered-snoc i ((m, b) ∷ files) n bytes e (p, ps) =
    (p, Numbered-snoc (suc i) files n bytes (omega arith) ps)

AllNew-snoc :
    (seen : List (List ℕ)) (files : Files) (n : ℕ) (bytes : List ℕ)
    → (contains seen bytes || contains (contents files) bytes) ≡ false
    → AllNew seen files
    → AllNew seen (files ++ ((n, bytes) ∷ []))
AllNew-snoc seen [] n bytes e _ = (ground arith, tt)
AllNew-snoc seen ((m, b) ∷ files) n bytes e (p, ps) =
    (p, AllNew-snoc (b ∷ seen) files n bytes (ground arith) ps)

contains-contents_snoc :
    (files : Files) (n : ℕ) (bytes b : List ℕ)
    → contains (contents (files ++ ((n, bytes) ∷ []))) b
      ≡ (b == bytes || contains (contents files) b)
contains-contents_snoc [] n bytes b = refl
contains-contents_snoc ((m, c) ∷ files) n bytes b =
    ground (arith, contains-contents_snoc files n bytes b)

module _ (g : Grammar) (r : Random) where
  -- What holds of the files at every round, for the number that counts them.
  pub record IsSeeded (count written : ℕ) (files : Files) : Type 0 where
    pub counted : written ≡ length files
    pub bounded : written ≤ count
    pub numbered : Numbered 0 files
    pub distinct : AllNew [] files
    pub sentences : All (IsSentence g r) files

  -- `seen` holds what was written.
  abbrev HasSeen : List (List ℕ) → Files → Type 0
  HasSeen seen files = (b : List ℕ) → contains seen b ≡ contains (contents files) b

  generate-IsSentence :
      (s : r.Source) (n : ℕ) {bytes : List ℕ} {s' : r.Source}
      → generate g r default_depth s ≡ some (bytes, s')
      → IsSentence g r (n, bytes)
  unfolding generate
  generate-IsSentence s n {bytes} {s'} e =
      let ((text, s₁), expanded, e') = bind-eq-some (expand g r default_depth "<A>" s) _ e in
      let (bs, encoded, e'') = bind-eq-some (encode text) _ e' in
      let same : bs ≡ bytes = ground arith in
      (text, expand-Spells g r default_depth "<A>" s expanded, rw same at encoded)

  add-IsSeeded :
      (count written : ℕ) (seen : List (List ℕ)) (files : Files) (bytes : List ℕ)
      → IsSeeded count written files
      → HasSeen seen files
      → written < count
      → contains seen bytes ≡ false
      → IsSentence g r (written, bytes)
      → IsSeeded count (written + 1) (files ++ ((written, bytes) ∷ []))
  add-IsSeeded count written seen files bytes h seeing room new sentence = record {
    counted = omega (arith, h.counted, length-append files ((written, bytes) ∷ []));
    bounded = omega arith;
    numbered = Numbered-snoc 0 files written bytes (omega (arith, h.counted)) h.numbered;
    distinct = AllNew-snoc [] files written bytes (sym (seeing bytes) ∙ new) h.distinct;
    sentences = All-append (IsSentence g r) files _ h.sentences (sentence, tt);
  }

  seed_loop-IsSeeded :
      (rounds count written : ℕ) (seen : List (List ℕ)) (files : Files) (s : r.Source)
      {res : Result r.Source}
      → IsSeeded count written files
      → HasSeen seen files
      → seed_loop g r rounds count written seen files s ≡ some res
      → IsSeeded count res.written res.files
  unfolding seed_loop
  seed_loop-IsSeeded zero count written seen files s h k e =
      subst (λ x. IsSeeded count x.written x.files) (some-injective _ _ e) h
  seed_loop-IsSeeded (suc rounds) count written seen files s {res} h k e =
      elim (Bool-cases (leb count written)) [
        | inl full ↦
            subst (λ x. IsSeeded count x.written x.files)
              (some-injective _ _ (rw (full, seed_loop) at e)) h
        | inr room ↦
            let ((bytes, s'), made, e') =
              bind-eq-some (generate g r default_depth s) _ {b = res} (rw (room, seed_loop) at e) in
            elim (Bool-cases (contains seen bytes)) [
              | inl old ↦ seed_loop-IsSeeded rounds count written seen files s' h k (rw old at e')
              | inr new ↦
                  let lt : written < count = ground arith in
                  seed_loop-IsSeeded rounds count (written + 1) (bytes ∷ seen)
                    (files ++ ((written, bytes) ∷ [])) s'
                    (add-IsSeeded count written seen files bytes h k lt new
                      (generate-IsSentence s written made))
                    (λ b. rw contains-contents_snoc (ground (arith, k b))) (rw new at e')
            ]
      ]

-- A run that ends writes at most as many files as asked for, returns their number, numbers them from
-- 0 on without gaps, writes no two with the same bytes, and each holds a text that the grammar's
-- start symbol gives.
pub generate_seeds-IsSeeded :
    (g : Grammar) (r : Random) (count : ℕ) (s : r.Source) {res : Result r.Source}
    → generate_seeds r (some g) count s ≡ some res
    → IsSeeded g r count res.written res.files
unfolding generate_seeds
generate_seeds-IsSeeded g r count s {res} e = elim (Bool-cases (is_terminal g "<A>")) [
  | inl missing ↦
      subst (λ x. IsSeeded g r count x.written x.files)
        (some-injective _ _ (rw (missing, generate_seeds) at e)) start
  | inr present ↦
      seed_loop-IsSeeded g r (count * 3) count 0 [] [] s start (λ b. refl)
        (rw (present, generate_seeds) at e)
]
  where
    start : IsSeeded g r count 0 []
    start = record {
      counted = refl;
      bounded = omega arith;
      numbered = tt;
      distinct = tt;
      sentences = tt;
    }
