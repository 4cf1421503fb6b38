-- ===== src/Modules/Words.antt =====
-- Which sanitizer flags `ModuleManager` takes over from the build of Apache.
use apatchy.Base.{
  String, Bool, true, not, ◌≡◌, refl, ◌&&◌, ◌||◌, Option, none, some, List, [], ◌∷◌, ◌++◌, contains,
  contains-append, string_eq, arith, any, all, ==-self, inl, inr, Bool-cases, Option-cases, subst,
  ◌<>◌,
}
use mathlib.Core.Option.{some-injective}
use apatchy.Base.Text.{split_on}
use apatchy.Toolchain
use apatchy.Harness.Libraries.{AreDistinct, AreDistinct-snoc}
use apatchy.Modules.{
  is_sanitizer_word, is_flags_line, words_of, add_words, add_lines, get_sanitizer_flags, HttpdTree,
  build_one, compiler, source_command, include_args,
}

add_words-AreDistinct :
    (flags words : List String) → AreDistinct flags → AreDistinct (add_words flags words)
add_words-AreDistinct flags [] d = d
add_words-AreDistinct flags (word ∷ words) d =
    elim (Bool-cases (is_sanitizer_word word && not (contains flags word))) [
      | inl h ↦ rw h (
          add_words-AreDistinct (flags ++ word ∷ []) words
            (AreDistinct-snoc flags word d (ground (arith, h))))
      | inr h ↦ rw h (add_words-AreDistinct flags words d)
    ]

add_lines-AreDistinct :
    (flags lines : List String) → AreDistinct flags → AreDistinct (add_lines flags lines)
add_lines-AreDistinct flags [] d = d
add_lines-AreDistinct flags (line ∷ lines) d = elim (Bool-cases (is_flags_line line)) [
  | inl h ↦ rw h (
      add_lines-AreDistinct (add_words flags (words_of line)) lines
        (add_words-AreDistinct flags (words_of line) d))
  | inr h ↦ rw h (add_lines-AreDistinct flags lines d)
]

contains-add_words :
    (flags words : List String) (a : String)
    → contains (add_words flags words) a
      ≡ (contains flags a || (is_sanitizer_word a && contains words a))
contains-add_words flags [] a = ground arith
contains-add_words flags (word ∷ words) a = ground (
  arith,
  contains-add_words flags words a,
  contains-add_words (flags ++ word ∷ []) words a,
  contains-append flags (word ∷ []) a,
)

-- A word of a line that assigns CFLAGS or LDFLAGS.
abbrev pub is_flag : String → String → Bool
is_flag a line = is_flags_line line && contains (words_of line) a

contains-add_lines :
    (flags lines : List String) (a : String)
    → contains (add_lines flags lines) a
      ≡ (contains flags a || (is_sanitizer_word a && any (is_flag a) lines))
contains-add_lines flags [] a = ground arith
contains-add_lines flags (line ∷ lines) a = ground (
  arith,
  contains-add_lines flags lines a,
  contains-add_lines (add_words flags (words_of line)) lines a,
  contains-add_words flags (words_of line) a,
)

all-contains :
    (p : String → Bool) (xs : List String)
    → ((a : String) → contains xs a ≡ true → p a ≡ true)
    → all p xs ≡ true
all-contains p [] h = refl
all-contains p (x ∷ xs) h =
    let more : (a : String) → contains xs a ≡ true → p a ≡ true = λ a i. h a (ground (arith, i)) in
    let first = h x (ground (arith, ==-self x)) in ground (arith, first, all-contains p xs more)

module _ (tools : Toolchain.Host) (cfg : Toolchain.Cfg) where
  build_one-contains :
      (t : HttpdTree) (modules_out src name : String) (cc : Option String) (cmd : List String)
      → build_one tools cfg t modules_out src name cc ≡ some cmd
      → (a : String) → contains (get_sanitizer_flags t.config_vars) a ≡ true
      → contains cmd a ≡ true
  unfolding build_one
  build_one-contains t modules_out src name cc cmd e a h =
      elim (Option-cases (compiler tools cfg cc)) [
        | inl n ↦ ground (arith, e, n)
        | inr (c, n) ↦
            let flags = get_sanitizer_flags t.config_vars in
            let more : List String =
              "-o" ∷ (modules_out <> ("/" <> (name <> ".so"))) ∷ src ∷ include_args tools cfg t in
            let made : some (source_command tools cfg t modules_out src name c) ≡ some cmd =
              subst
                (λ (o : Option String).
                  (elim o as (λ _. Option (List String)) [
                    | none ↦ none
                    | some c' ↦ some (source_command tools cfg t modules_out src name c')
                  ])
                  ≡ some cmd)
                n e in
            subst (λ l. contains l a ≡ true) (some-injective _ _ made)
              (ground (arith, contains-append flags more a, h))
      ]

  -- A module is compiled with each word of the values of CFLAGS and LDFLAGS in config_vars.mk that
  -- starts with -fsanitize or -fno-sanitize; these are the only flags that it takes over, and it takes
  -- each of them once.
  pub build_one-Words :
      (t : HttpdTree) (text modules_out src name : String) (cc : Option String) (cmd : List String)
      → t.config_vars ≡ some text
      → build_one tools cfg t modules_out src name cc ≡ some cmd
      → AreDistinct (get_sanitizer_flags t.config_vars)
        × ((a : String)
            → contains (get_sanitizer_flags t.config_vars) a
              ≡ (is_sanitizer_word a && any (is_flag a) (split_on 10 text)))
        × (all (contains cmd) (get_sanitizer_flags t.config_vars) ≡ true)
  unfolding get_sanitizer_flags
  build_one-Words t text modules_out src name cc cmd v e = (
    rw v (add_lines-AreDistinct [] (split_on 10 text) tt),
    λ a. rw v (contains-add_lines [] (split_on 10 text) a),
    all-contains (contains cmd) (get_sanitizer_flags t.config_vars)
        (build_one-contains t modules_out src name cc cmd e),
  )
