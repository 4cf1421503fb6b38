-- ===== src/Harness/Configured.antt =====
-- core/harness.py: each sanitizer flag that config_vars.mk names, in the flags of a harness.
use apatchy.Base.{
  if◌then◌else◌, String, ◌<>◌, Bool, true, false, ◌&&◌, ◌||◌, ◌≡◌, ◌∙◌, ap, sym, ◌⊎◌, inl, inr,
  Option, List, [], ◌∷◌, ◌==◌, contains, contains-append, string_eq, arith, Bool-cases, subst,
  eq_of_==, ==-self,
}
use apatchy.Base.Dict.{Dict, get_or}
use apatchy.Base.Text.{split, has_text}
use apatchy.Base.Words.{
  split-append, contains-split_left, contains-split_right, contains-split_self,
}
use apatchy.Base.Plain.{IsPlain, IsPlain-IsWord, split-IsPlain, split-HasWord}
use apatchy.Harness.{
  HarnessFlags, add_token, is_sanitizer, propagate_tokens, propagate, harness_flags,
}
use apatchy.Harness.Sanitizers.{Both, IsStable, propagate_tokens-kept, harness_flags-kept}

-- A token is a word of the flags, or its text occurs in another word that they were made from.
abbrev pub Reaches : (String → Bool) → String → String → Type 0
Reaches source token flags =
    (contains (split flags) token ≡ true)
    ⊎ ((w : String) × (source w ≡ true) × ((w == token) ≡ false) × (has_text token w ≡ true))

module _ (source : String → Bool) where
  -- Each word of the flags is one that they were made from.
  abbrev Sourced : String → Type 0
  Sourced flags = (w : String) → contains (split flags) w ≡ true → source w ≡ true

  -- The sanitizer flags among some tokens are words, from which the flags are made.
  abbrev AreSources : List String → Type 0
  AreSources tokens =
      (t : String)
      → contains tokens t ≡ true
      → is_sanitizer t ≡ true
      → IsPlain t × (source t ≡ true)

  AreSources-tail :
      (t : String) (tokens : List String) → AreSources (t ∷ tokens) → AreSources tokens
  AreSources-tail t tokens h = λ u k s. h u (ground (arith, k)) s

  add_token-Sourced :
      (t flags : String) → IsPlain t → source t ≡ true → Sourced flags → Sourced (add_token t flags)
  add_token-Sourced t flags b k h w c = elim (Bool-cases (has_text t flags)) [
    | inl e ↦
        h w (subst (λ v. contains (split (if v then flags else flags <> (" " <> t))) w ≡ true) e c)
    | inr e ↦
        let added =
          subst (λ v. contains (split (if v then flags else flags <> (" " <> t))) w ≡ true) e c in
        let parts =
          ap (λ l. contains l w) (split-append flags t)
          ∙ (contains-append (split flags) (split t) w
              ∙ ap (λ l. contains (split flags) w || contains l w) (IsPlain-IsWord t b)) in
        elim (Bool-cases (w == t)) [
          | inl f ↦ subst (λ u. source u ≡ true) (sym (eq_of_== w t f)) k
          | inr f ↦ h w (ground (arith, added, parts, f))
        ]
  ]

  add_token-Reaches :
      (t flags : String) → IsPlain t → Sourced flags → Reaches source t (add_token t flags)
  add_token-Reaches t flags b h = elim (Bool-cases (has_text t flags)) [
    | inr e ↦
        inl (rw e (contains-split_right t flags t (contains-split_self t (IsPlain-IsWord t b))))
    | inl e ↦
        let (w, k, i) = split-HasWord flags t b e in
        elim (Bool-cases (w == t)) [
          | inl f ↦ inl (rw e (subst (λ u. contains (split flags) u ≡ true) (eq_of_== w t f) k))
          | inr f ↦ inr (w, h w k, f, i)
        ]
  ]

  Reaches-IsStable : (token : String) → IsStable (Reaches source token)
  Reaches-IsStable token = (
    λ s t r. elim r [ inl h ↦ inl (contains-split_left token s t h) | inr h ↦ inr h ],
    λ s t r. elim r [ inl h ↦ inl (contains-split_right token s t h) | inr h ↦ inr h ],
  )

  -- One round of the loop over the tokens.
  abbrev step_of : String → HarnessFlags → HarnessFlags
  step_of t f =
      if is_sanitizer t
      then record { cflags = add_token t f.cflags; ldflags = add_token t f.ldflags }
      else f

  step-Sourced :
      (t : String) (tokens : List String) (f : HarnessFlags)
      → AreSources (t ∷ tokens)
      → Both Sourced f
      → Both Sourced (step_of t f)
  step-Sourced t tokens f a (c, l) = elim (Bool-cases (is_sanitizer t)) [
    | inl e ↦
        let (b, k) = a t (ground (arith, ==-self t)) e in
        rw e (add_token-Sourced t f.cflags b k c, add_token-Sourced t f.ldflags b k l)
    | inr e ↦ rw e (c, l)
  ]

  propagate_tokens-Sourced :
      (tokens : List String) (f : HarnessFlags)
      → AreSources tokens
      → Both Sourced f
      → Both Sourced (propagate_tokens tokens f)
  propagate_tokens-Sourced [] f a h = h
  propagate_tokens-Sourced (t ∷ tokens) f a h =
      propagate_tokens-Sourced tokens (step_of t f) (AreSources-tail t tokens a)
        (step-Sourced t tokens f a h)

  step-Reaches :
      (t : String) (tokens : List String) (f : HarnessFlags)
      → is_sanitizer t ≡ true
      → AreSources (t ∷ tokens)
      → Both Sourced f
      → Both (Reaches source t) (step_of t f)
  step-Reaches t tokens f e a (c, l) =
      let (b, k) = a t (ground (arith, ==-self t)) e in
      rw e (add_token-Reaches t f.cflags b c, add_token-Reaches t f.ldflags b l)

  propagate_tokens-Reaches :
      (tokens : List String) (token : String) (f : HarnessFlags)
      → is_sanitizer token ≡ true
      → contains tokens token ≡ true
      → AreSources tokens
      → Both Sourced f
      → Both (Reaches source token) (propagate_tokens tokens f)
  propagate_tokens-Reaches [] token f s k a h = ground arith
  propagate_tokens-Reaches (t ∷ tokens) token f s k a h = elim (Bool-cases (token == t)) [
    | inl e ↦
        let same = eq_of_== token t e in
        propagate_tokens-kept (Reaches source token) (Reaches-IsStable token) tokens (step_of t f) (
          subst (λ u. Both (Reaches source u) (step_of t f)) (sym same)
            (step-Reaches t tokens f (subst (λ u. is_sanitizer u ≡ true) same s) a h))
    | inr e ↦
        propagate_tokens-Reaches tokens token (step_of t f) s (ground (arith, k, e))
          (AreSources-tail t tokens a) (step-Sourced t tokens f a h)
  ]

-- A token is in CFLAGS or in LDFLAGS of config_vars.mk.
abbrev pub is_configured : String → Dict String String → Bool
is_configured token config_vars =
    contains (split (get_or "CFLAGS" config_vars "")) token
    || contains (split (get_or "LDFLAGS" config_vars "")) token

-- The words that the flags of a harness are made from, before those of its mode.
abbrev pub is_source : Dict String String → HarnessFlags → String → Bool
is_source config_vars f w =
    contains (split f.cflags) w
    || (contains (split f.ldflags) w || (is_sanitizer w && is_configured w config_vars))

module _ (config_vars : Dict String String) (token : String) (f : HarnessFlags) where
  propagate-Reaches :
      is_sanitizer token ≡ true
      → is_configured token config_vars ≡ true
      → Both (Reaches (is_source config_vars f) token) (propagate config_vars f)
  unfolding propagate
  propagate-Reaches s h =
      let source = is_source config_vars f in
      let cs = split (get_or "CFLAGS" config_vars "") in
      let ls = split (get_or "LDFLAGS" config_vars "") in
      let given : Both (Sourced source) f = (λ w k. ground (arith, k), λ w k. ground (arith, k)) in
      let of_cs : AreSources source cs =
        λ t k e. (split-IsPlain (get_or "CFLAGS" config_vars "") t k, ground (arith, k, e)) in
      let of_ls : AreSources source ls =
        λ t k e. (split-IsPlain (get_or "LDFLAGS" config_vars "") t k, ground (arith, k, e)) in
      elim (Bool-cases (contains cs token)) [
        | inl e ↦
            propagate_tokens-kept (Reaches source token) (Reaches-IsStable source token) ls _
              (propagate_tokens-Reaches source cs token f s e of_cs given)
        | inr e ↦
            propagate_tokens-Reaches source ls token _ s (ground (arith, h, e)) of_ls
              (propagate_tokens-Sourced source cs f of_cs given)
      ]

  -- Each `-fsanitize` and `-fno-sanitize` word of CFLAGS or LDFLAGS in config_vars.mk is a word of the
  -- flags that a C harness is compiled with, and of those that it is linked with, in every mode;
  -- unless the text of the word occurs in another word, which is in the given flags or is such a
  -- word of config_vars.mk too.
  pub harness_flags-Reaches :
      (mode harness_dir : String) (extra : Option String)
      → is_sanitizer token ≡ true
      → is_configured token config_vars ≡ true
      → Both
          (Reaches (is_source config_vars f) token)
          (harness_flags mode harness_dir extra config_vars f)
  harness_flags-Reaches mode harness_dir extra s h =
      let source = is_source config_vars f in
      harness_flags-kept (Reaches source token) (Reaches-IsStable source token) mode harness_dir
        extra config_vars f (propagate-Reaches s h)
