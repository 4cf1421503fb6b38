-- ===== src/Harness/Sanitizers.antt =====
-- core/harness.py: what is true of the flags that Apache was built with stays true in the flags of a
-- harness, if more flags do not make it false.
use text.Mathlib.TextLemmas.{append_assoc}
use apatchy.Base.{
  String, ◌<>◌, Bool, true, false, ◌≡◌, List, [], ◌∷◌, Option, none, some, if◌then◌else◌, ◌==◌,
  contains, string_eq, inl, inr, Bool-cases, subst, sym,
}
use apatchy.Base.Dict.{Dict, get_or}
use apatchy.Base.Text.{split, has_text}
use apatchy.Base.Words.{contains-split_left, contains-split_right}
use apatchy.Harness.{
  HarnessFlags, add_token, is_sanitizer, propagate_tokens, propagate, add_mode, add_extra,
  add_no_pie, harness_flags,
}

-- A predicate of the flags of the compiler and of those of the linker.
abbrev pub Both : (String → Type 0) → HarnessFlags → Type 0
Both P f = P f.cflags × P f.ldflags

-- A token is one of the words of the flags of the compiler, and one of those of the linker.
abbrev pub Occurs : String → HarnessFlags → Type 0
Occurs token f = Both (λ flags. contains (split flags) token ≡ true) f

-- A predicate that stays true when words are put behind a text or in front of it.
abbrev pub IsStable : (String → Type 0) → Type 0
IsStable P =
    ((s t : String) → P s → P (s <> (" " <> t))) × ((s t : String) → P t → P (s <> (" " <> t)))

pub contains-IsStable : (token : String) → IsStable (λ flags. contains (split flags) token ≡ true)
contains-IsStable token =
    (λ s t h. contains-split_left token s t h, λ s t h. contains-split_right token s t h)

module _ (P : String → Type 0) (stable : IsStable P) where
  in_front : (s t : String) → P t → P ((s <> " ") <> t)
  in_front s t h = subst P (sym (append_assoc s " " t)) (stable.1 s t h)

  add_token-kept : (token flags : String) → P flags → P (add_token token flags)
  add_token-kept token flags h = elim (Bool-cases (has_text token flags)) [
    | inl e ↦ rw e h
    | inr e ↦ rw e (stable.0 flags token h)
  ]

  Both-if : (b : Bool) (f g : HarnessFlags) → Both P f → Both P g → Both P (if b then f else g)
  Both-if true f g h k = h
  Both-if false f g h k = k

  pub propagate_tokens-kept :
      (tokens : List String) (f : HarnessFlags) → Both P f → Both P (propagate_tokens tokens f)
  propagate_tokens-kept [] f h = h
  propagate_tokens-kept (token ∷ tokens) f h = propagate_tokens-kept tokens _ (
      Both-if (is_sanitizer token) _ f
        (add_token-kept token f.cflags h.0, add_token-kept token f.ldflags h.1) h)

  pub propagate-kept :
      (config_vars : Dict String String) (f : HarnessFlags)
      → Both P f
      → Both P (propagate config_vars f)
  unfolding propagate
  propagate-kept config_vars f h =
      propagate_tokens-kept (split (get_or "LDFLAGS" config_vars "")) _
        (propagate_tokens-kept (split (get_or "CFLAGS" config_vars "")) f h)

  Both-in_front :
      (c l : String) (f : HarnessFlags)
      → Both P f
      → Both P (record { cflags = (c <> " ") <> f.cflags; ldflags = (l <> " ") <> f.ldflags })
  Both-in_front c l f (h, k) = (in_front c f.cflags h, in_front l f.ldflags k)

  add_mode-kept : (mode : String) (f : HarnessFlags) → Both P f → Both P (add_mode mode f)
  unfolding add_mode
  add_mode-kept mode f h =
      Both-if (mode == "libfuzzer") _ _
        (Both-in_front "-DLIBFUZZER -fsanitize=fuzzer" "-fsanitize=fuzzer" f h)
        (Both-if (mode == "coverage") _ _
          (Both-in_front "-DLIBFUZZER -fsanitize=fuzzer -fprofile-instr-generate -fcoverage-mapping"
            "-fsanitize=fuzzer -fprofile-instr-generate" f h)
          h)

  add_extra-kept : (extra : Option String) (flags : String) → P flags → P (add_extra extra flags)
  add_extra-kept none flags h = h
  add_extra-kept (some extra) flags h = elim (Bool-cases (extra == "")) [
    | inl e ↦ rw e h
    | inr e ↦ rw e (stable.0 flags extra h)
  ]

  add_no_pie-kept : (flags : String) → P flags → P (add_no_pie flags)
  add_no_pie-kept flags h = elim (Bool-cases (has_text "-no-pie" flags)) [
    | inl e ↦ rw e h
    | inr e ↦ rw e (stable.0 flags "-no-pie" h)
  ]

  pub harness_flags-kept :
      (mode harness_dir : String) (extra : Option String) (config_vars : Dict String String)
      (f : HarnessFlags)
      → Both P (propagate config_vars f)
      → Both P (harness_flags mode harness_dir extra config_vars f)
  unfolding harness_flags
  harness_flags-kept mode harness_dir extra config_vars f o =
      let g = add_mode mode (propagate config_vars f) in
      let (c, l) = add_mode-kept mode (propagate config_vars f) o in
      (
        subst P (append_assoc "-I" harness_dir (" " <> g.cflags))
            (stable.1 ("-I" <> harness_dir) g.cflags c),
        add_no_pie-kept (add_extra extra g.ldflags) (add_extra-kept extra g.ldflags l),
      )
