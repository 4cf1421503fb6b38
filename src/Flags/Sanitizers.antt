-- ===== src/Flags/Sanitizers.antt =====
-- `ConfigManager` of framework/src/apatchy/managers/config_manager.py: the sanitizers of a build.
use apatchy.Base.{
  contains-append, String, Bool, true, false, ◌≡◌, refl, ◌∙◌, sym, Option, none, some, List, [],
  ◌∷◌, ◌++◌, if◌then◌else◌, ◌==◌, contains, string_eq, arith, ==-self, eq_of_==,
}
use text.Mathlib.Text
use text.Mathlib.TextEquality.{starts_with_iff}
use apatchy.Flags.{
  Flags, ConfigManager, Disk, vanilla_flags, fuzz_flags, coverage_flags, libfuzzer_flags,
  other_flags, mode_flags, both, add_cflag, ignorelist_flag, resolve_ignorelist, add_asan,
  user_ignorelist, add_ubsan, found_ignorelist, add_intsan, add_truncsan, sanitizer_flags,
}

-- Whether a flag is passed to the compiler, and whether it is passed to the linker.
abbrev pub passed : String → Flags → Bool × Bool
passed flag f = (contains f.cflags flag, contains f.ldflags flag)

abbrev pub twice : Bool → Bool × Bool
twice b = (b, b)

-- A flag with another third character than "-fsanitize-ignorelist=" has after "-fsanitize".
abbrev Plain : String → Type 0
Plain flag = (path : String) → (flag == ignorelist_flag path) ≡ false

contains-snoc :
    (xs : List String) (x a : String) → (a == x) ≡ false → contains (xs ++ x ∷ []) a ≡ contains xs a
contains-snoc xs x a h = ground (arith, contains-append xs (x ∷ []) a)

passed-add_cflag :
    (flag other : String) (f : Flags)
    → (flag == other) ≡ false
    → passed flag (add_cflag other f) ≡ passed flag f
passed-add_cflag flag other f h = rw (contains-snoc f.cflags other flag h)

passed-both :
    (flag other : String) (f : Flags)
    → (flag == other) ≡ false
    → passed flag (both other f) ≡ passed flag f
passed-both flag other f h =
    rw (contains-snoc f.cflags other flag h, contains-snoc f.ldflags other flag h)

contains-snoc_self : (xs : List String) (a : String) → contains (xs ++ a ∷ []) a ≡ true
contains-snoc_self xs a = ground (arith, contains-append xs (a ∷ []) a, ==-self a)

passed-both_self : (flag : String) (f : Flags) → passed flag (both flag f) ≡ twice true
passed-both_self flag f = rw (contains-snoc_self f.cflags flag, contains-snoc_self f.ldflags flag)

Plain-of_no_prefix :
    (flag : String) → Text.starts_with flag "-fsanitize-ignorelist=" ≡ false → Plain flag
Plain-of_no_prefix flag h path =
    let prefixed : (flag == ignorelist_flag path) ≡ true
        → Text.starts_with flag "-fsanitize-ignorelist=" ≡ true =
      λ same.
        (starts_with_iff flag "-fsanitize-ignorelist=").1
          (path, sym (eq_of_== flag (ignorelist_flag path) same)) in
    ground (arith, prefixed)

-- Flags with exactly these of the four sanitizers.
abbrev pub Sanitizes : Bool → Bool → Bool → Bool → Flags → Type 0
Sanitizes asan ubsan intsan truncsan f =
    (passed "-fsanitize=address" f ≡ twice asan)
    × (passed "-fsanitize=undefined" f ≡ twice ubsan)
    × (passed "-fsanitize=unsigned-integer-overflow" f ≡ twice intsan)
    × (passed "-fsanitize=implicit-unsigned-integer-truncation" f ≡ twice truncsan)

by_tests-Sanitizes :
    (b c d e : Bool)
    → Sanitizes false false false false (
        if b
        then vanilla_flags
        else if c
        then fuzz_flags
        else if d
        then coverage_flags
        else if e
        then libfuzzer_flags
        else other_flags)
unfolding string_eq
by_tests-Sanitizes true c d e = (refl, refl, refl, refl)
by_tests-Sanitizes false true d e = (refl, refl, refl, refl)
by_tests-Sanitizes false false true e = (refl, refl, refl, refl)
by_tests-Sanitizes false false false true = (refl, refl, refl, refl)
by_tests-Sanitizes false false false false = (refl, refl, refl, refl)

mode_flags-Sanitizes : (mode : String) → Sanitizes false false false false (mode_flags mode)
unfolding mode_flags
mode_flags-Sanitizes mode =
    by_tests-Sanitizes (mode == "vanilla") (mode == "fuzz") (mode == "coverage")
      (mode == "libfuzzer")

both_asan-Sanitizes :
    (f : Flags)
    → Sanitizes false false false false f
    → Sanitizes true false false false (both "-fsanitize=address" f)
unfolding string_eq
both_asan-Sanitizes f (p, q, r, s) = (
  passed-both_self "-fsanitize=address" f,
  passed-both "-fsanitize=undefined" "-fsanitize=address" f refl ∙ q,
  passed-both "-fsanitize=unsigned-integer-overflow" "-fsanitize=address" f refl ∙ r,
  passed-both "-fsanitize=implicit-unsigned-integer-truncation" "-fsanitize=address" f refl ∙ s,
)

both_ubsan-Sanitizes :
    (a : Bool) (f : Flags)
    → Sanitizes a false false false f
    → Sanitizes a true false false (both "-fsanitize=undefined" f)
unfolding string_eq
both_ubsan-Sanitizes a f (p, q, r, s) = (
  passed-both "-fsanitize=address" "-fsanitize=undefined" f refl ∙ p,
  passed-both_self "-fsanitize=undefined" f,
  passed-both "-fsanitize=unsigned-integer-overflow" "-fsanitize=undefined" f refl ∙ r,
  passed-both "-fsanitize=implicit-unsigned-integer-truncation" "-fsanitize=undefined" f refl ∙ s,
)

both_intsan-Sanitizes :
    (a u : Bool) (f : Flags)
    → Sanitizes a u false false f
    → Sanitizes a u true false (both "-fsanitize=unsigned-integer-overflow" f)
unfolding string_eq
both_intsan-Sanitizes a u f (p, q, r, s) =
    let flag : String = "-fsanitize=unsigned-integer-overflow" in
    (
      passed-both "-fsanitize=address" flag f refl ∙ p,
      passed-both "-fsanitize=undefined" flag f refl ∙ q,
      passed-both_self flag f,
      passed-both "-fsanitize=implicit-unsigned-integer-truncation" flag f refl ∙ s,
    )

both_truncsan-Sanitizes :
    (a u i : Bool) (f : Flags)
    → Sanitizes a u i false f
    → Sanitizes a u i true (both "-fsanitize=implicit-unsigned-integer-truncation" f)
unfolding string_eq
both_truncsan-Sanitizes a u i f (p, q, r, s) =
    let flag : String = "-fsanitize=implicit-unsigned-integer-truncation" in
    (
      passed-both "-fsanitize=address" flag f refl ∙ p,
      passed-both "-fsanitize=undefined" flag f refl ∙ q,
      passed-both "-fsanitize=unsigned-integer-overflow" flag f refl ∙ r,
      passed-both_self flag f,
    )

-- A flag that is none of the four changes nothing.
both_trap-Sanitizes :
    (a u i t : Bool) (f : Flags)
    → Sanitizes a u i t f
    → Sanitizes a u i t (both "-fno-sanitize-trap" f)
unfolding string_eq
both_trap-Sanitizes a u i t f (p, q, r, s) =
    let flag : String = "-fno-sanitize-trap" in
    (
      passed-both "-fsanitize=address" flag f refl ∙ p,
      passed-both "-fsanitize=undefined" flag f refl ∙ q,
      passed-both "-fsanitize=unsigned-integer-overflow" flag f refl ∙ r,
      passed-both "-fsanitize=implicit-unsigned-integer-truncation" flag f refl ∙ s,
    )

ignorelist-Sanitizes :
    (a u i t : Bool) (path : String) (f : Flags)
    → Sanitizes a u i t f
    → Sanitizes a u i t (add_cflag (ignorelist_flag path) f)
ignorelist-Sanitizes a u i t path f (p, q, r, s) =
    let kept : (flag : String)
        → Text.starts_with flag "-fsanitize-ignorelist=" ≡ false
        → passed flag (add_cflag (ignorelist_flag path) f) ≡ passed flag f =
      λ flag h. passed-add_cflag flag (ignorelist_flag path) f (Plain-of_no_prefix flag h path) in
    (
      kept "-fsanitize=address" refl ∙ p,
      kept "-fsanitize=undefined" refl ∙ q,
      kept "-fsanitize=unsigned-integer-overflow" refl ∙ r,
      kept "-fsanitize=implicit-unsigned-integer-truncation" refl ∙ s,
    )

if-Sanitizes :
    (a u i t b : Bool) (f g : Flags)
    → Sanitizes a u i t f
    → Sanitizes a u i t g
    → Sanitizes a u i t (if b then f else g)
if-Sanitizes a u i t true f g h k = h
if-Sanitizes a u i t false f g h k = k

module _ (d : Disk) where
  found-Sanitizes :
      (a u i t : Bool) (path : Option String) (f : Flags)
      → Sanitizes a u i t f
      → Sanitizes a u i t (found_ignorelist d path f)
  found-Sanitizes a u i t none f h = h
  found-Sanitizes a u i t (some path) f h = ignorelist-Sanitizes a u i t path f h

  user-Sanitizes :
      (a u i t : Bool) (path : Option String) (f : Flags)
      → Sanitizes a u i t f
      → Sanitizes a u i t (user_ignorelist d path f)
  user-Sanitizes a u i t none f h = h
  user-Sanitizes a u i t (some path) f h =
      let listed = add_cflag (ignorelist_flag (d.resolve path)) f in
      let found = ignorelist-Sanitizes a u i t (d.resolve path) f h in
      if-Sanitizes a u i t (path == "") f _ h
        (if-Sanitizes a u i t (d.exists (d.resolve path)) listed f found h)

  add_asan-Sanitizes :
      (on : Bool) (f : Flags)
      → Sanitizes false false false false f
      → Sanitizes on false false false (add_asan d on f)
  add_asan-Sanitizes false f h = h
  add_asan-Sanitizes true f h = both_asan-Sanitizes f h

  add_ubsan-Sanitizes :
      (a on : Bool) (path : Option String) (f : Flags)
      → Sanitizes a false false false f
      → Sanitizes a on false false (add_ubsan d on path f)
  add_ubsan-Sanitizes a false path f h = h
  add_ubsan-Sanitizes a true path f h =
      user-Sanitizes a true false false path _
        (both_trap-Sanitizes a true false false _ (both_ubsan-Sanitizes a f h))

  add_intsan-Sanitizes :
      (a u on : Bool) (f : Flags)
      → Sanitizes a u false false f
      → Sanitizes a u on false (add_intsan d on f)
  add_intsan-Sanitizes a u false f h = h
  add_intsan-Sanitizes a u true f h =
      found-Sanitizes a u true false (resolve_ignorelist d "intsan.ignorelist") _
        (both_intsan-Sanitizes a u f h)

  add_truncsan-Sanitizes :
      (a u i on : Bool) (f : Flags)
      → Sanitizes a u i false f
      → Sanitizes a u i on (add_truncsan d on f)
  add_truncsan-Sanitizes a u i false f h = h
  add_truncsan-Sanitizes a u i true f h = both_truncsan-Sanitizes a u i f h

  -- In every build mode, for any ignore lists, each of the four `-fsanitize=` flags for ASan, UBSan,
  -- integer overflow and truncation is passed to the compiler, and to the linker, exactly if the
  -- manager's switch for it is on.
  pub sanitizer_flags-Sanitizes :
      (c : ConfigManager) → Sanitizes c.asan c.ubsan c.intsan c.truncsan (sanitizer_flags d c)
  unfolding sanitizer_flags
  sanitizer_flags-Sanitizes c = add_truncsan-Sanitizes c.asan c.ubsan c.intsan c.truncsan _ (
      add_intsan-Sanitizes c.asan c.ubsan c.intsan _ (
        add_ubsan-Sanitizes c.asan c.ubsan c.ubsan_ignorelist _
          (add_asan-Sanitizes c.asan _ (mode_flags-Sanitizes c.build_mode))))
