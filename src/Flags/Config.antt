-- ===== src/Flags/Config.antt =====
-- `ConfigManager.generate_build_config` of framework/src/apatchy/managers/config_manager.py: the
-- flags as texts.
use apatchy.Base.{
  String, Bool, true, false, ◌≡◌, Option, none, some, List, ◌++◌, ◌>>=◌, if◌then◌else◌, ◌==◌,
  contains, contains-append, string_eq, arith, bind-eq-some, subst,
}
use apatchy.Base.Text.{join, split}
use apatchy.Base.Words.{IsWord, contains-split-join}
use apatchy.Flags.{
  Packaging, ConfigManager, Flags, Disk, CompatResult, sanitizer_flags, get_compat_flags,
  add_compat, all_flags, generate_build_config,
}

-- A flag is among those of the compiler and among those of the linker.
abbrev pub Includes : String → Flags → Type 0
Includes flag f = (contains f.cflags flag ≡ true) × (contains f.ldflags flag ≡ true)

abbrev WhenSome : String → Option Flags → Type 0
WhenSome flag none = Unit
WhenSome flag (some f) = Includes flag f

-- A flag is one of the words of the text for the compiler, and one of those of the text for the
-- linker.
abbrev pub Mentions : String → String × String × Option String → Type 0
Mentions flag config =
    (contains (split config.0) flag ≡ true) × (contains (split config.1) flag ≡ true)

abbrev WhenConfig : String → Option (String × String × Option String) → Type 0
WhenConfig flag none = Unit
WhenConfig flag (some config) = Mentions flag config

contains-append_left :
    (xs ys : List String) (a : String) → contains xs a ≡ true → contains (xs ++ ys) a ≡ true
contains-append_left xs ys a h = ground (arith, contains-append xs ys a)

module _ (d : Disk) (k : Packaging) (flag : String) where
  WhenSome-if :
      (b : Bool) (x y : Option Flags)
      → WhenSome flag x
      → WhenSome flag y
      → WhenSome flag (if b then x else y)
  WhenSome-if true x y h i = h
  WhenSome-if false x y h i = i

  appended :
      (found : Option CompatResult) (f : Flags)
      → Includes flag f
      → WhenSome flag (
          found >>= λ compat.
          some
            (record { cflags = f.cflags ++ compat.cflags; ldflags = f.ldflags ++ compat.ldflags }))
  appended none f i = tt
  appended (some compat) f (c, l) = (
    contains-append_left f.cflags compat.cflags flag c,
    contains-append_left f.ldflags compat.ldflags flag l,
  )

  add_compat-Includes :
      (version : Option String) (f : Flags)
      → Includes flag f
      → WhenSome flag (add_compat d k version f)
  unfolding add_compat
  add_compat-Includes none f i = i
  add_compat-Includes (some version) f (c, l) =
      WhenSome-if (version == "") (some f) _ (c, l)
        (appended (get_compat_flags k d.compat_header version) f (c, l))

  -- A flag of one word that the build mode or a sanitizer asks for is a word of the texts that are returned.
  pub generate_build_config-Mentions :
      (m : ConfigManager) (version : Option String) (config : String × String × Option String)
      → IsWord flag
      → Includes flag (sanitizer_flags d m)
      → generate_build_config d k m version ≡ some config
      → Mentions flag config
  unfolding generate_build_config all_flags
  generate_build_config-Mentions m version config w i e =
      let texts : Flags → Option (String × String × Option String) =
        λ f. some (join " " f.cflags, join " " f.ldflags, d.clang) in
      let (f, made, e1) = bind-eq-some (add_compat d k version (sanitizer_flags d m)) texts e in
      let (c, l) =
        subst (WhenSome flag) made (add_compat-Includes version (sanitizer_flags d m) i) in
      subst (WhenConfig flag) e1
        (contains-split-join flag f.cflags w c, contains-split-join flag f.ldflags w l)
