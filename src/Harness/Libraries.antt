-- ===== src/Harness/Libraries.antt =====
-- core/harness.py: the libraries that a harness is linked with.
use apatchy.Base.{
  contains-append, String, Bool, true, false, not, ◌≡◌, refl, ◌∙◌, ◌&&◌, ◌||◌, List, [], ◌∷◌, ◌++◌,
  ◌==◌, contains, string_eq, arith, any, inl, inr, Bool-cases, eq_of_==, ==-self, map,
}
use apatchy.Base.Dict.{Dict, get_or}
use apatchy.Base.Text.{split, has_text}
use apatchy.Harness.{add_flags, add_modules, get_system_libs, is_ldadd, module_libs}

-- No item occurs twice.
abbrev pub AreDistinct : List String → Type 0
AreDistinct [] = Unit
AreDistinct (x ∷ xs) = (contains xs x ≡ false) × AreDistinct xs

pub AreDistinct-snoc :
    (xs : List String) (a : String)
    → AreDistinct xs
    → contains xs a ≡ false
    → AreDistinct (xs ++ a ∷ [])
AreDistinct-snoc [] a _ _ = (refl, tt)
AreDistinct-snoc (x ∷ xs) a (d, ds) h =
    ground (arith, contains-append xs (a ∷ []) x, AreDistinct-snoc xs a ds)

add_flags-AreDistinct :
    (libs flags : List String) → AreDistinct libs → AreDistinct (add_flags libs flags)
add_flags-AreDistinct libs [] d = d
add_flags-AreDistinct libs (flag ∷ flags) d = elim (Bool-cases (contains libs flag)) [
  | inl h ↦ rw h (add_flags-AreDistinct libs flags d)
  | inr h ↦ rw h (add_flags-AreDistinct (libs ++ flag ∷ []) flags (AreDistinct-snoc libs flag d h))
]

contains-add_flags :
    (libs flags : List String) (a : String)
    → contains (add_flags libs flags) a ≡ (contains libs a || contains flags a)
contains-add_flags libs [] a = ground arith
contains-add_flags libs (flag ∷ flags) a = ground (
  arith,
  contains-add_flags libs flags a,
  contains-add_flags (libs ++ flag ∷ []) flags a,
  contains-append libs (flag ∷ []) a,
)

add_modules-AreDistinct :
    (libs : List String) (config_vars : Dict String String)
    → AreDistinct libs
    → AreDistinct (add_modules libs config_vars)
add_modules-AreDistinct libs [] d = d
add_modules-AreDistinct libs ((key, value) ∷ vars) d =
    elim (Bool-cases (is_ldadd key && not (value == ""))) [
      | inl h ↦ rw h (
          add_modules-AreDistinct (add_flags libs (split value)) vars
            (add_flags-AreDistinct libs (split value) d))
      | inr h ↦ rw h (add_modules-AreDistinct libs vars d)
    ]

-- The flag is a word of the value of some MOD_*_LDADD variable.
abbrev pub is_wanted : String → Dict String String → Bool
is_wanted flag config_vars =
    any (λ item. is_ldadd item.0 && contains (split item.1) flag) config_vars

split_empty : (a : String) → contains (split "") a ≡ false
unfolding split
split_empty a = refl

split_of_empty : (value a : String) → (value == "") ≡ true → contains (split value) a ≡ false
split_of_empty value a h = rw (eq_of_== value "" h) (split_empty a)

contains-add_modules :
    (libs : List String) (config_vars : Dict String String) (a : String)
    → contains (add_modules libs config_vars) a ≡ (contains libs a || is_wanted a config_vars)
contains-add_modules libs [] a = ground arith
contains-add_modules libs ((key, value) ∷ vars) a = ground (
  arith,
  split_of_empty value a,
  contains-add_modules libs vars a,
  contains-add_modules (add_flags libs (split value)) vars a,
  contains-add_flags libs (split value) a,
)

-- The libraries of the system have no duplicates, and they are the words of the values of the
-- variables MOD_*_LDADD and of PCRE_LIBS, and no others.
pub get_system_libs-AreDistinct :
    (config_vars : Dict String String)
    → AreDistinct (get_system_libs config_vars)
      × ((flag : String)
          → contains (get_system_libs config_vars) flag ≡ (
              is_wanted flag config_vars
              || contains (split (get_or "PCRE_LIBS" config_vars "")) flag))
unfolding get_system_libs
get_system_libs-AreDistinct config_vars =
    let modules = add_modules [] config_vars in
    let pcre = split (get_or "PCRE_LIBS" config_vars "") in
    (
      add_flags-AreDistinct modules pcre (add_modules-AreDistinct [] config_vars tt),
      λ flag.
          contains-add_flags modules pcre flag ∙ rw (contains-add_modules [] config_vars flag) refl,
    )

module _ (name : String → String) where
  abbrev pub is_found : String → List String → Bool
  is_found n found = any (λ la. not (has_text ".libs" la) && n == name la) found

  contains-module_libs :
      (seen found : List String) (n : String)
      → contains (map name (module_libs name seen found)) n
        ≡ (is_found n found && not (contains seen n))
  unfolding module_libs
  contains-module_libs seen [] n = refl
  contains-module_libs seen (la ∷ found) n =
      ground
        (arith, contains-module_libs seen found n, contains-module_libs (name la ∷ seen) found n)

  module_libs-AreDistinct :
      (seen found : List String) → AreDistinct (map name (module_libs name seen found))
  unfolding module_libs
  module_libs-AreDistinct seen [] = tt
  module_libs-AreDistinct seen (la ∷ found) = ground (
    arith,
    module_libs-AreDistinct seen found,
    module_libs-AreDistinct (name la ∷ seen) found,
    contains-module_libs (name la ∷ seen) found (name la),
    ==-self (name la),
  )

  -- Of the module libraries that are found outside `.libs` directories, one of each name is linked,
  -- and no other.
  module_libs-Each :
      (found : List String)
      → AreDistinct (map name (module_libs name [] found))
        × ((n : String) → contains (map name (module_libs name [] found)) n ≡ is_found n found)
  module_libs-Each found =
      (module_libs-AreDistinct [] found, λ n. ground (arith, contains-module_libs [] found n))
