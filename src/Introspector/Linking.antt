-- ===== src/Introspector/Linking.antt =====
-- `IntrospectorManager.build_bitcode` of managers/introspector_manager.py: the files that are linked.
use apatchy.Base.{
  contains-append, ◌+◌, String, Bool, true, false, not, ◌≡◌, refl, ◌||◌, Option, List, [], ◌∷◌,
  ◌++◌, string_eq, arith, length, keep, any, All, All-map, inl, inr, Bool-cases,
}
use apatchy.Introspector.{globals_of, shares, select, link_targets, is_excluded_file}

shares-append : (s xs ys : List String) → shares s (xs ++ ys) ≡ (shares s xs || shares s ys)
shares-append [] xs ys = refl
shares-append (a ∷ s) xs ys = ground (arith, contains-append xs ys a, shares-append s xs ys)

shares_nil : (s : List String) → shares s [] ≡ false
shares_nil [] = refl
shares_nil (a ∷ s) = shares_nil s

module _ (nm : String → Option String) where
  -- No file defines a global that a file before it defines.
  abbrev pub AreDisjoint : List String → Type 0
  AreDisjoint [] = Unit
  AreDisjoint (file ∷ files) =
      All (λ other. shares (globals_of (nm other)) (globals_of (nm file)) ≡ false) files
      × AreDisjoint files

  abbrev pub clashes : List String → String → Bool
  clashes targets file =
      any (λ target. shares (globals_of (nm file)) (globals_of (nm target))) targets

  module _ (seen : List String) where
    abbrev Fresh : String → Type 0
    Fresh file = shares (globals_of (nm file)) seen ≡ false

    abbrev Explained : List String → String → Type 0
    Explained targets file = (shares (globals_of (nm file)) seen || clashes targets file) ≡ true

  Fresh-of_append :
      (xs seen : List String) (file : String)
      → Fresh (xs ++ seen) file
      → Fresh seen file × Fresh xs file
  Fresh-of_append xs seen file h =
      let e = shares-append (globals_of (nm file)) xs seen in ground (arith, e)

  select-Fresh : (seen files : List String) → All (Fresh seen) (select nm seen files).0
  unfolding select
  select-Fresh seen [] = tt
  select-Fresh seen (file ∷ files) =
      let own = globals_of (nm file) in
      elim (Bool-cases (shares own seen)) [
        | inl h ↦ rw h (select-Fresh seen files)
        | inr h ↦ rw h (
          h,
          All-map (Fresh (own ++ seen)) (Fresh seen) (λ g p. (Fresh-of_append own seen g p).0)
              (select nm (own ++ seen) files).0 (select-Fresh (own ++ seen) files),
        )
      ]

  select-AreDisjoint : (seen files : List String) → AreDisjoint (select nm seen files).0
  unfolding select
  select-AreDisjoint seen [] = tt
  select-AreDisjoint seen (file ∷ files) =
      let own = globals_of (nm file) in
      elim (Bool-cases (shares own seen)) [
        | inl h ↦ rw h (select-AreDisjoint seen files)
        | inr h ↦ rw h (
          All-map (Fresh (own ++ seen)) (Fresh own) (λ g p. (Fresh-of_append own seen g p).1)
              (select nm (own ++ seen) files).0 (select-Fresh (own ++ seen) files),
          select-AreDisjoint (own ++ seen) files,
        )
      ]

  Explained-of_append :
      (file : String) (seen targets : List String) (other : String)
      → Explained (globals_of (nm file) ++ seen) targets other
      → Explained seen (file ∷ targets) other
  Explained-of_append file seen targets other h =
      let e = shares-append (globals_of (nm other)) (globals_of (nm file)) seen in ground (arith, e)

  select-Explained :
      (seen files : List String)
      → All (Explained seen (select nm seen files).0) (select nm seen files).1
  unfolding select
  select-Explained seen [] = tt
  select-Explained seen (file ∷ files) =
      let own = globals_of (nm file) in
      elim (Bool-cases (shares own seen)) [
        | inl h ↦ rw h (rw h refl, select-Explained seen files)
        | inr h ↦ rw h (
            All-map (Explained (own ++ seen) (select nm (own ++ seen) files).0)
              (Explained seen (file ∷ (select nm (own ++ seen) files).0))
              (Explained-of_append file seen (select nm (own ++ seen) files).0)
              (select nm (own ++ seen) files).1 (select-Explained (own ++ seen) files))
      ]

  clashes_of_Explained :
      (targets : List String) (file : String)
      → Explained [] targets file
      → clashes targets file ≡ true
  clashes_of_Explained targets file h = ground (arith, shares_nil (globals_of (nm file)))

  length-select :
      (seen files : List String)
      → length (select nm seen files).0 + length (select nm seen files).1 ≡ length files
  unfolding select
  length-select seen [] = refl
  length-select seen (file ∷ files) =
      ground (arith, length-select seen files, length-select (globals_of (nm file) ++ seen) files)

  -- For any order of the files and any output of `llvm-nm`: no file that is linked defines a global
  -- that a file linked before it defines, every file that is left out for its symbols defines a
  -- global of one that is linked, and together they are as many as the built files whose names are
  -- not excluded.
  pub link_targets-AreDisjoint :
      (name : String → String) (built : List String)
      → AreDisjoint (link_targets name nm built).0
        × All
            (λ file. clashes (link_targets name nm built).0 file ≡ true)
            (link_targets name nm built).1
        × length (link_targets name nm built).0 + length (link_targets name nm built).1
          ≡ length (keep (λ file. not (is_excluded_file (name file))) built)
  unfolding link_targets
  link_targets-AreDisjoint name built =
      let files = keep (λ file. not (is_excluded_file (name file))) built in
      (
        select-AreDisjoint [] files,
        All-map (Explained [] (select nm [] files).0)
            (λ file. clashes (select nm [] files).0 file ≡ true)
            (clashes_of_Explained (select nm [] files).0) (select nm [] files).1
            (select-Explained [] files),
        length-select [] files,
      )
