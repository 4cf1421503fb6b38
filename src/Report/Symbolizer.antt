-- ===== src/Report/Symbolizer.antt =====
-- `ReportManager._find_llvm_symbolizer` of managers/report_manager.py: the versions on the PATH.
use apatchy.Base.{
  ℕ, ◌≤◌, String, ◌≡◌, refl, ◌∙◌, inl, inr, Option, none, some, List, [], ◌∷◌, ◌++◌, if◌then◌else◌,
  ◌==◌, nat_eq, arith, Option-cases, All,
}
use apatchy.Base.Dict.{Dict, lookup}
use apatchy.Report.{Host, set_default, version_of, scan_names, scan_path, lowest, choose}

abbrev pub or_path : Option String → Option String → Option String
or_path none p = p
or_path (some q) p = some q

lookup-snoc :
    (n ver : ℕ) (path : String) (found : Dict ℕ String)
    → lookup n (found ++ (ver, path) ∷ [])
      ≡ or_path (lookup n found) (if n == ver then some path else none)
lookup-snoc n ver path [] = refl
lookup-snoc n ver path ((v, p) ∷ found) = ground (arith, lookup-snoc n ver path found)

module _ (h : Host) where
  lookup-set_default :
      (n ver : ℕ) (path : String) (found : Dict ℕ String)
      → lookup n (set_default h ver path found)
        ≡ or_path (lookup n found) (if n == ver then some path else none)
  lookup-set_default n ver path found = ground (arith, lookup-snoc n ver path found)

  -- The first name in a directory with a version, and the first one of a list of directories.
  abbrev pub first_name : ℕ → String → List String → Option String
  first_name n dir [] = none
  first_name n dir (name ∷ names) =
      let rest = first_name n dir names in
      elim (version_of h name) [
        | none ↦ rest
        | some ver ↦ if n == ver then some (h.slash dir name) else rest
      ]

  abbrev pub first_path : ℕ → List (String × List String) → Option String
  first_path n [] = none
  first_path n ((dir, names) ∷ dirs) = or_path (first_name n dir names) (first_path n dirs)

  lookup-scan_names :
      (n : ℕ) (dir : String) (names : List String) (found : Dict ℕ String)
      → lookup n (scan_names h dir names found) ≡ or_path (lookup n found) (first_name n dir names)
  lookup-scan_names n dir [] found = ground arith
  lookup-scan_names n dir (name ∷ names) found = elim (Option-cases (version_of h name)) [
    | inl e ↦ ground (arith, e, lookup-scan_names n dir names found)
    | inr (ver, e) ↦ ground (
      arith,
      e,
      lookup-scan_names n dir names (set_default h ver (h.slash dir name) found),
      lookup-set_default n ver (h.slash dir name) found,
    )
  ]

  lookup-scan_path :
      (n : ℕ) (dirs : List (String × List String)) (found : Dict ℕ String)
      → lookup n (scan_path h dirs found) ≡ or_path (lookup n found) (first_path n dirs)
  lookup-scan_path n [] found = ground arith
  lookup-scan_path n ((dir, names) ∷ dirs) found =
      lookup-scan_path n dirs (scan_names h dir names found)
      ∙ rw (lookup-scan_names n dir names found) (ground arith)

  -- An entry and a bound on the versions of all.
  abbrev pub IsLowest : ℕ × String → Dict ℕ String → Type 0
  IsLowest best found = All (λ item. best.0 ≤ item.0) found

  lowest-IsLowest :
      (best : ℕ × String) (items : Dict ℕ String)
      → ((lowest h best items).0 ≤ best.0) × IsLowest (lowest h best items) items
  lowest-IsLowest best [] = (omega arith, tt)
  lowest-IsLowest (n, p) ((m, q) ∷ items) =
      let keep = lowest-IsLowest (n, p) items in
      let take = lowest-IsLowest (m, q) items in ground (arith, keep, take)

  -- For each version, the scan of the PATH knows the first symbolizer with that version: that of the
  -- first directory that has one, and the first one there.
  lookup-scan_path_first :
      (dirs : List (String × List String)) (n : ℕ)
      → lookup n (scan_path h dirs []) ≡ first_path n dirs
  lookup-scan_path_first dirs n = lookup-scan_path n dirs []

  -- If the scan finds any and the version of the compiler is not known, the last step takes the path
  -- of a version that is at most each version found.
  choose-IsLowest :
      (dirs : List (String × List String)) (item : ℕ × String) (items : Dict ℕ String)
      → scan_path h dirs [] ≡ item ∷ items
      → (best : ℕ × String) × (choose h none (scan_path h dirs []) ≡ some best.1)
        × IsLowest best (scan_path h dirs [])
  unfolding choose
  choose-IsLowest dirs item items e =
      (lowest h item items, rw e refl, rw e (lowest-IsLowest item items))
