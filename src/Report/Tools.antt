-- ===== src/Report/Tools.antt =====
-- `ReportManager._detect_llvm_toolchain` of managers/report_manager.py.
use apatchy.Base.{
  ◌<>◌, ◌&&◌, Bool-cases, subst, ℕ, String, Bool, true, false, ◌≡◌, refl, ◌∙◌, ◌⊎◌, inl, inr,
  Option, none, some, List, [], ◌∷◌, contains, string_eq, ◌||◌, arith, Option-cases, is_some, any,
  ap, ==-self,
}
use mathlib.Core.Option.{some-injective}
use apatchy.Base.Decimal.{decimal}
use apatchy.Toolchain.{resolve_tool}
use apatchy.Introspector.{clang_major_version}
use apatchy.Report.{
  pair_of, Host, Triple, find, major_of, configured, colocated, on_path, first_triple, tools_for,
  try_candidate, detect, candidates, detect_llvm_toolchain,
}

first_triple-some :
    (h : Host) (a b : Option Triple) (t : Triple)
    → first_triple h a b ≡ some t
    → (a ≡ some t) ⊎ (b ≡ some t)
first_triple-some h none b t e = inr e
first_triple-some h (some s) b t e = inl e

module _ (h : Host) where
  -- The two tools of a triple are those of a version, from one section of the toolchain file or,
  -- without one, from any section or the PATH.
  abbrev pub AreResolved : ℕ → Option String → Triple → Type 0
  AreResolved major section t =
      (resolve_tool h.tools h.cfg ("llvm-profdata-" <> decimal major) section ≡ some t.profdata)
      × (resolve_tool h.tools h.cfg ("llvm-cov-" <> decimal major) section ≡ some t.cov)

  -- They are the files of a version in the directory of the compiler.
  abbrev pub AreBeside : ℕ → Triple → Type 0
  AreBeside major t =
      (t.profdata ≡ h.slash (h.parent t.cc) ("llvm-profdata-" <> decimal major))
      × (t.cov ≡ h.slash (h.parent t.cc) ("llvm-cov-" <> decimal major))
      × (h.is_file t.profdata ≡ true)
      × (h.is_file t.cov ≡ true)

  abbrev pub HasTools : ℕ → Triple → Type 0
  HasTools major t =
      AreResolved major (some "coverage") t ⊎ (AreBeside major t ⊎ AreResolved major none t)

  -- The compiler of a triple is found under one of the names, and the two tools are those for the
  -- version that it tells.
  abbrev pub Matches : List String → Triple → Type 0
  Matches names t =
      (name : String) × (contains names name ≡ true)
      × (resolve_tool h.tools h.cfg name none ≡ some t.cc)
      × (major : ℕ) × (clang_major_version (h.version_output t.cc) ≡ some major)
      × HasTools major t

  pair_of-some :
      (p c : Option String) (cc : String) (t : Triple)
      → pair_of p c cc ≡ some t
      → (p ≡ some t.profdata) × (c ≡ some t.cov) × (cc ≡ t.cc)
  pair_of-some none none cc t e = ground arith
  pair_of-some none (some c) cc t e = ground arith
  pair_of-some (some p) none cc t e = ground arith
  pair_of-some (some p) (some c) cc t e =
      let same = some-injective _ _ e in
      (ap (λ u. some u.profdata) same, ap (λ u. some u.cov) same, ap (λ u. u.cc) same)

  colocated-AreBeside :
      (cc : String) (major : ℕ) (t : Triple)
      → colocated h cc major ≡ some t
      → AreBeside major t × (cc ≡ t.cc)
  colocated-AreBeside cc major t e =
      let p = h.slash (h.parent cc) ("llvm-profdata-" <> decimal major) in
      let c = h.slash (h.parent cc) ("llvm-cov-" <> decimal major) in
      elim (Bool-cases (h.is_file p && h.is_file c)) [
        | inl b ↦
            let beside : Triple = record { profdata = p; cov = c; cc = cc } in
            subst (λ u. AreBeside major u × (cc ≡ u.cc))
              (some-injective beside t (ground (arith, e, b)))
              ((refl, refl, ground (arith, b), ground (arith, b)), refl)
        | inr b ↦ ground (arith, e, b)
      ]

  tools_for-HasTools :
      (cc : String) (major : ℕ) (t : Triple)
      → tools_for h cc major ≡ some t
      → HasTools major t × (cc ≡ t.cc)
  unfolding tools_for
  tools_for-HasTools cc major t e =
      elim (first_triple-some h (configured h cc major)
        (first_triple h (colocated h cc major) (on_path h cc major)) t e) [
          | inl c ↦ let (p, q, r) = pair_of-some _ _ cc t c in (inl (p, q), r)
          | inr e' ↦ elim (first_triple-some h (colocated h cc major) (on_path h cc major) t e') [
            | inl c ↦ let (b, r) = colocated-AreBeside cc major t c in (inr (inl b), r)
            | inr c ↦ let (p, q, r) = pair_of-some _ _ cc t c in (inr (inr (p, q)), r)
          ]
        ]

  try_candidate-Matches :
      (name : String) (names : List String) (t : Triple)
      → contains names name ≡ true
      → try_candidate h name ≡ some t
      → Matches names t
  try_candidate-Matches name names t k e = elim (Option-cases (find h name none)) [
    | inl f ↦ ground (arith, f, e)
    | inr (cc, f) ↦ elim (Option-cases (major_of h cc)) [
      | inl m ↦ ground (arith, f, m, e)
      | inr (major, m) ↦
          let g : tools_for h cc major ≡ some t = ground (arith, f, m, e) in
          let (tools, same) = tools_for-HasTools cc major t g in
          (name, k, f ∙ ap some same, major, subst (λ c. major_of h c ≡ some major) same m, tools)
    ]
  ]

  detect-Matches :
      (names all : List String) (t : Triple)
      → ((name : String) → contains names name ≡ true → contains all name ≡ true)
      → detect h names ≡ some t
      → Matches all t
  detect-Matches [] all t i e = ground arith
  detect-Matches (name ∷ names) all t i e =
      let first : contains (name ∷ names) name ≡ true = ground (arith, ==-self name) in
      let later : (n : String) → contains names n ≡ true → contains all n ≡ true =
        λ n k. i n (ground (arith, k)) in
      elim (first_triple-some h (try_candidate h name) (detect h names) t e) [
        | inl c ↦ try_candidate-Matches name all t (i name first) c
        | inr r ↦ detect-Matches names all t later r
      ]

  -- A compiler is found under the name, tells its version, and has both tools for it in one of the
  -- three places.
  abbrev pub is_complete : String → Bool
  is_complete name = elim (find h name none) [
    | none ↦ false
    | some cc ↦ elim (major_of h cc) [
      | none ↦ false
      | some major ↦
          is_some (configured h cc major)
          || (is_some (colocated h cc major) || is_some (on_path h cc major))
    ]
  ]

  is_some-first_triple :
      (a b : Option Triple) → is_some (first_triple h a b) ≡ (is_some a || is_some b)
  is_some-first_triple none b = refl
  is_some-first_triple (some t) b = refl

  is_some-tools_for :
      (cc : String) (major : ℕ)
      → is_some (tools_for h cc major) ≡ (
          is_some (configured h cc major)
          || (is_some (colocated h cc major) || is_some (on_path h cc major)))
  unfolding tools_for
  is_some-tools_for cc major =
      is_some-first_triple (configured h cc major)
        (first_triple h (colocated h cc major) (on_path h cc major))
      ∙ ap (λ b. is_some (configured h cc major) || b)
          (is_some-first_triple (colocated h cc major) (on_path h cc major))

  is_some-try_candidate : (name : String) → is_some (try_candidate h name) ≡ is_complete name
  is_some-try_candidate name = elim (Option-cases (find h name none)) [
    | inl f ↦ ground (arith, f)
    | inr (cc, f) ↦ elim (Option-cases (major_of h cc)) [
      | inl m ↦ ground (arith, f, m)
      | inr (major, m) ↦ ground (arith, f, m, is_some-tools_for cc major)
    ]
  ]

  is_some-detect : (names : List String) → is_some (detect h names) ≡ any is_complete names
  is_some-detect [] = refl
  is_some-detect (name ∷ names) =
      is_some-first_triple (try_candidate h name) (detect h names)
      ∙ rw (is_some-try_candidate name, is_some-detect names) refl

  -- The compiler of a triple that `_detect_llvm_toolchain` returns is found under one of the
  -- candidate names and tells a version, and the two tools are those named for this version: both
  -- resolved in the section coverage, or both files beside the compiler, or both resolved without a
  -- section.
  pub detect_llvm_toolchain-Matches :
      (t : Triple) → detect_llvm_toolchain h ≡ some t → Matches candidates t
  unfolding detect_llvm_toolchain
  detect_llvm_toolchain-Matches t e = detect-Matches candidates candidates t (λ n k. k) e

  -- A triple is returned exactly if some compiler that is found under a candidate name tells its
  -- version and has both tools for that version in one of the three places.
  is_some-detect_llvm_toolchain : is_some (detect_llvm_toolchain h) ≡ any is_complete candidates
  unfolding detect_llvm_toolchain
  is_some-detect_llvm_toolchain = is_some-detect candidates
