-- ===== src/Dispatch/Kept.antt =====
-- `_handle_clean` of method_dispatcher.py: what no clean removes.
use apatchy.Base.{
  String, Bool, true, false, ◌≡◌, refl, ◌∙◌, Option, none, some, List, [], ◌∷◌, if◌then◌else◌, ◌==◌,
  string_eq, is_some, any, arith, sym, subst, Bool-cases, Option-cases, inl, inr, eq_of_==,
}
use apatchy.Base.Text.{starts_with, ends_with, strip, lower}
use apatchy.Downloader.{Parts, below}
use apatchy.Bugs.{BugsDir, BugInfo, Bug, get_bug_instance}
use apatchy.Dispatch.Clean.{
  Paths, is_artifact, is_state, is_target, targets, remove_each, clean_bug, clean_bugs,
  confirm_clean, handle_clean, has_path, has_path-remove_path, has_path-remove_each,
}

-- No target is the path or a directory above it.
abbrev IsSafe : Bool → Parts → Type 0
IsSafe all p = (t : Parts) (d : Bool) → is_some (below t p) ≡ true → is_target all t d ≡ false

any-targets :
    (all : Bool) (p : Parts) (paths : Paths)
    → IsSafe all p
    → any (λ t. is_some (below t p)) (targets all paths) ≡ false
any-targets all p [] h = refl
any-targets all p ((q, d) ∷ paths) h = elim (Bool-cases (is_some (below q p))) [
  | inl e ↦ rw (h q d e) (any-targets all p paths h)
  | inr e ↦ ground (arith, e, any-targets all p paths h)
]

-- A path that is not below bugs/.
abbrev Outside : Parts → Type 0
Outside p = (dir : String) → is_some (below ("bugs" ∷ dir ∷ "seeds" ∷ []) p) ≡ false

has_path-clean_bugs :
    (p : Parts) (dirs : BugsDir) (infos : List BugInfo) (paths : Paths)
    → Outside p
    → has_path p (clean_bugs dirs infos paths).0 ≡ has_path p paths
unfolding clean_bugs
has_path-clean_bugs p dirs [] paths h = refl
has_path-clean_bugs p dirs (info ∷ infos) paths h =
    let Kept : Option Bug → Type 0 = λ o.
      has_path p
        (elim o as (λ _. Paths × Bool) [
          | none ↦ (paths, false)
          | some bug ↦ clean_bugs dirs infos (clean_bug bug paths)
        ]).0
      ≡ has_path p paths in
    elim (Option-cases (get_bug_instance info.id dirs)) [
      | inl e ↦ subst Kept (sym e) refl
      | inr (b, e) ↦ subst Kept (sym e) (
          has_path-clean_bugs p dirs infos (clean_bug b paths) h
          ∙ has_path-remove_path ("bugs" ∷ b.dir ∷ "seeds" ∷ []) p paths (h b.dir))
    ]

has_path-confirm_clean :
    (answer : String) (p : Parts) (dirs : BugsDir) (infos : List BugInfo) (ts : List Parts)
    (paths : Paths)
    → Outside p
    → any (λ t. is_some (below t p)) ts ≡ false
    → has_path p (confirm_clean answer dirs infos ts paths).0 ≡ has_path p paths
has_path-confirm_clean answer p dirs infos [] paths o h = refl
has_path-confirm_clean answer p dirs infos (t ∷ ts) paths o h =
    elim (Bool-cases (lower (strip answer) == "y")) [
      | inr e ↦ rw e refl
      | inl e ↦ rw e (
          has_path-clean_bugs p dirs infos (remove_each (t ∷ ts) paths) o
          ∙ has_path-remove_each (t ∷ ts) p paths h)
    ]

has_path-handle_clean :
    (all : Bool) (answer : String) (p : Parts) (dirs : BugsDir) (infos : List BugInfo)
    (paths : Paths)
    → IsSafe all p
    → Outside p
    → has_path p (handle_clean all answer dirs infos paths).0 ≡ has_path p paths
unfolding handle_clean
has_path-handle_clean all answer p dirs infos paths s o =
    has_path-confirm_clean answer p dirs infos (targets all paths) paths o
      (any-targets all p paths s)

-- The names of the directories and of the files that are kept are in no pattern.
conf_kept :
    (all d : Bool)
    → (is_target all ("conf" ∷ []) d ≡ false)
      × (is_target all ("conf" ∷ "mime.types" ∷ []) d ≡ false)
unfolding is_artifact is_state starts_with ends_with string_eq
conf_kept true true = (refl, refl)
conf_kept true false = (refl, refl)
conf_kept false true = (refl, refl)
conf_kept false false = (refl, refl)

toolchain_kept :
    (d : Bool) (name : String)
    → (is_target false ("toolchain" ∷ []) d ≡ false)
      × (is_target false ("toolchain" ∷ name ∷ []) d ≡ false)
      × (is_target false ("toolchain.config" ∷ []) d ≡ false)
unfolding is_artifact starts_with ends_with string_eq
toolchain_kept d name = (refl, refl, refl)

other_dirs :
    ((◌==◌ {A = String} "bugs" "conf") ≡ false)
    × ((◌==◌ {A = String} "bugs" "toolchain") ≡ false)
    × ((◌==◌ {A = String} "bugs" "toolchain.config") ≡ false)
unfolding string_eq
other_dirs = (refl, refl, refl)

empty_safe : (all d : Bool) → is_target all [] d ≡ false
unfolding is_artifact is_state
empty_safe true d = refl
empty_safe false d = refl

deep_safe : (all d : Bool) (a b c : String) (q : Parts) → is_target all (a ∷ b ∷ c ∷ q) d ≡ false
unfolding is_artifact is_state
deep_safe true d a b c q = refl
deep_safe false d a b c q = refl

mime_types-IsSafe : (all : Bool) → IsSafe all ("conf" ∷ "mime.types" ∷ [])
unfolding below
mime_types-IsSafe all [] d h = empty_safe all d
mime_types-IsSafe all (a ∷ []) d h =
    let e = eq_of_== a "conf" (ground (arith, h)) in
    subst (λ x. is_target all (x ∷ []) d ≡ false) (sym e) (conf_kept all d).0
mime_types-IsSafe all (a ∷ b ∷ []) d h =
    let e = eq_of_== a "conf" (ground (arith, h)) in
    let f = eq_of_== b "mime.types" (ground (arith, h)) in
    subst (λ x. is_target all (x ∷ b ∷ []) d ≡ false) (sym e)
      (subst (λ y. is_target all ("conf" ∷ y ∷ []) d ≡ false) (sym f) (conf_kept all d).1)
mime_types-IsSafe all (a ∷ b ∷ c ∷ q) d h = deep_safe all d a b c q

toolchain-IsSafe : (q : Parts) → IsSafe false ("toolchain" ∷ q)
unfolding below
toolchain-IsSafe q [] d h = empty_safe false d
toolchain-IsSafe q (a ∷ []) d h =
    let e = eq_of_== a "toolchain" (ground (arith, h)) in
    subst (λ x. is_target false (x ∷ []) d ≡ false) (sym e) (toolchain_kept d "").0
toolchain-IsSafe q (a ∷ b ∷ []) d h =
    let e = eq_of_== a "toolchain" (ground (arith, h)) in
    subst (λ x. is_target false (x ∷ b ∷ []) d ≡ false) (sym e) (toolchain_kept d b).1
toolchain-IsSafe q (a ∷ b ∷ c ∷ t) d h = deep_safe false d a b c t

outside : (a : String) (q : Parts) → ("bugs" == a) ≡ false → Outside (a ∷ q)
unfolding below
outside a q h dir = rw h refl

confirm_clean-if :
    (answer : String) (dirs : BugsDir) (infos : List BugInfo) (ts : List Parts) (paths : Paths)
    → confirm_clean answer dirs infos ts paths ≡ (
        if lower (strip answer) == "y"
        then confirm_clean "y" dirs infos ts paths
        else (paths, true))
unfolding strip lower string_eq
confirm_clean-if answer dirs infos [] paths = elim (Bool-cases (lower (strip answer) == "y")) [
  | inl e ↦ rw e refl
  | inr e ↦ rw e refl
]
confirm_clean-if answer dirs infos (t ∷ ts) paths = refl

-- Whatever is answered and whichever bugs are cleaned: conf/mime.types is there after a clean exactly
-- if it was there before; without `--all` this also holds of every path in the directory toolchain.
-- An answer that is y, case and white space aside, does what y does, and any other changes nothing.
pub handle_clean-Kept :
    (all : Bool) (answer : String) (dirs : BugsDir) (infos : List BugInfo) (paths : Paths)
    → (has_path ("conf" ∷ "mime.types" ∷ []) (handle_clean all answer dirs infos paths).0
        ≡ has_path ("conf" ∷ "mime.types" ∷ []) paths)
      × ((q : Parts)
          → has_path ("toolchain" ∷ q) (handle_clean false answer dirs infos paths).0
            ≡ has_path ("toolchain" ∷ q) paths)
      × (handle_clean all answer dirs infos paths ≡ (
          if lower (strip answer) == "y"
          then handle_clean all "y" dirs infos paths
          else (paths, true)))
unfolding handle_clean
handle_clean-Kept all answer dirs infos paths = (
  has_path-handle_clean all answer ("conf" ∷ "mime.types" ∷ []) dirs infos paths
      (mime_types-IsSafe all) (outside "conf" ("mime.types" ∷ []) (other_dirs.0)),
  λ q.
      has_path-handle_clean false answer ("toolchain" ∷ q) dirs infos paths (toolchain-IsSafe q)
        (outside "toolchain" q (other_dirs.1)),
  confirm_clean-if answer dirs infos (targets all paths) paths,
)
