-- ===== src/Dispatch/Pipeline.antt =====
-- `_handle_configure`, `_handle_compile` and `_handle_link` of method_dispatcher.py, one after the
-- other.
use apatchy.Base.{
  String, Bool, true, false, ◌≡◌, refl, ◌∙◌, sym, Option, none, some, List, [], ◌∷◌, ◌++◌, ◌>>=◌,
  contains, if◌then◌else◌, string_eq, bind-eq-some, subst, or_default, All, All-append, All-map,
  ==-self, ap, When, When-bind, When-bind_eq, of_When,
}
use apatchy.Base.Dict.{lookup, lookup-insert}
use apatchy.Base.Text.{split, split_spaces}
use apatchy.Base.Words.{IsWord}
use apatchy.Flags.{Flags, Disk, Packaging, sanitizer_flags, generate_build_config}
use apatchy.Flags.Sanitizers.{Sanitizes, passed, twice, sanitizer_flags-Sanitizes}
use apatchy.Flags.Config.{Includes, Mentions, generate_build_config-Mentions}
use apatchy.BuildTree.{Tools, ensure_build}
use apatchy.Build.{Host, Root, configure_httpd, root_meta, compat_args, configure_command}
use apatchy.Build.Version.{extract_version_from_path}
use apatchy.Build.Meta.{BuildMeta, MetaFile, save, load, load-save}
use apatchy.Harness.{HarnessFlags, harness_flags}
use apatchy.Harness.Tags.{parse_config_vars}
use apatchy.Harness.Sanitizers.{Occurs, contains-IsStable, harness_flags-kept, propagate-kept}
use apatchy.Dispatch.{
  Branch, Workspace, CommandResult, done, refused, failed, of_option, Switches, manager_of,
  switches_of, mode_of, trees_of, branch_meta, build_branch, handle_configure, handle_compile,
  link_mode, handle_link,
}

-- The flags of the sanitizers that are switched on.
abbrev pub asked : Bool → String → List String
asked on flag = if on then flag ∷ [] else []

abbrev pub requested : Switches → List String
requested s =
    asked s.asan "-fsanitize=address"
    ++ (asked s.ubsan "-fsanitize=undefined"
        ++ (asked s.intsan "-fsanitize=unsigned-integer-overflow"
            ++ asked s.truncsan "-fsanitize=implicit-unsigned-integer-truncation"))

load-save_self : (m : BuildMeta) → load (some (save m)) ≡ some m
unfolding save
load-save_self m = load-save m [] refl

asked-All :
    (P : String → Type 0) (on : Bool) (flag : String) → (on ≡ true → P flag) → All P (asked on flag)
asked-All P true flag h = (h refl, tt)
asked-All P false flag h = tt

requested-Includes :
    (s : Switches) (f : Flags)
    → Sanitizes s.asan s.ubsan s.intsan s.truncsan f
    → All (λ flag. Includes flag f) (requested s)
requested-Includes s f (a, u, i, t) =
    let on : (flag : String) (b : Bool) → passed flag f ≡ twice b → b ≡ true → Includes flag f =
      λ flag b p q. (ap (λ x. x.0) p ∙ q, ap (λ x. x.1) p ∙ q) in
    let P : String → Type 0 = λ flag. Includes flag f in
    let addr = asked s.asan "-fsanitize=address" in
    let us = asked s.ubsan "-fsanitize=undefined" in
    let is = asked s.intsan "-fsanitize=unsigned-integer-overflow" in
    let ts = asked s.truncsan "-fsanitize=implicit-unsigned-integer-truncation" in
    All-append P addr (us ++ (is ++ ts)) (asked-All P s.asan _ (on _ s.asan a)) (
      All-append P us (is ++ ts) (asked-All P s.ubsan _ (on _ s.ubsan u)) (
        All-append P is ts (asked-All P s.intsan _ (on _ s.intsan i))
          (asked-All P s.truncsan _ (on _ s.truncsan t))))

All-map2 :
    (P Q R : String → Type 0)
    → ((a : String) → P a → Q a → R a)
    → (xs : List String) → All P xs
    → All Q xs
    → All R xs
All-map2 P Q R f [] ps qs = tt
All-map2 P Q R f (x ∷ xs) (p, ps) (q, qs) = (f x p q, All-map2 P Q R f xs ps qs)

-- The flags of the sanitizers are single words.
requested-IsWord : (s : Switches) → All IsWord (requested s)
unfolding split split_spaces
requested-IsWord s =
    let as' = asked s.asan "-fsanitize=address" in
    let us = asked s.ubsan "-fsanitize=undefined" in
    let is = asked s.intsan "-fsanitize=unsigned-integer-overflow" in
    let ts = asked s.truncsan "-fsanitize=implicit-unsigned-integer-truncation" in
    All-append IsWord as' (us ++ (is ++ ts)) (asked-All IsWord s.asan _ (λ _. refl)) (
      All-append IsWord us (is ++ ts) (asked-All IsWord s.ubsan _ (λ _. refl)) (
        All-append IsWord is ts (asked-All IsWord s.intsan _ (λ _. refl))
          (asked-All IsWord s.truncsan _ (λ _. refl))))

-- The generated flags mention the flag of each sanitizer that is switched on.
pub requested-Mentions :
    (d : Disk) (p : Packaging) (mode : String) (s : Switches) (version : Option String)
    (config : String × String × Option String)
    → generate_build_config d p (manager_of mode s) version ≡ some config
    → All (λ flag. Mentions flag (config.0, config.1, none)) (requested s)
requested-Mentions d p mode s version config e =
    let c = manager_of mode s in
    All-map2 IsWord (λ flag. Includes flag (sanitizer_flags d c))
      (λ flag. Mentions flag (config.0, config.1, none))
      (λ flag w i. generate_build_config-Mentions d p flag c version config w i e) (requested s)
      (requested-IsWord s)
      (requested-Includes s (sanitizer_flags d c) (sanitizer_flags-Sanitizes d c))

-- A root holds the metadata with the switches.
abbrev Saved : Switches → Option MetaFile → Type 0
Saved s file = (m : BuildMeta) × (file ≡ some (save m)) × (switches_of m ≡ s)

module _ (h : Host) (tools : String → Tools) where
  configure_httpd-Saved :
      (k : Tools) (name : String) (s : Switches) (extra : List String) (root : Root)
      → When
          (λ (r : Root). Saved s r.meta)
          (configure_httpd h k name (manager_of "vanilla" s) extra root)
  unfolding configure_httpd root_meta
  configure_httpd-Saved k name s extra root =
      let P : Root → Type 0 = λ r. Saved s r.meta in
      let version = extract_version_from_path name in
      let c = manager_of "vanilla" s in
      When-bind P (generate_build_config h.disk h.packaging c version) _ (λ config.
        When-bind P (compat_args h version) _ (λ compat.
          When-bind P
            (h.configure (configure_command h c compat config.2 config.0 config.1 extra) root.files)
            _ (λ files. (root_meta h k c config.2 config.0 config.1 version files, refl, refl))))

  handle_configure-Saved :
      (s : Switches) (w w1 : Workspace)
      → handle_configure h tools s w ≡ some w1
      → Saved s w1.root.meta
  unfolding handle_configure
  handle_configure-Saved s w w1 e =
      let finish : Root → Option Workspace =
        λ root. some (record { name = w.name; root = root; branches = w.branches; log = w.log }) in
      let (root, made, e1) =
        bind-eq-some (configure_httpd h (tools "") w.name (manager_of "vanilla" s) [] w.root) finish
          e in
      let saved =
        of_When (λ (r : Root). Saved s r.meta) _ root made
          (configure_httpd-Saved (tools "") w.name s [] w.root) in
      of_When (λ (v : Workspace). Saved s v.root.meta) (finish root) w1 e1 saved

  -- The branch that a build leaves: its metadata mentions what was asked for.
  abbrev HasBranch : String → Switches → Workspace → Type 0
  HasBranch tree s w =
      (b : Branch) × (m : BuildMeta) × (lookup tree w.branches ≡ some b)
      × (b.meta ≡ some (save m))
      × All (λ flag. Mentions flag (m.cflags, m.ldflags, none)) (requested s)

  build_branch-HasBranch :
      (tree : String) (m : BuildMeta) (w : Workspace)
      → When (HasBranch tree (switches_of m)) (build_branch h tools tree m w)
  unfolding build_branch
  build_branch-HasBranch tree m w =
      let P : Workspace → Type 0 = HasBranch tree (switches_of m) in
      let cc = or_default h.disk.clang "clang" in
      When-bind P (mode_of tree) _ (λ mode.
        let c = manager_of mode (switches_of m) in
        When-bind_eq P (generate_build_config h.disk h.packaging c (some m.httpd_version)) _
          (λ config e.
            When-bind P (ensure_build (tools tree) cc config.0 config.1 (trees_of h tools tree w)) _
              (λ built. When-bind P built.alt _ (λ files.
                let b : Branch = record {
                  files = files;
                  meta = some (save (branch_meta h tools tree cc config.0 config.1 m));
                } in
                (
                  b,
                  branch_meta h tools tree cc config.0 config.1 m,
                  lookup-insert tree tree b w.branches ∙ rw (==-self tree) refl,
                  refl,
                  requested-Mentions h.disk h.packaging mode (switches_of m) (some m.httpd_version)
                      config e,
                )))))

  abbrev WhenDone : CommandResult Workspace → (Workspace → Type 0) → Type 0
  WhenDone (done w) P = P w
  WhenDone refused P = Unit
  WhenDone failed P = Unit

  of_option-Done :
      (o : Option Workspace) (P : Workspace → Type 0) → When P o → WhenDone (of_option o) P
  of_option-Done none P h = tt
  of_option-Done (some w) P h = h

  handle_compile-HasBranch :
      (tree : String) (s : Switches) (w w2 : Workspace)
      → Saved s w.root.meta
      → handle_compile h tools tree w ≡ done w2
      → HasBranch tree s w2
  unfolding handle_compile
  handle_compile-HasBranch tree s w w2 (m, e, same) d =
      let P : Workspace → Type 0 = HasBranch tree (switches_of m) in
      let step : handle_compile h tools tree w ≡ of_option (build_branch h tools tree m w) =
        ap
          (λ (o : Option MetaFile). elim o as (λ _. CommandResult Workspace) [
            | none ↦ refused
            | some file ↦ of_option (load (some file) >>= λ m'. build_branch h tools tree m' w)
          ])
          e
        ∙ ap (λ (o : Option BuildMeta). of_option (o >>= λ m'. build_branch h tools tree m' w))
            (load-save_self m) in
      subst (λ t. HasBranch tree t w2) same
        (subst (λ o. WhenDone o P) (sym step ∙ d)
          (of_option-Done (build_branch h tools tree m w) P (build_branch-HasBranch tree m w)))

  handle_link-Occurs :
      (tree harness_dir : String) (extra : Option String) (s : Switches) (w : Workspace)
      → HasBranch tree s w
      → (f : HarnessFlags) × (handle_link h tools tree harness_dir extra w ≡ done f)
        × All (λ flag. Occurs flag f) (requested s)
  unfolding handle_link
  handle_link-Occurs tree harness_dir extra s w (b, m, found, meta, mentions) =
      let config_vars = parse_config_vars (lookup "build/config_vars.mk" b.files) in
      let given : HarnessFlags = record { cflags = m.cflags; ldflags = m.ldflags } in
      let f = harness_flags (link_mode h tools tree) harness_dir extra config_vars given in
      (
        f,
        rw (handle_link, found, meta, load-save_self m) refl,
        All-map (λ flag. Mentions flag (m.cflags, m.ldflags, none)) (λ flag. Occurs flag f)
            (λ flag o.
              let P : String → Type 0 = λ flags. contains (split flags) flag ≡ true in
              let stable = contains-IsStable flag in
              harness_flags-kept P stable (link_mode h tools tree) harness_dir extra config_vars
                given (propagate-kept P stable config_vars given o))
            (requested s) mentions,
      )

  -- If `configure` ends with some sanitizers switched on and `make` then ends for a branch, `link`
  -- finds the branch and its metadata, and the flag of each of these sanitizers is one of the words
  -- of the flags that a C harness is compiled with and one of those that it is linked with.
  pub configure-compile-link :
      (s : Switches) (tree harness_dir : String) (extra : Option String) (w w1 w2 : Workspace)
      → handle_configure h tools s w ≡ some w1
      → handle_compile h tools tree w1 ≡ done w2
      → (f : HarnessFlags) × (handle_link h tools tree harness_dir extra w2 ≡ done f)
        × All (λ flag. Occurs flag f) (requested s)
  configure-compile-link s tree harness_dir extra w w1 w2 c d =
      handle_link-Occurs tree harness_dir extra s w2
        (handle_compile-HasBranch tree s w1 w2 (handle_configure-Saved s w w1 c) d)
