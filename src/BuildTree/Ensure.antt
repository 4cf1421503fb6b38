-- ===== src/BuildTree/Ensure.antt =====
-- `AlternateBuildTree.ensure_build` of utils/build_tree.py: when the copy is built again.
use apatchy.Base.{
  String, ◌<>◌, true, false, ◌≡◌, refl, inl, inr, Option, none, some, List, [], ◌∷◌, if◌then◌else◌,
  ◌==◌, string_eq, ◌>>=◌, is_some, arith, Option-cases, Bool-cases, ==-self, bind-eq-some, subst,
}
use apatchy.Base.Dict.{lookup, insert, lookup-insert}
use apatchy.Base.Text.{strip, split_on}
use apatchy.BuildTree.Text.{replace}
use apatchy.BuildTree.{
  Tree, Tools, Trees, TreeEvent, copied, removed, made, map_files, rewrite_paths, config_hash,
  hash_of, copy_of, needs_recreate, is_current, is_built, refresh, build_tree, build, ensure_build,
  is_build_file, patch_build_flags,
}
use apatchy.BuildTree.Refresh.{refresh-Kept}

lookup-map_files :
    (f : String → String → String) (path : String) (tree : Tree)
    → lookup path tree ≡ none
    → lookup path (map_files f tree) ≡ none
lookup-map_files f path [] h = refl
lookup-map_files f path ((p, text) ∷ tree) h = ground (arith, lookup-map_files f path tree)

module _ (k : Tools) where
  strip-hash_of :
      (lines : List String)
      → ((s : String) → strip (k.sha256 s) ≡ k.sha256 s)
      → strip (hash_of k lines) ≡ hash_of k lines
  unfolding strip
  strip-hash_of [] h = refl
  strip-hash_of (line ∷ lines) h = ground (arith, strip-hash_of lines h, h line)

  strip-config_hash :
      (tree : Tree)
      → ((s : String) → strip (k.sha256 s) ≡ k.sha256 s)
      → strip (config_hash k tree) ≡ config_hash k tree
  unfolding config_hash strip
  strip-config_hash tree h = elim (Option-cases (lookup "config.status" tree)) [
    | inl e ↦ rw (config_hash, e) refl
    | inr (t, e) ↦ rw (config_hash, e) (strip-hash_of (split_on 10 t) h)
  ]

  refresh-root : (d : Trees) → (refresh k d).root ≡ d.root
  unfolding refresh
  refresh-root d = ground arith

  copy_of-no_hash :
      (d : Trees) → lookup ".config_hash" d.root ≡ none → lookup ".config_hash" (copy_of k d) ≡ none
  unfolding rewrite_paths
  copy_of-no_hash d h =
      lookup-map_files
        (λ name text. if is_build_file name then replace k.root_path k.alt_path text else text)
        ".config_hash" d.root h

  is_built-no_hash : (t : Tree) → lookup ".config_hash" t ≡ none → is_built k (some t) ≡ false
  is_built-no_hash t h = ground arith

  -- A disk that needs neither a copy nor a build.
  abbrev pub Ready : Trees → Type 0
  Ready d = (is_built k d.alt ≡ true) × (is_current k d ≡ true) × (needs_recreate k d.alt ≡ false)

  refresh-Ready_go :
      (root : Tree) (alt : Option Tree) (log : List TreeEvent)
      → let d : Trees = record { root = root; alt = alt; log = log } in Ready d → refresh k d ≡ d
  unfolding refresh
  refresh-Ready_go root none log (b, c, n) = ground arith
  refresh-Ready_go root (some t) log (b, c, n) = ground arith

  ensure_build-Ready :
      (cc cflags ldflags : String) (d : Trees)
      → Ready d
      → ensure_build k cc cflags ldflags d ≡ some d
  unfolding ensure_build
  ensure_build-Ready cc cflags ldflags d (b, c, n) =
      let e : refresh k d ≡ d = refresh-Ready_go d.root d.alt d.log (b, c, n) in rw e (rw b refl)

  -- What a `make` that succeeds leaves behind: the server's library, and a Makefile that is still
  -- for the tree.
  abbrev pub Makes : Type 0
  Makes =
      (cc cflags : String) (t u : Tree)
      → k.make (("CC=" <> cc) ∷ ("CFLAGS=" <> cflags) ∷ []) t ≡ some u
      → (is_some (lookup "server/libmain.la" u) ≡ true) × (needs_recreate k (some u) ≡ false)

  other_files :
      ((◌==◌ {A = String} "server/libmain.la" ".config_hash") ≡ false)
      × ((◌==◌ {A = String} "Makefile" ".config_hash") ≡ false)
  unfolding string_eq
  other_files = (refl, refl)

  insert-Ready :
      (hash : String) (built root : Tree) (log : List TreeEvent)
      → strip hash ≡ hash
      → config_hash k root ≡ hash
      → is_some (lookup "server/libmain.la" built) ≡ true
      → needs_recreate k (some built) ≡ false
      → Ready (record { root = root; alt = some (insert ".config_hash" hash built); log = log })
  unfolding needs_recreate
  insert-Ready hash built root log s e m n =
      let main = lookup-insert "server/libmain.la" ".config_hash" hash built in
      let file = lookup-insert "Makefile" ".config_hash" hash built in
      let own = lookup-insert ".config_hash" ".config_hash" hash built in
      let found : lookup ".config_hash" (insert ".config_hash" hash built) ≡ some hash =
        ground (arith, own, ==-self {A = String} ".config_hash") in
      let kept : lookup "server/libmain.la" (insert ".config_hash" hash built)
          ≡ lookup "server/libmain.la" built =
        ground (arith, main, other_files) in
      let same : lookup "Makefile" (insert ".config_hash" hash built) ≡ lookup "Makefile" built =
        ground (arith, file, other_files) in
      (
        rw (kept, found) (rw m refl),
        rw (is_current, found) (rw (s, e) (==-self hash)),
        rw (needs_recreate, same) n,
      )

  build_tree-Ready :
      (cc cflags ldflags hash : String) (t u root : Tree) (log : List TreeEvent)
      → Makes
      → strip hash ≡ hash
      → config_hash k root ≡ hash
      → build_tree k cc cflags ldflags t hash ≡ some u
      → Ready (record { root = root; alt = some u; log = log })
  unfolding build_tree
  build_tree-Ready cc cflags ldflags hash t u root log m s e b =
      let finish : Tree → Option Tree = λ built. some (insert ".config_hash" hash built) in
      let compile : Tree → Option Tree =
        λ clean. k.make (("CC=" <> cc) ∷ ("CFLAGS=" <> cflags) ∷ []) clean >>= finish in
      let (clean, _, b1) =
        bind-eq-some (k.make ("clean" ∷ []) (patch_build_flags cc cflags ldflags t)) compile b in
      let (built, done, b2) =
        bind-eq-some (k.make (("CC=" <> cc) ∷ ("CFLAGS=" <> cflags) ∷ []) clean) finish b1 in
      let (main, path) = m cc cflags clean built done in
      subst
        (λ (o : Option Tree). elim o [
          | none ↦ Unit
          | some v ↦ Ready (record { root = root; alt = some v; log = log })
        ])
        b2 (insert-Ready hash built root log s e main path)

  abbrev WhenReady : Option Trees → Type 0
  WhenReady none = Unit
  WhenReady (some e) = Ready e

  build-Ready :
      (cc cflags ldflags : String) (root : Tree) (alt : Option Tree) (log : List TreeEvent)
      (e : Trees)
      → Makes
      → ((s : String) → strip (k.sha256 s) ≡ k.sha256 s)
      → build k cc cflags ldflags (record { root = root; alt = alt; log = log }) ≡ some e
      → Ready e
  build-Ready cc cflags ldflags root none log e m s b = ground arith
  build-Ready cc cflags ldflags root (some t) log e m s b =
      let hash = config_hash k root in
      let finish : Tree → Option Trees =
        λ u. some (record { root = root; alt = some u; log = made ∷ log }) in
      let (u, done, b1) = bind-eq-some (build_tree k cc cflags ldflags t hash) finish b in
      subst WhenReady b1 (
        build_tree-Ready cc cflags ldflags hash t u root (made ∷ log) m (strip-config_hash root s)
          refl done)

  refresh-Ready :
      (d : Trees)
      → lookup ".config_hash" d.root ≡ none
      → is_built k (refresh k d).alt ≡ true
      → Ready (refresh k d)
  refresh-Ready d h b = elim (refresh-Kept k d) [
    | inl (e, c, n) ↦ (b, rw e c, rw e n)
    | inr e ↦ ground (arith, e, copy_of-no_hash d h, is_built-no_hash (copy_of k d))
  ]

  ensure_build-MakesReady :
      (cc cflags ldflags : String) (d e : Trees)
      → Makes
      → ((s : String) → strip (k.sha256 s) ≡ k.sha256 s)
      → lookup ".config_hash" d.root ≡ none
      → ensure_build k cc cflags ldflags d ≡ some e
      → Ready e
  unfolding ensure_build
  ensure_build-MakesReady cc cflags ldflags d e m s h b =
      let r = refresh k d in
      elim (Bool-cases (is_built k r.alt)) [
        | inl f ↦
            subst WhenReady
              (subst (λ v. (if v then some r else build k cc cflags ldflags r) ≡ some e) f b)
              (refresh-Ready d h f)
        | inr f ↦
            build-Ready cc cflags ldflags r.root r.alt r.log e m s
              (subst (λ v. (if v then some r else build k cc cflags ldflags r) ≡ some e) f b)
      ]

  -- If the root has no hash file, a digest no white space, and a `make` that succeeds leaves the
  -- server's library and a Makefile for the copy: after a build that succeeds, a second one, with
  -- any flags, succeeds and does nothing.
  pub ensure_build_idem :
      (cc cflags ldflags cc' cflags' ldflags' : String) (d e : Trees)
      → Makes
      → ((s : String) → strip (k.sha256 s) ≡ k.sha256 s)
      → lookup ".config_hash" d.root ≡ none
      → ensure_build k cc cflags ldflags d ≡ some e
      → ensure_build k cc' cflags' ldflags' e ≡ some e
  ensure_build_idem cc cflags ldflags cc' cflags' ldflags' d e m s h b =
      ensure_build-Ready cc' cflags' ldflags' e
        (ensure_build-MakesReady cc cflags ldflags d e m s h b)

  -- The first build of a root without a hash file copies the root twice, where the copy's Makefile
  -- is for the copy.
  refresh-twice :
      (root : Tree) (log : List TreeEvent)
      → let d : Trees = record { root = root; alt = none; log = log } in
        lookup ".config_hash" root ≡ none
        → needs_recreate k (some (copy_of k d)) ≡ false
        → (refresh k d).log ≡ copied ∷ removed ∷ copied ∷ log
  unfolding refresh
  refresh-twice root log h n =
      let d : Trees = record { root = root; alt = none; log = log } in
      ground (arith, copy_of-no_hash d h)
