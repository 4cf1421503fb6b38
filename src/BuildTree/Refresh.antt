-- ===== src/BuildTree/Refresh.antt =====
-- `AlternateBuildTree.ensure_build` of utils/build_tree.py: when the copy is made again.
use apatchy.Base.{
  Bool, true, false, not, ◌&&◌, ◌≡◌, refl, ◌⊎◌, inl, inr, Option, none, some, List, [], ◌∷◌,
  if◌then◌else◌, string_eq, arith, Bool-cases, subst, sym, ◌∙◌,
}
use apatchy.BuildTree.{
  Tree, Tools, Trees, TreeEvent, copied, removed, rewrite_paths, copy_of, needs_recreate,
  is_current, refresh, recreate,
}

module _ (k : Tools) where
  -- The disk after the copy was made again, behind other events.
  abbrev copy_behind : Tree → List TreeEvent → Trees
  copy_behind root more = record {
    root = root;
    alt = some (rewrite_paths k.root_path k.alt_path root);
    log = copied ∷ more;
  }

  -- Whether the tree is there, for its own path and with the hash of the configuration of the root.
  abbrev is_kept : Trees → Bool
  is_kept d = is_current k d && not (needs_recreate k d.alt)

  recheck :
      (root : Tree) (more : List TreeEvent)
      → let d = copy_behind root more in
        (after : List TreeEvent) × ((if is_current k d then d else recreate k d)
          ≡ copy_behind root after)
  recheck root more =
      let d = copy_behind root more in
      elim (Bool-cases (is_current k d)) [
        | inl e ↦ (more, rw e refl)
        | inr e ↦ (removed ∷ copied ∷ more, rw e refl)
      ]

  refresh-cases :
      (root : Tree) (alt : Option Tree) (log : List TreeEvent)
      → let d : Trees = record { root = root; alt = alt; log = log } in
        (more : List TreeEvent) × (refresh k d ≡ (if is_kept d then d else copy_behind root more))
  unfolding refresh
  refresh-cases root none log =
      let first = copy_behind root log in
      elim (Bool-cases (needs_recreate k first.alt)) [
        | inl e ↦ rw e (recheck root (removed ∷ copied ∷ log))
        | inr e ↦ rw e (recheck root log)
      ]
  refresh-cases root (some t) log =
      let d : Trees = record { root = root; alt = some t; log = log } in
      elim (Bool-cases (needs_recreate k (some t))) [
        | inl e ↦ let (more, f) = recheck root (removed ∷ log) in (more, ground (arith, e, f))
        | inr e ↦ elim (Bool-cases (is_current k d)) [
          | inl c ↦ ([], rw (e, c) refl)
          | inr c ↦ (removed ∷ log, rw (e, c) refl)
        ]
      ]

  pub refresh-copy_of :
      (d : Trees)
      → (more : List TreeEvent) × (refresh k d ≡ (
          if is_current k d && not (needs_recreate k d.alt)
          then d
          else record { root = d.root; alt = some (copy_of k d); log = copied ∷ more }))
  refresh-copy_of d = refresh-cases d.root d.alt d.log

  pub refresh-Kept :
      (d : Trees)
      → ((refresh k d ≡ d) × (is_current k d ≡ true) × (needs_recreate k d.alt ≡ false))
        ⊎ ((refresh k d).alt ≡ some (copy_of k d))
  refresh-Kept d =
      let (more, e) = refresh-copy_of d in
      let Copied : Trees → Type 0 = λ t. t.alt ≡ some (copy_of k d) in
      elim (Bool-cases (is_current k d)) [
        | inl c ↦ elim (Bool-cases (needs_recreate k d.alt)) [
          | inl n ↦ inr (subst Copied (sym e) (rw (c, n) refl))
          | inr n ↦ inl (e ∙ rw (c, n) refl, c, n)
        ]
        | inr c ↦ inr (subst Copied (sym e) (rw c refl))
      ]
