-- ===== src/BuildTree.antt =====
-- framework/src/apatchy/utils/build_tree.py: `AlternateBuildTree`, a copy of the Apache tree that is
-- built with other flags. A tree is its readable files by their paths from its root.
-- Parameters: the paths of the two trees, `make`, and SHA-256.
pub mod Text
pub mod Refresh
pub mod Ensure
mod Tests
use apatchy.Base.{
  String, ◌<>◌, Bool, true, false, not, ◌&&◌, ◌||◌, Option, none, some, List, [], ◌∷◌, ◌++◌,
  if◌then◌else◌, ◌==◌, string_eq, ◌>>=◌, is_some, map, contains,
}
use apatchy.Base.Dict.{Dict, lookup, insert}
use apatchy.Base.Text.{starts_with, ends_with, split_on, strip, has_text}
use apatchy.BuildTree.Text.{replace, sub_assign, sub_cflags, sub_quoted}

abbrev pub Tree : Type 0
Tree = Dict String String

-- The paths of `httpd_root` and `alt_root`, the digest, and the tree after `make` with some arguments;
-- `none` is its `CalledProcessError`.
pub record Tools : Type 0 where
  pub root_path : String
  pub alt_path : String
  pub sha256 : String → String
  pub make : List String → Tree → Option Tree

abbrev last_part : List String → String
last_part [] = ""
last_part (part ∷ []) = part
last_part (part ∷ next ∷ parts) = last_part (next ∷ parts)

-- The last part of a path.
unfoldable pub name_of : String → String
name_of path = last_part (split_on 47 path)

-- The patterns of `rewrite_paths`.
unfoldable pub is_build_file : String → Bool
is_build_file name =
    contains ("Makefile" ∷ "config.status" ∷ "config.nice" ∷ "config.log" ∷ "libtool" ∷ []) name
    || (ends_with name ".mk" || ends_with name ".la")

-- What a function on names and texts makes of each file.
abbrev pub map_files : (String → String → String) → Tree → Tree
map_files f [] = []
map_files f ((path, text) ∷ files) = (path, f (name_of path) text) ∷ map_files f files

unfoldable pub rewrite_paths : String → String → Tree → Tree
rewrite_paths old_prefix new_prefix tree =
    map_files (λ name text. if is_build_file name then replace old_prefix new_prefix text else text)
      tree

-- The three kinds of files that `patch_build_flags` changes.
unfoldable pub patch_libtool : String → String → String → String
patch_libtool cc cflags text =
    sub_quoted "LTCFLAGS=" cflags (sub_quoted "LTCC=" cc (sub_quoted "CC=" cc text))

unfoldable pub patch_mk : String → String → String → String → String
patch_mk cc cflags ldflags text = sub_cflags "EXTRA_CFLAGS" "" (
    sub_cflags "NOTEST_CFLAGS" "" (
      sub_cflags "LDFLAGS" ldflags
        (sub_cflags "CFLAGS" cflags (sub_assign "CPP" (cc <> " -E") (sub_assign "CC" cc text)))))

unfoldable pub patch_build_flags : String → String → String → Tree → Tree
patch_build_flags cc cflags ldflags tree =
    map_files
      (λ name text.
        if name == "libtool"
        then patch_libtool cc cflags text
        else if ends_with name ".mk"
        then patch_mk cc cflags ldflags text
        else if name == "Makefile"
        then sub_assign "CPP" (cc <> " -E") text
        else text)
      tree

pub data TreeEvent : Type 0 where
  copied : TreeEvent
  removed : TreeEvent
  made : TreeEvent

-- The two trees, the second one if it exists, and what was done to it, the last thing first.
pub record Trees : Type 0 where
  pub root : Tree
  pub alt : Option Tree
  pub log : List TreeEvent

module _ (k : Tools) where
  -- The first line of config.status that holds the configuration.
  abbrev pub hash_of : List String → String
  hash_of [] = ""
  hash_of (line ∷ lines) =
      let rest = hash_of lines in if starts_with line "ac_cs_config=" then k.sha256 line else rest

  unfoldable pub config_hash : Tree → String
  config_hash tree = elim (lookup "config.status" tree) [
    | none ↦ ""
    | some text ↦ hash_of (split_on 10 text)
  ]

  abbrev pub copy_of : Trees → Tree
  copy_of d = rewrite_paths k.root_path k.alt_path d.root

  -- `_ensure_tree`
  abbrev pub ensure_tree : Trees → Trees
  ensure_tree d = elim d.alt [
    | none ↦ record { root = d.root; alt = some (copy_of d); log = copied ∷ d.log }
    | some tree ↦ d
  ]

  -- `_needs_recreate`
  unfoldable pub needs_recreate : Option Tree → Bool
  needs_recreate none = false
  needs_recreate (some tree) = elim (lookup "Makefile" tree) [
    | none ↦ false
    | some text ↦ not (has_text k.alt_path text)
  ]

  -- `shutil.rmtree(self.alt_root)` and `self._ensure_tree()`
  abbrev pub recreate : Trees → Trees
  recreate d = ensure_tree (record { root = d.root; alt = none; log = removed ∷ d.log })

  abbrev pub saved_hash : Option Tree → Option String
  saved_hash none = none
  saved_hash (some tree) = lookup ".config_hash" tree

  -- The staleness test: a tree without its hash, or with another one, is made again.
  abbrev pub is_current : Trees → Bool
  is_current d = elim (saved_hash d.alt) [
    | none ↦ false
    | some saved ↦ strip saved == config_hash d.root
  ]

  abbrev pub is_built : Option Tree → Bool
  is_built none = false
  is_built (some tree) =
      is_some (lookup "server/libmain.la" tree) && is_some (lookup ".config_hash" tree)

  -- The three steps before the fast path.
  unfoldable pub refresh : Trees → Trees
  refresh d =
      let first = ensure_tree d in
      let second = if needs_recreate first.alt then recreate first else first in
      if is_current second then second else recreate second

  module _ (cc cflags ldflags : String) where
    -- The patched tree, cleaned and made, with its hash; `none` where `make` fails.
    unfoldable pub build_tree : Tree → String → Option Tree
    build_tree tree hash =
        k.make ("clean" ∷ []) (patch_build_flags cc cflags ldflags tree) >>= λ clean.
        k.make (("CC=" <> cc) ∷ ("CFLAGS=" <> cflags) ∷ []) clean >>= λ built.
        some (insert ".config_hash" hash built)

    abbrev pub build : Trees → Option Trees
    build d = elim d.alt [
      | none ↦ none
      | some tree ↦ build_tree tree (config_hash d.root) >>= λ t.
          some (record { root = d.root; alt = some t; log = made ∷ d.log })
    ]

    -- `none` where `make` fails
    unfoldable pub ensure_build : Trees → Option Trees
    ensure_build d = let ready = refresh d in if is_built ready.alt then some ready else build ready
