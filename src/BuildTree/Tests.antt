-- ===== src/BuildTree/Tests.antt =====
-- Concrete trees and build files, and the theorems at concrete inputs.
use apatchy.Base.{
  String, true, false, ◌≡◌, refl, Option, some, none, [], ◌∷◌, ◌==◌, string_eq, ==-self, subst,
  is_some, ◌∙◌,
}
use apatchy.Base.Dict.{lookup, insert, lookup-insert}
use apatchy.Base.Text.{strip, starts_with, ends_with, split_on, has_text}
use apatchy.BuildTree.{
  Tree, Tools, Trees, copied, removed, made, rewrite_paths, is_build_file, name_of, patch_mk,
  patch_libtool, patch_build_flags, config_hash, needs_recreate, refresh, build_tree, ensure_build,
}
use apatchy.BuildTree.Text.{replace, sub_assign, sub_cflags, sub_quoted}
use apatchy.BuildTree.Ensure.{Makes, ensure_build_idem}

mk :
    patch_mk "/bin/clang" "-O0" "-g"
      "# CC = x\nCC = gcc -x\nCFLAGS  = -O2\nEXTRA_CFLAGS =  -Werror\nXCC=1"
    ≡ "# CC = x\nCC = /bin/clang\nCFLAGS  =-O0\nEXTRA_CFLAGS =\nXCC=1"
unfolding patch_mk sub_assign sub_cflags starts_with
mk = refl

-- `\s*` runs over the end of a line, so an empty CC takes the next line with it.
mk_empty : sub_assign "CC" "clang" "CC =\nSHELL = sh\n" ≡ "CC =\nclang\n"
unfolding sub_assign starts_with
mk_empty = refl

libtool :
    patch_libtool "clang" "-g" "CC=\"gcc\" # \"q\" x\nLTCC=gcc\n" ≡ "CC=\"clang\" x\nLTCC=gcc\n"
unfolding patch_libtool sub_quoted starts_with
libtool = refl

abbrev root : Tree
root =
    ("Makefile", "top=/w/httpd")
    ∷ ("build/rules.mk", "CC=gcc")
    ∷ ("config.status", "a\nac_cs_config=x")
    ∷ []

abbrev with_server : Tree → Tree
with_server tree = insert "server/libmain.la" "" (insert "Makefile" "top=/w/httpd-cov" tree)

-- A `make` that puts the library there and writes a Makefile for the copy.
abbrev tools : Tools
tools = record {
  root_path = "/w/httpd";
  alt_path = "/w/httpd-cov";
  sha256 = λ line. "5f";
  make = λ args tree. some (with_server tree);
}

abbrev fresh : Trees
fresh = record { root = root; alt = none; log = [] }

abbrev built : Trees
built = record {
  root = root;
  alt = some (
      ("Makefile", "top=/w/httpd-cov")
      ∷ ("build/rules.mk", "CC=clang")
      ∷ ("config.status", "a\nac_cs_config=x")
      ∷ ("server/libmain.la", "")
      ∷ (".config_hash", "5f")
      ∷ []);
  log = made ∷ copied ∷ removed ∷ copied ∷ [];
}

first_build : ensure_build tools "clang" "-g" "" fresh ≡ some built
unfolding ensure_build refresh needs_recreate build_tree patch_build_flags patch_mk patch_libtool
    sub_assign sub_cflags sub_quoted config_hash rewrite_paths is_build_file name_of replace insert
    starts_with ends_with split_on has_text strip string_eq
first_build = refl

other_file : (◌==◌ {A = String} "Makefile" "server/libmain.la") ≡ false
unfolding string_eq
other_file = refl

has_server : (t : Tree) → lookup "server/libmain.la" (with_server t) ≡ some ""
has_server t =
    lookup-insert "server/libmain.la" "server/libmain.la" ""
      (insert "Makefile" "top=/w/httpd-cov" t)
    ∙ rw (==-self {A = String} "server/libmain.la") refl

has_makefile : (t : Tree) → lookup "Makefile" (with_server t) ≡ some "top=/w/httpd-cov"
has_makefile t =
    lookup-insert "Makefile" "server/libmain.la" "" (insert "Makefile" "top=/w/httpd-cov" t)
    ∙ rw
        (
          other_file,
          lookup-insert "Makefile" "Makefile" "top=/w/httpd-cov" t,
          ==-self {A = String} "Makefile",
        )
        refl

names_copy : has_text "/w/httpd-cov" "top=/w/httpd-cov" ≡ true
unfolding has_text starts_with
names_copy = refl

abbrev WhenMade : Option Tree → Type 0
WhenMade none = Unit
WhenMade (some u) =
    (is_some (lookup "server/libmain.la" u) ≡ true) × (needs_recreate tools (some u) ≡ false)

tools-Makes : Makes tools
unfolding needs_recreate
tools-Makes cc cflags t u h =
    subst WhenMade h (rw (has_server t) refl, rw (needs_recreate, has_makefile t, names_copy) refl)

ensure_build_idem_example : ensure_build tools "clang" "-O2" "" built ≡ some built
unfolding strip string_eq
ensure_build_idem_example =
    ensure_build_idem tools "clang" "-g" "" "clang" "-O2" "" fresh built tools-Makes (λ s. refl)
      refl first_build
