-- ===== src/Modules/Tests.antt =====
-- Concrete modules, and the theorems at concrete inputs.
use apatchy.Base.{
  String, true, false, ◌≡◌, refl, ◌&&◌, some, none, List, [], ◌∷◌, string_eq, contains, any, all,
  or_default,
}
use apatchy.Base.Text.{starts_with, split, split_on, strip}
use apatchy.Toolchain
use apatchy.Toolchain.{resolve_tool, scan, get, usable}
use apatchy.Harness.Libraries.{AreDistinct}
use apatchy.Modules.{
  partition, is_sanitizer_word, get_sanitizer_flags, Sources, source, script, find_target,
  build_module, HttpdTree, compiler, build_one,
}
use apatchy.Modules.Words.{is_flag, build_one-Words}

abbrev sources : Sources
sources = record { files = "mod_pwn" ∷ []; dirs = ("mod_big", true) ∷ ("docs", false) ∷ [] }

-- The prefix of a module may be left out.
short_name : build_module sources (some "big") ≡ script "mod_big" ∷ []
unfolding build_module find_target string_eq
short_name = refl

no_script : build_module sources (some "docs") ≡ []
unfolding build_module find_target string_eq
no_script = refl

every_one : build_module sources none ≡ source "mod_pwn" ∷ script "mod_big" ∷ []
unfolding build_module
every_one = refl

abbrev vars : String
vars = "CFLAGS = -g -fsanitize=address\nLDFLAGS = -fsanitize=address -fno-sanitize=vptr\nCC=clang"

abbrev tree : HttpdTree
tree = record { path = "/w/httpd"; config_vars = some vars; module_dirs = [] }

flags : get_sanitizer_flags (some vars) ≡ "-fsanitize=address" ∷ "-fno-sanitize=vptr" ∷ []
unfolding get_sanitizer_flags partition split split_on strip starts_with string_eq
flags = refl

abbrev tools : Toolchain.Host
tools = record { exists = λ p. true; which = λ name. some "/usr/bin/clang" }

command : List String
command = or_default (build_one tools [] tree "/w/modules" "/m/mod_pwn.c" "mod_pwn" none) []

builds : build_one tools [] tree "/w/modules" "/m/mod_pwn.c" "mod_pwn" none ≡ some command
unfolding command build_one compiler resolve_tool scan get usable string_eq Toolchain.load
builds = refl

build_one-Words_example :
    AreDistinct (get_sanitizer_flags tree.config_vars)
    × ((a : String)
        → contains (get_sanitizer_flags tree.config_vars) a
          ≡ (is_sanitizer_word a && any (is_flag a) (split_on 10 vars)))
    × (all (contains command) (get_sanitizer_flags tree.config_vars) ≡ true)
build_one-Words_example =
    build_one-Words tools [] tree vars "/w/modules" "/m/mod_pwn.c" "mod_pwn" none command refl
      builds
