-- ===== src/Build/Tests.antt =====
-- Concrete metadata, versions and configurations, and the theorems at concrete inputs.
use apatchy.Base.{Bool, true, false, ◌≡◌, refl, some, none, [], ◌∷◌, ◌++◌, string_eq}
use apatchy.Base.Decimal.{decimal}
use apatchy.Build.Compile.{Step, command, update_clangd, compile_httpd, build_harness}
use apatchy.Build.Meta.{BuildMeta, text, save, load, is_field, construct, load-save}
use apatchy.Build.Version.{extract_version_from_path, match_version}

version : extract_version_from_path "httpd-2.4.58-lf" ≡ some "2.4.58"
unfolding extract_version_from_path match_version string_eq
version = refl

no_version : extract_version_from_path "httpd-trunk" ≡ none
unfolding extract_version_from_path match_version string_eq
no_version = refl

abbrev meta : BuildMeta
meta = record {
  tree = "lf";
  cc = "/usr/bin/clang";
  cflags = "-g";
  ldflags = "";
  asan = true;
  ubsan = false;
  ubsan_ignorelist = some "u.txt";
  intsan = false;
  truncsan = false;
  httpd_version = "2.4.58";
  config_hash = "5f";
}

-- A file without the name of its tree cannot be loaded.
no_tree : load (some (("cc", text "gcc") ∷ [])) ≡ none
unfolding load construct is_field string_eq
no_tree = refl

load-save_example : load (some (save meta ++ ("jobs", text "8") ∷ [])) ≡ some meta
unfolding is_field string_eq
load-save_example = load-save meta (("jobs", text "8") ∷ []) refl

abbrev all_steps : Step → Bool
all_steps s = true

compiles :
    compile_httpd all_steps true 4 none true true []
    ≡ some (
        update_clangd
        ∷ command ("bear" ∷ "--" ∷ "make" ∷ "-j4" ∷ [])
        ∷ command ("make" ∷ "clean" ∷ [])
        ∷ [])
unfolding compile_httpd decimal
compiles = refl

-- Where bear is not installed, no harness is built with it.
no_bear : build_harness all_steps false "libfuzzer" none true "" "" [] ≡ none
unfolding build_harness
no_bear = refl
