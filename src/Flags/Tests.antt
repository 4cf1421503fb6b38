-- ===== src/Flags/Tests.antt =====
-- The flags of concrete managers, and the theorems at concrete inputs.
use apatchy.Base.{String, true, false, ◌≡◌, refl, some, none, ◌==◌, string_eq}
use apatchy.Flags.{
  Packaging, ConfigManager, Disk, mode_flags, sanitizer_flags, all_flags, generate_build_config,
  compat_registry, collect, get_compat_flags, add_compat, resolve_ignorelist, get_httpd_config,
}
use apatchy.Flags.Sanitizers.{Sanitizes, sanitizer_flags-Sanitizes}

abbrev fuzzing : ConfigManager
fuzzing = record {
  build_mode = "libfuzzer";
  asan = true;
  ubsan = false;
  ubsan_ignorelist = none;
  intsan = true;
  truncsan = false;
}

abbrev disk : Disk
disk = record {
  resolve = λ p. p;
  exists = λ p. p == "configs/intsan.ignorelist";
  project_root = "/apatchy";
  compat_header = "/apatchy/compat.h";
  clang = some "/usr/bin/clang";
}

-- Versions with one specifier that matches everything and one that matches nothing.
abbrev packaging : Packaging
packaging = record { Version = String; parse = λ v. some v; matches = λ spec v. spec == "<=2.4.58" }

config :
    generate_build_config disk packaging fuzzing (some "2.4.58")
    ≡ some (
      "-g -O0 -fno-omit-frame-pointer -fsanitize=fuzzer-no-link -Wno-error -fsanitize=address -fsanitize=unsigned-integer-overflow -fsanitize-ignorelist=configs/intsan.ignorelist -Wno-error=deprecated-declarations",
      "-fsanitize=fuzzer-no-link -fsanitize=address -fsanitize=unsigned-integer-overflow",
      some "/usr/bin/clang",
    )
unfolding generate_build_config all_flags sanitizer_flags mode_flags add_compat get_compat_flags
    collect compat_registry resolve_ignorelist string_eq
config = refl

no_config : get_httpd_config disk "httpd.conf" none ≡ none
unfolding get_httpd_config string_eq
no_config = refl

sanitizer_flags-Sanitizes_example : Sanitizes true false true false (sanitizer_flags disk fuzzing)
sanitizer_flags-Sanitizes_example = sanitizer_flags-Sanitizes disk fuzzing
