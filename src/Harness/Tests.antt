-- ===== src/Harness/Tests.antt =====
-- Concrete harnesses, and the theorems at concrete inputs.
use apatchy.Base.{
  String, ◌<>◌, if◌then◌else◌, true, not, ◌≡◌, refl, ◌||◌, some, none, List, [], ◌∷◌, ◌==◌,
  string_eq, contains, keep,
}
use apatchy.Base.Dict.{Dict, get_or, insert}
use apatchy.Base.Text.{starts_with, ends_with, split_on, split, strip, has_text}
use apatchy.Harness.{
  Files, HarnessFlags, CompileEntry, resolve_harness, is_proto, harness_flags, propagate, add_mode,
  is_sanitizer, get_system_libs, is_ldadd, module_libs, files_of, is_for, merge_commands,
}
use apatchy.Harness.Tags.{
  parse_harness_tags, read_lines, search_tag, parse_config_vars, parse_lines, assignment,
}
use apatchy.Harness.Libraries.{AreDistinct, is_wanted, get_system_libs-AreDistinct}
use apatchy.Harness.Sanitizers.{Both}
use apatchy.Harness.Configured.{Reaches, is_source, harness_flags-Reaches}
use apatchy.Harness.Commands.{merge_commands-keeps}

abbrev files : Files
files = record {
  slash = λ a b. a <> ("/" <> b);
  exists = λ p. p == "/h/mod_fuzzy.c" || p == "/h/mod_fuzzy_proto.cc";
  suffix = λ p. if ends_with p ".cc" then ".cc" else ".c";
  name = λ p. p;
  harnesses_dir = "/h";
}

proto : is_proto files (some "mod_fuzzy_proto") ≡ true
unfolding is_proto resolve_harness ends_with string_eq
proto = refl

tags :
    parse_harness_tags
      (some "/*\n * @description: x\n * @protos: http, ws \n * @ldflags:  -lz\n */\n@extras: no")
    ≡ record {
      protos = some ("http" ∷ "ws" ∷ []);
      converters = none;
      ldflags = some "-lz";
      extras = none;
    }
unfolding parse_harness_tags read_lines search_tag starts_with split_on strip string_eq
tags = refl

abbrev config_vars : Dict String String
config_vars =
    ("CFLAGS", "-g -fsanitize=address")
    ∷ ("MOD_SSL_LDADD", "-lssl -lcrypto")
    ∷ ("MOD_MD_LDADD", "-lcrypto -lcurl")
    ∷ ("PCRE_LIBS", "-lpcre2-8")
    ∷ []

parsed :
    parse_config_vars (some "# x\nCFLAGS = -g -fsanitize=address\nA b = 1\nX=\nX= 2 ")
    ≡ ("CFLAGS", "-g -fsanitize=address") ∷ ("X", "2") ∷ []
unfolding parse_config_vars parse_lines assignment split_on strip insert string_eq
parsed = refl

libs : get_system_libs config_vars ≡ "-lssl" ∷ "-lcrypto" ∷ "-lcurl" ∷ "-lpcre2-8" ∷ []
unfolding get_system_libs is_ldadd starts_with ends_with split string_eq
libs = refl

abbrev given : HarnessFlags
given = record { cflags = "-O1"; ldflags = "" }

compiled : harness_flags "libfuzzer" "/h" none config_vars given ≡ record {
  cflags = "-I/h -DLIBFUZZER -fsanitize=fuzzer -O1 -fsanitize=address";
  ldflags = "-fsanitize=fuzzer  -fsanitize=address -no-pie";
}
unfolding harness_flags propagate add_mode is_sanitizer has_text starts_with split string_eq
compiled = refl

harness_flags-Reaches_example :
    Both
      (Reaches (is_source config_vars given) "-fsanitize=address")
      (harness_flags "libfuzzer" "/h" none config_vars given)
unfolding is_sanitizer starts_with split string_eq
harness_flags-Reaches_example =
    harness_flags-Reaches config_vars "-fsanitize=address" given "libfuzzer" "/h" none refl refl

get_system_libs-AreDistinct_example :
    AreDistinct (get_system_libs config_vars)
    × ((flag : String)
        → contains (get_system_libs config_vars) flag ≡ (
            is_wanted flag config_vars
            || contains (split (get_or "PCRE_LIBS" config_vars "")) flag))
get_system_libs-AreDistinct_example = get_system_libs-AreDistinct config_vars

abbrev found : List String
found = "a/libmod_x.la" ∷ "a/.libs/libmod_x.la" ∷ "a/libmod_x.la" ∷ []

once : module_libs (λ p. p) [] found ≡ "a/libmod_x.la" ∷ []
unfolding module_libs has_text starts_with string_eq
once = refl

abbrev entry : String → String → CompileEntry
entry file arg = record { directory = "/w"; file = some file; arguments = arg ∷ [] }

merge_commands-keeps_example :
    (keep
        (is_for (files_of (entry "a.c" "new" ∷ [])))
        (merge_commands (entry "a.c" "old" ∷ entry "b.c" "b" ∷ []) (entry "a.c" "new" ∷ []))
      ≡ entry "a.c" "new" ∷ [])
    × (keep
          (λ e. not (is_for (files_of (entry "a.c" "new" ∷ [])) e))
          (merge_commands (entry "a.c" "old" ∷ entry "b.c" "b" ∷ []) (entry "a.c" "new" ∷ []))
        ≡ keep
            (λ e. not (is_for (files_of (entry "a.c" "new" ∷ [])) e))
            (entry "a.c" "old" ∷ entry "b.c" "b" ∷ []))
    × (merge_commands
          (merge_commands (entry "a.c" "old" ∷ entry "b.c" "b" ∷ []) (entry "a.c" "new" ∷ []))
          (entry "a.c" "new" ∷ [])
        ≡ merge_commands (entry "a.c" "old" ∷ entry "b.c" "b" ∷ []) (entry "a.c" "new" ∷ []))
merge_commands-keeps_example =
    merge_commands-keeps (entry "a.c" "old" ∷ entry "b.c" "b" ∷ []) (entry "a.c" "new" ∷ [])
      (("a.c", refl), tt)
