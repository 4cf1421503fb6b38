-- ===== src/Harness.antt =====
-- framework/src/apatchy/core/harness.py: `HarnessBuilder`. Which harness a name means, the flags that
-- it is compiled and linked with, the libraries of the server, and compile_commands.json.
-- Parameters: `pathlib` and what is on the disk.
pub mod Tags
pub mod Libraries
pub mod Sanitizers
pub mod Configured
pub mod Commands
pub mod Objects
pub mod Proto
mod ProtoTests
mod Tests
use apatchy.Base.{
  String, ◌<>◌, Bool, true, false, not, ◌&&◌, ◌||◌, Option, none, some, List, [], ◌∷◌, ◌++◌,
  if◌then◌else◌, ◌==◌, contains, string_eq, keep, any,
}
use apatchy.Base.Dict.{Dict, get_or}
use apatchy.Base.Text.{starts_with, ends_with, split, has_text}

-- `a / b`, `Path.exists`, `Path.suffix`, `Path.name`, `Config.HARNESSES_DIR`
pub record Files : Type 0 where
  pub slash : String → String → String
  pub exists : String → Bool
  pub suffix : String → String
  pub name : String → String
  pub harnesses_dir : String

module _ (f : Files) where
  unfoldable pub resolve_harness : String → Option String
  resolve_harness name =
      let bundled = f.slash f.harnesses_dir (name <> ".c") in
      let bundled_cc = f.slash f.harnesses_dir (name <> ".cc") in
      if f.exists bundled
      then some bundled
      else if f.exists bundled_cc
      then some bundled_cc
      else if f.exists name
      then some name
      else none

  unfoldable pub is_proto : Option String → Bool
  is_proto none = false
  is_proto (some name) =
      if name == ""
      then false
      else elim (resolve_harness name) [ none ↦ false | some path ↦ f.suffix path == ".cc" ]

-- The flags as the code keeps them: texts with spaces.
pub record HarnessFlags : Type 0 where
  pub cflags : String
  pub ldflags : String

-- `f"{flags} {token}"` unless the token occurs in the text
abbrev pub add_token : String → String → String
add_token token flags = if has_text token flags then flags else flags <> (" " <> token)

unfoldable pub is_sanitizer : String → Bool
is_sanitizer token = starts_with token "-fsanitize" || starts_with token "-fno-sanitize"

abbrev pub propagate_tokens : List String → HarnessFlags → HarnessFlags
propagate_tokens [] f = f
propagate_tokens (token ∷ tokens) f = propagate_tokens tokens (
    if is_sanitizer token
    then record { cflags = add_token token f.cflags; ldflags = add_token token f.ldflags }
    else f)

-- The loop over CFLAGS and LDFLAGS of config_vars.mk.
unfoldable pub propagate : Dict String String → HarnessFlags → HarnessFlags
propagate config_vars f =
    propagate_tokens (split (get_or "LDFLAGS" config_vars ""))
      (propagate_tokens (split (get_or "CFLAGS" config_vars "")) f)

-- The flags of the entry point.
unfoldable pub add_mode : String → HarnessFlags → HarnessFlags
add_mode mode f =
    if mode == "libfuzzer"
    then record {
      cflags = "-DLIBFUZZER -fsanitize=fuzzer " <> f.cflags;
      ldflags = "-fsanitize=fuzzer " <> f.ldflags;
    }
    else if mode == "coverage"
    then record {
      cflags =
          "-DLIBFUZZER -fsanitize=fuzzer -fprofile-instr-generate -fcoverage-mapping " <> f.cflags;
      ldflags = "-fsanitize=fuzzer -fprofile-instr-generate " <> f.ldflags;
    }
    else f

-- `if extra_ldflags:`
abbrev pub add_extra : Option String → String → String
add_extra none ldflags = ldflags
add_extra (some extra) ldflags = if extra == "" then ldflags else ldflags <> (" " <> extra)

abbrev pub add_no_pie : String → String
add_no_pie ldflags = if has_text "-no-pie" ldflags then ldflags else ldflags <> " -no-pie"

-- The flags that a C harness is compiled and linked with, for its directory and its `@ldflags`.
unfoldable pub harness_flags :
    String → String → Option String → Dict String String → HarnessFlags → HarnessFlags
harness_flags mode harness_dir extra config_vars f =
    let g = add_mode mode (propagate config_vars f) in
    record {
      cflags = "-I" <> (harness_dir <> (" " <> g.cflags));
      ldflags = add_no_pie (add_extra extra g.ldflags);
    }

-- `if flag not in seen`; the set `seen` has the flags of the list.
abbrev pub add_flags : List String → List String → List String
add_flags libs [] = libs
add_flags libs (flag ∷ flags) =
    add_flags (if contains libs flag then libs else libs ++ flag ∷ []) flags

unfoldable pub is_ldadd : String → Bool
is_ldadd key = starts_with key "MOD_" && ends_with key "_LDADD"

-- An empty value has no words.
abbrev pub add_modules : List String → Dict String String → List String
add_modules libs [] = libs
add_modules libs ((key, value) ∷ config_vars) =
    add_modules (if is_ldadd key && not (value == "") then add_flags libs (split value) else libs)
      config_vars

unfoldable pub get_system_libs : Dict String String → List String
get_system_libs config_vars =
    add_flags (add_modules [] config_vars) (split (get_or "PCRE_LIBS" config_vars ""))

-- The loop over the module libraries, with the names seen.
unfoldable pub module_libs : (String → String) → List String → List String → List String
module_libs name seen [] = []
module_libs name seen (la ∷ found) =
    let fresh = module_libs name (name la ∷ seen) found in
    let rest = module_libs name seen found in
    if has_text ".libs" la then rest else if contains seen (name la) then rest else la ∷ fresh

-- The libraries of the server, with those of the modules between two times libmain and libos.
unfoldable pub server_libs : (String → String) → String → List String → List String
server_libs name httpd_root found =
    let libmain = httpd_root <> "/server/libmain.la" in
    let libos = httpd_root <> "/os/unix/libos.la" in
    libmain
    ∷ libos
    ∷ (httpd_root <> "/server/mpm/event/libevent.la")
    ∷ (module_libs name [] found ++ libmain ∷ libos ∷ [])

-- What a harness that has its own `main` asks of the linker.
abbrev pub muldefs_flags : Bool → List String
muldefs_flags false = []
muldefs_flags true =
    "-Wl,-z,muldefs" ∷ "-Wl,-u,ap_cookie_write" ∷ "-Wl,-u,ap_cookie_read"
    ∷ "-Wl,-u,ap_cookie_check_string" ∷ "-Wl,-u,ap_rxplus_compile" ∷ "-Wl,-u,ap_rxplus_exec"
    ∷ "-Wl,-u,apr_threadkey_private_create" ∷ "-Wl,-u,apr_threadkey_private_get"
    ∷ "-Wl,-u,apr_threadkey_private_set" ∷ "-Wl,-u,apr_bucket_type_eos"
    ∷ "-Wl,-u,apr_bucket_type_flush" ∷ []

-- The command of `_link_harness`, with the module libraries that are found.
unfoldable pub link_command :
    (String → String)
    → String
    → String
    → String
    → List String
    → HarnessFlags
    → Bool
    → Dict String String
    → List String
    → List String
link_command name httpd_root cc output objects f allow_muldefs config_vars found =
    (httpd_root <> "/srclib/apr/libtool")
    ∷ "--mode=link"
    ∷ cc
    ∷ (muldefs_flags allow_muldefs
        ++ (split f.cflags
            ++ (split f.ldflags
                ++ ("-o"
                    ∷ output
                    ∷ (objects
                        ++ ("-export-dynamic"
                            ∷ (server_libs name httpd_root found
                                ++ ((httpd_root <> "/srclib/apr-util/libaprutil-1.la")
                                    ∷ (httpd_root <> "/srclib/apr/libapr-1.la")
                                    ∷ (get_system_libs config_vars
                                        ++ "-luuid" ∷ "-lcrypt" ∷ "-lpthread" ∷ [])))))))))

-- An entry of compile_commands.json.
pub record CompileEntry : Type 0 where
  pub directory : String
  pub file : Option String
  pub arguments : List String

abbrev pub files_of : List CompileEntry → List String
files_of [] = []
files_of (e ∷ entries) = elim e.file [ none ↦ files_of entries | some f ↦ f ∷ files_of entries ]

-- `e.get("file") in new_files`
abbrev pub is_for : List String → CompileEntry → Bool
is_for new_files e = elim e.file [ none ↦ false | some f ↦ contains new_files f ]

unfoldable pub merge_commands : List CompileEntry → List CompileEntry → List CompileEntry
merge_commands existing entries = keep (λ e. not (is_for (files_of entries) e)) existing ++ entries
