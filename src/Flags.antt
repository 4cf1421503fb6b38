-- ===== src/Flags.antt =====
-- framework/src/apatchy/compat.py (the registry of fixes per httpd version) and `ConfigManager` of
-- framework/src/apatchy/managers/config_manager.py: the compiler and linker flags of a build.
-- Versions and specifiers are those of the `packaging` library, and a parameter; so are the paths
-- that are resolved and tested on the disk.
pub mod Sanitizers
pub mod Config
mod Tests
use apatchy.Base.{
  ℕ, String, ◌<>◌, Bool, true, false, not, Option, none, some, List, [], ◌∷◌, ◌++◌, if◌then◌else◌,
  ◌==◌, string_eq, ◌>>=◌,
}
use apatchy.Base.Text.{join}

-- `packaging.version.Version` and `version in SpecifierSet(spec)`. `none` is `InvalidVersion`.
pub record Packaging : Type 1 where
  pub Version : Type 0
  pub parse : String → Option Version
  pub matches : String → Version → Bool

pub record CompatEntry : Type 0 where
  pub id : String
  pub versions : String
  pub cflags : List String
  pub ldflags : List String
  pub configure_args : List String

pub record CompatResult : Type 0 where
  pub cflags : List String
  pub ldflags : List String
  pub configure_args : List String
  pub applied_ids : List String

-- `COMPAT_REGISTRY`, with the path of the header that one fix includes. Descriptions are left out.
unfoldable pub compat_registry : String → List CompatEntry
compat_registry openssl3_compat_h =
    record {
      id = "openssl3-deprecations";
      versions = "<=2.4.58";
      cflags = "-Wno-error=deprecated-declarations" ∷ [];
      ldflags = [];
      configure_args = [];
    }
    ∷ record {
      id = "openssl3-removed-api";
      versions = "<=2.4.51";
      cflags =
          "-Wno-error=deprecated-declarations"
          ∷ "-Wno-implicit-function-declaration"
          ∷ ("-include " <> openssl3_compat_h)
          ∷ [];
      ldflags = [];
      configure_args = [];
    }
    ∷ record {
      id = "wo-strict-prototype";
      versions = "<=2.4.51";
      cflags =
          "-Wno-strict-prototypes" ∷ "-Wno-unused-but-set-variable"
          ∷ "-Wno-single-bit-bitfield-constant-conversion" ∷ [];
      ldflags = [];
      configure_args = [];
    }
    ∷ []

module _ (k : Packaging) where
  -- The loop of `get_compat_flags`.
  unfoldable pub collect : k.Version → List CompatEntry → CompatResult → CompatResult
  collect v [] r = r
  collect v (e ∷ entries) r = collect v entries (
      if k.matches e.versions v
      then record {
        cflags = r.cflags ++ e.cflags;
        ldflags = r.ldflags ++ e.ldflags;
        configure_args = r.configure_args ++ e.configure_args;
        applied_ids = r.applied_ids ++ (e.id ∷ []);
      }
      else r)

  unfoldable pub get_compat_flags : String → String → Option CompatResult
  get_compat_flags header httpd_version = k.parse httpd_version >>= λ v. some (
      collect v (compat_registry header)
        (record { cflags = []; ldflags = []; configure_args = []; applied_ids = [] }))

-- The fields of `ConfigManager` that the flags depend on.
pub record ConfigManager : Type 0 where
  pub build_mode : String
  pub asan : Bool
  pub ubsan : Bool
  pub ubsan_ignorelist : Option String
  pub intsan : Bool
  pub truncsan : Bool

pub record Flags : Type 0 where
  pub cflags : List String
  pub ldflags : List String

-- `Path(p).resolve()`, `Path(p).exists()`, `Config.PROJECT_ROOT`, the compat header and the clang
-- that `resolve_tool` finds.
pub record Disk : Type 0 where
  pub resolve : String → String
  pub exists : String → Bool
  pub project_root : String
  pub compat_header : String
  pub clang : Option String

-- What the two ladders on `build_mode` choose.
abbrev pub vanilla_flags : Flags
vanilla_flags = record {
  cflags = "-g" ∷ "-O0" ∷ "-fno-omit-frame-pointer" ∷ "-Wno-error=format" ∷ [];
  ldflags = "-no-pie" ∷ [];
}

abbrev pub fuzz_flags : Flags
fuzz_flags = record {
  cflags = "-O2" ∷ "-fno-omit-frame-pointer" ∷ "-Wno-error=format" ∷ [];
  ldflags = "-no-pie" ∷ [];
}

abbrev pub coverage_flags : Flags
coverage_flags = record {
  cflags =
      "-g" ∷ "-O0" ∷ "-fno-omit-frame-pointer" ∷ "-fcoverage-mapping" ∷ "-fprofile-instr-generate"
      ∷ [];
  ldflags = "-fprofile-instr-generate" ∷ "-no-pie" ∷ [];
}

abbrev pub libfuzzer_flags : Flags
libfuzzer_flags = record {
  cflags =
      "-g" ∷ "-O0" ∷ "-fno-omit-frame-pointer" ∷ "-fsanitize=fuzzer-no-link" ∷ "-Wno-error" ∷ [];
  ldflags = "-fsanitize=fuzzer-no-link" ∷ [];
}

abbrev pub other_flags : Flags
other_flags = record { cflags = "-g" ∷ "-O0" ∷ "-fno-omit-frame-pointer" ∷ []; ldflags = [] }

unfoldable pub mode_flags : String → Flags
mode_flags mode =
    if mode == "vanilla"
    then vanilla_flags
    else if mode == "fuzz"
    then fuzz_flags
    else if mode == "coverage"
    then coverage_flags
    else if mode == "libfuzzer"
    then libfuzzer_flags
    else other_flags

abbrev pub both : String → Flags → Flags
both flag f = record { cflags = f.cflags ++ (flag ∷ []); ldflags = f.ldflags ++ (flag ∷ []) }

abbrev pub add_cflag : String → Flags → Flags
add_cflag flag f = record f { cflags = f.cflags ++ (flag ∷ []) }

abbrev pub ignorelist_flag : String → String
ignorelist_flag path = "-fsanitize-ignorelist=" <> path

module _ (d : Disk) where
  -- `_resolve_ignorelist`
  unfoldable pub resolve_ignorelist : String → Option String
  resolve_ignorelist filename =
      let here = "configs/" <> filename in
      let packaged = d.project_root <> ("/framework/configs/" <> filename) in
      if d.exists here
      then some (d.resolve here)
      else if d.exists packaged
      then some (d.resolve packaged)
      else none

  abbrev pub add_asan : Bool → Flags → Flags
  add_asan on f = if on then both "-fsanitize=address" f else f

  -- `if self.ubsan_ignorelist:` and the test that the file exists
  abbrev pub user_ignorelist : Option String → Flags → Flags
  user_ignorelist none f = f
  user_ignorelist (some path) f =
      if path == ""
      then f
      else if d.exists (d.resolve path)
      then add_cflag (ignorelist_flag (d.resolve path)) f
      else f

  abbrev pub add_ubsan : Bool → Option String → Flags → Flags
  add_ubsan on path f =
      if on
      then user_ignorelist path (both "-fno-sanitize-trap" (both "-fsanitize=undefined" f))
      else f

  abbrev pub found_ignorelist : Option String → Flags → Flags
  found_ignorelist none f = f
  found_ignorelist (some path) f = add_cflag (ignorelist_flag path) f

  abbrev pub add_intsan : Bool → Flags → Flags
  add_intsan on f =
      if on
      then found_ignorelist (resolve_ignorelist "intsan.ignorelist")
          (both "-fsanitize=unsigned-integer-overflow" f)
      else f

  abbrev pub add_truncsan : Bool → Flags → Flags
  add_truncsan on f = if on then both "-fsanitize=implicit-unsigned-integer-truncation" f else f

  -- The flags before those of the version.
  unfoldable pub sanitizer_flags : ConfigManager → Flags
  sanitizer_flags c = add_truncsan c.truncsan (
      add_intsan c.intsan
        (add_ubsan c.ubsan c.ubsan_ignorelist (add_asan c.asan (mode_flags c.build_mode))))

  module _ (k : Packaging) where
    -- `if httpd_version:`
    unfoldable pub add_compat : Option String → Flags → Option Flags
    add_compat none f = some f
    add_compat (some version) f =
        if version == ""
        then some f
        else get_compat_flags k d.compat_header version >>= λ compat.
            some
              (record { cflags = f.cflags ++ compat.cflags; ldflags = f.ldflags ++ compat.ldflags })

    unfoldable pub all_flags : ConfigManager → Option String → Option Flags
    all_flags c version = add_compat version (sanitizer_flags c)

    -- The dictionary that `generate_build_config` returns: CFLAGS, LDFLAGS, and CC if there is one.
    unfoldable pub generate_build_config :
        ConfigManager → Option String → Option (String × String × Option String)
    generate_build_config c version =
        all_flags c version >>= λ f. some (join " " f.cflags, join " " f.ldflags, d.clang)

  -- `get_httpd_config`, with the manager's own file name for `None`
  unfoldable pub get_httpd_config : String → Option String → Option String
  get_httpd_config own none = if d.exists own then some (d.resolve own) else none
  get_httpd_config own (some name) = if d.exists name then some (d.resolve name) else none
