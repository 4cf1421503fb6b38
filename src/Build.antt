-- ===== src/Build.antt =====
-- framework/src/apatchy/managers/build_manager.py: `BuildManager.configure_httpd`, with the version in
-- the name of a tree (compat.py) and the metadata that is saved (core/build_meta.py).
-- Parameters: what the tools print, ./configure, and those of `Flags` and `BuildTree`.
pub mod Compile
pub mod Meta
pub mod Version
mod Tests
use apatchy.Base.{
  String, ◌<>◌, Bool, true, false, Option, none, some, List, [], ◌∷◌, ◌++◌, if◌then◌else◌, ◌==◌,
  string_eq, ◌>>=◌, or_default,
}
use apatchy.Base.Dict.{Dict}
use apatchy.Base.Text.{strip}
use apatchy.Toolchain
use apatchy.Flags
use apatchy.Flags.{Packaging, ConfigManager, generate_build_config, get_compat_flags}
use apatchy.BuildTree.{Tree, Tools, config_hash}
use apatchy.Build.Meta.{BuildMeta, MetaFile, save}
use apatchy.Build.Version.{extract_version_from_path}

-- A tree: its files but for the metadata, and the metadata.
pub record Root : Type 0 where
  pub files : Tree
  pub meta : Option MetaFile

-- `resolve_tool`, what `pcre-config --prefix` and `pkg-config --variable=prefix expat` print (`none`
-- is the `CalledProcessError`), whether the Expat of APR-Util is there, `Path(p).exists()`, and the
-- tree after `./configure` with some arguments (`none` where it fails).
pub record Host : Type 1 where
  pub tools : Toolchain.Host
  pub cfg : Toolchain.Cfg
  pub pcre_prefix : String → Option String
  pub expat_prefix : Option String
  pub bundled_expat : Bool
  pub exists : String → Bool
  pub configure : List String → Tree → Option Tree
  pub disk : Flags.Disk
  pub packaging : Packaging

-- `a or b`, for texts
abbrev pub or_text : Option String → Option String → Option String
or_text none b = b
or_text (some a) b = if a == "" then b else some a

-- `if text:` of an option
abbrev pub non_empty : Option String → Option String
non_empty none = none
non_empty (some a) = if a == "" then none else some a

abbrev pub option_args : (String → String) → Option String → List String
option_args f none = []
option_args f (some a) = f a ∷ []

module _ (h : Host) where
  abbrev pub find_tool : String → Option String
  find_tool name = Toolchain.resolve_tool h.tools h.cfg name none

  abbrev pub strip_output : Option String → Option String
  strip_output none = none
  strip_output (some out) = some (strip out)

  unfoldable pub find_pcre : Option String
  find_pcre = elim (non_empty (or_text (find_tool "pcre-config") (find_tool "pcre2-config"))) [
    | none ↦ none
    | some tool ↦ non_empty (strip_output (h.pcre_prefix tool))
  ]

  abbrev pub printed_expat : Option String
  printed_expat = elim (non_empty (find_tool "pkg-config")) [
    | none ↦ none
    | some tool ↦ non_empty (strip_output h.expat_prefix)
  ]

  -- The prefix of an Expat that is installed, where none is bundled.
  unfoldable pub find_expat : Option String
  find_expat = elim printed_expat [
    | some prefix ↦ some prefix
    | none ↦
        if h.exists "/usr/include/expat.h"
        then some "/usr"
        else if h.exists "/usr/local/include/expat.h"
        then some "/usr/local"
        else none
  ]

  abbrev pub expat_args : List String
  expat_args = if h.bundled_expat then [] else option_args (λ p. "--with-expat=" <> p) find_expat

  -- The arguments that a fix of the registry adds.
  unfoldable pub compat_args : Option String → Option (List String)
  compat_args none = some []
  compat_args (some version) =
      if version == ""
      then some []
      else get_compat_flags h.packaging h.disk.compat_header version >>= λ compat.
          some compat.configure_args

  abbrev pub base_command : List String
  base_command =
      "./configure" ∷ "--with-included-apr" ∷ "--disable-shared" ∷ "--disable-util-dso"
      ∷ "--enable-mods-static=all" ∷ "--enable-maintainer-mode" ∷ "--enable-debugger-mode"
      ∷ "--disable-pie" ∷ "--with-crypto" ∷ "--enable-session" ∷ "--enable-session-cookie"
      ∷ "--enable-session-crypto" ∷ "--enable-http2=static" ∷ "--enable-imagemap" ∷ []

  unfoldable pub configure_command :
      ConfigManager → List String → Option String → String → String → List String → List String
  configure_command c compat cc cflags ldflags extra_flags =
      base_command
      ++ ((if c.asan then "--enable-pool-debug=yes" ∷ [] else [])
          ++ (option_args (λ p. "--with-pcre=" <> p) find_pcre
              ++ (expat_args
                  ++ (compat
                      ++ (option_args (λ p. "CC=" <> p) (non_empty cc)
                          ++ (extra_flags
                              ++ ("CFLAGS=" <> cflags) ∷ ("LDFLAGS=" <> ldflags) ∷ []))))))

  -- The metadata of a root that has been configured.
  unfoldable pub root_meta :
      Tools → ConfigManager → Option String → String → String → Option String → Tree → BuildMeta
  root_meta k c cc cflags ldflags version files = record {
    tree = "vanilla";
    cc = or_default (non_empty cc) "clang";
    cflags = cflags;
    ldflags = ldflags;
    asan = c.asan;
    ubsan = c.ubsan;
    ubsan_ignorelist = c.ubsan_ignorelist;
    intsan = c.intsan;
    truncsan = c.truncsan;
    httpd_version = or_default version "";
    config_hash = config_hash k files;
  }

  -- On a tree with a name; `none` is an exception, and the tree is then as ./configure leaves it.
  unfoldable pub configure_httpd : Tools → String → ConfigManager → List String → Root → Option Root
  configure_httpd k name c extra_flags root =
      let version = extract_version_from_path name in
      generate_build_config h.disk h.packaging c version >>= λ config.
      compat_args version >>= λ compat.
      h.configure (configure_command c compat config.2 config.0 config.1 extra_flags) root.files
      >>= λ files. some (record {
        files = files;
        meta = some (save (root_meta k c config.2 config.0 config.1 version files));
      })
