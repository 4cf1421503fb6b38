-- ===== src/Dispatch/Tests.antt =====
-- Concrete commands, and the theorems at concrete inputs.
use apatchy.Base.{
  String, true, false, ◌≡◌, refl, some, none, [], ◌∷◌, string_eq, or_default, All, if◌then◌else◌,
  ◌==◌,
}
use apatchy.Base.Dict.{insert}
use apatchy.Base.Text.{starts_with, ends_with, split_on, has_text, strip, lower}
use apatchy.Toolchain.{resolve_tool, scan, get, usable}
use apatchy.Flags.{add_compat, all_flags, generate_build_config}
use apatchy.BuildTree.{
  Tools, rewrite_paths, is_build_file, name_of, needs_recreate, refresh, build_tree, ensure_build,
}
use apatchy.BuildTree.Text.{replace}
use apatchy.Build.{
  Host, configure_httpd, root_meta, compat_args, configure_command, find_pcre, find_expat,
}
use apatchy.Build.Version.{extract_version_from_path, match_version}
use apatchy.Build.Meta.{save, load, construct, is_field}
use apatchy.Harness.{HarnessFlags}
use apatchy.Harness.Sanitizers.{Occurs}
use apatchy.Dispatch.{
  Workspace, CommandResult, done, refused, failed, Switches, is_branch, get_active_httpd, mode_of,
  build_branch, handle_configure, handle_compile, handle_link,
}
use apatchy.Downloader.{Parts, below}
use apatchy.Dispatch.Clean.{Paths, is_artifact, is_state, clean_bugs, handle_clean, has_path}
use apatchy.Dispatch.Kept.{handle_clean-Kept}
use apatchy.Dispatch.Pipeline.{requested, configure-compile-link}

active :
    get_active_httpd false ("httpd-2.4.58" ∷ "httpd-2.4.58-lf" ∷ "httpd-2.4.58-cov" ∷ [])
    ≡ some "httpd-2.4.58"
unfolding get_active_httpd is_branch ends_with string_eq
active = refl

abbrev host : Host
host = record {
  tools = record { exists = λ p. true; which = λ name. none };
  cfg = [];
  pcre_prefix = λ tool. none;
  expat_prefix = none;
  bundled_expat = true;
  exists = λ p. false;
  configure = λ args tree. some tree;
  disk = record {
    resolve = λ p. p;
    exists = λ p. false;
    project_root = "/apatchy";
    compat_header = "/apatchy/compat.h";
    clang = some "/usr/bin/clang";
  };
  packaging = record { Version = String; parse = λ v. some v; matches = λ spec v. false };
}

abbrev tools : String → Tools
tools suffix = record {
  root_path = "/w/httpd";
  alt_path = "/w/httpd-lf";
  sha256 = λ line. "5f";
  make = λ args tree. some (insert "server/libmain.la" "" tree);
}

abbrev switches : Switches
switches = record {
  asan = true;
  ubsan = false;
  ubsan_ignorelist = none;
  intsan = false;
  truncsan = false;
}

abbrev start : Workspace
start = record {
  name = "httpd-trunk";
  root = record {
    files = ("Makefile", "top=/w/httpd") ∷ ("build/config_vars.mk", "CFLAGS = -O2") ∷ [];
    meta = none;
  };
  branches = [];
  log = [];
}

-- Without metadata of the root there is no branch.
no_root : handle_compile host tools "lf" start ≡ refused
unfolding handle_compile
no_root = refl

configured_workspace : Workspace
configured_workspace = or_default (handle_configure host tools switches start) start

of_done : CommandResult Workspace → Workspace
of_done (done w) = w
of_done refused = start
of_done failed = start

compiled_workspace : Workspace
compiled_workspace = of_done (handle_compile host tools "lf" configured_workspace)

configures : handle_configure host tools switches start ≡ some configured_workspace
unfolding configured_workspace handle_configure configure_httpd configure_command compat_args
    find_pcre find_expat extract_version_from_path match_version generate_build_config all_flags
    add_compat resolve_tool scan get usable string_eq
configures = refl

compiles : handle_compile host tools "lf" configured_workspace ≡ done compiled_workspace
unfolding compiled_workspace of_done configured_workspace handle_configure configure_httpd
    configure_command compat_args find_pcre find_expat extract_version_from_path match_version
    generate_build_config all_flags add_compat resolve_tool scan get usable string_eq root_meta
    handle_compile build_branch mode_of ensure_build refresh build_tree load save construct is_field
    needs_recreate rewrite_paths is_build_file name_of replace split_on ends_with starts_with
    has_text
compiles = refl

configure-compile-link_example :
    (f : HarnessFlags) × (handle_link host tools "lf" "/h" none compiled_workspace ≡ done f)
    × All (λ flag. Occurs flag f) (requested switches)
configure-compile-link_example =
    configure-compile-link host tools switches "lf" "/h" none start configured_workspace
      compiled_workspace configures compiles

abbrev work_dir : Paths
work_dir =
    ("fuzz_harness_lf" ∷ [], false)
    ∷ ("conf" ∷ [], true)
    ∷ ("conf" ∷ "httpd.conf" ∷ [], false)
    ∷ ("conf" ∷ "mime.types" ∷ [], false)
    ∷ ("httpd-2.4.58" ∷ [], true)
    ∷ ("httpd-2.4.58" ∷ "Makefile" ∷ [], false)
    ∷ []

cleans :
    handle_clean true " Y" [] [] work_dir
    ≡ (("conf" ∷ [], true) ∷ ("conf" ∷ "mime.types" ∷ [], false) ∷ [], true)
unfolding handle_clean clean_bugs is_artifact is_state below starts_with ends_with strip lower
    string_eq
cleans = refl

handle_clean-Kept_example :
    (has_path ("conf" ∷ "mime.types" ∷ []) (handle_clean true "y" [] [] work_dir).0
      ≡ has_path ("conf" ∷ "mime.types" ∷ []) work_dir)
    × ((q : Parts)
        → has_path ("toolchain" ∷ q) (handle_clean false "y" [] [] work_dir).0
          ≡ has_path ("toolchain" ∷ q) work_dir)
    × (handle_clean true "y" [] [] work_dir ≡ (
        if lower (strip "y") == "y"
        then handle_clean true "y" [] [] work_dir
        else (work_dir, true)))
handle_clean-Kept_example = handle_clean-Kept true "y" [] [] work_dir
