-- ===== src/Bugs/Tests.antt =====
-- A concrete bug, and the theorems at concrete inputs.
use apatchy.Base.{String, Bool, true, false, ◌≡◌, refl, some, none, [], ◌∷◌, string_eq}
use apatchy.Base.Text.{lower, upper, split_on, starts_with}
use apatchy.BuildTree.Text.{replace}
use apatchy.Toolchain.{resolve_tool, scan, get, usable}
use apatchy.Flags.{get_compat_flags, generate_build_config, all_flags, add_compat}
use apatchy.Build.{Host}
use apatchy.Bugs.{Manifest, BugDir, Bug, resolve_bug_dir, get_bug_instance, suppress_file}
use apatchy.Bugs.Setup.{
  Action, make_seeds, triage, Found, Run, ended, raised, setup, link_branch, find_httpd, reproduce,
}

abbrev host : Host
host = record {
  tools = record { exists = λ p. true; which = λ name. none };
  cfg = [];
  pcre_prefix = λ tool. none;
  expat_prefix = none;
  bundled_expat = true;
  exists = λ p. false;
  configure = λ args tree. some tree;
  disk = record {
    resolve = λ p. p;
    exists = λ p. false;
    project_root = "/apatchy";
    compat_header = "/apatchy/compat.h";
    clang = some "/usr/bin/clang";
  };
  packaging = record { Version = String; parse = λ v. some v; matches = λ spec v. false };
}

abbrev manifest : Manifest
manifest = record {
  table = some (record {
    id = some "CVE-2022-23943";
    description = none;
    version = some "2.4.52";
    modules = none;
    kind = none;
  });
  sanitizers = some ("ubsan" ∷ []);
  configure_flags = none;
  harness = some "mod_fuzzy";
  suppress = some "ubsan.supp";
  timeout = none;
}

abbrev entry : BugDir
entry = record { toml = some (some manifest); plugin = none; gen_seed = true }

abbrev bug : Bug
bug = record { dir = "cve_2022_23943"; manifest = manifest; plugin = none; gen_seed = true }

found : get_bug_instance "CVE-2022-23943" (("cve_2022_23943", entry) ∷ []) ≡ some bug
unfolding get_bug_instance resolve_bug_dir lower upper replace split_on starts_with string_eq
found = refl

-- A directory of another name is found by the id in its manifest.
found_by_id : resolve_bug_dir "cve-2022-23943" (("overflow", entry) ∷ []) ≡ some "overflow"
unfolding resolve_bug_dir lower upper replace split_on starts_with string_eq
found_by_id = refl

-- A suppression file that is nowhere is given by its name.
nowhere : suppress_file (λ p. false) "/w" bug ≡ some "ubsan.supp"
unfolding suppress_file string_eq
nowhere = refl

abbrev here : Found
here = record {
  seeds = none;
  generated = some (("a.bin", true) ∷ ("dir", false) ∷ []);
  harness = true;
  version_exists = true;
  names = [];
  exists = λ p. false;
}

-- Without seeds they are made first, and each file is triaged.
triages :
    reproduce host (λ a. true) here "/w" bug
    ≡ ended (triage "a.bin" "/w" (some "ubsan.supp") 30 ∷ make_seeds ∷ [])
unfolding reproduce find_httpd suppress_file string_eq
triages = refl

abbrev all_succeed : Action → Bool
all_succeed a = true

abbrev is_ended : Run → Bool
is_ended (ended log) = true
is_ended (raised log) = false

-- With these calls the setup ends.
ends : is_ended (setup host all_succeed false bug) ≡ true
unfolding setup link_branch generate_build_config get_compat_flags all_flags add_compat resolve_tool
    scan get usable string_eq
ends = refl
