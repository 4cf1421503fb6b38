-- ===== src/Harness/ProtoTests.antt =====
-- A concrete harness of protobuf, and the theorem at a concrete input.
use apatchy.Base.{◌<>◌, false, ◌≡◌, refl, some, none, [], ◌∷◌, string_eq, contains}
use apatchy.Base.Text.{ends_with}
use apatchy.Toolchain
use apatchy.Toolchain.{resolve_tool, scan, get, usable}
use apatchy.Harness.{HarnessFlags}
use apatchy.Harness.Tags.{Tags}
use apatchy.Harness.Proto.{Layout, Proto, compile_steps, dests, linked_objects, resolve_lpm_paths}
use apatchy.Harness.Objects.{linked_objects-compile_steps}

abbrev layout : Layout
layout = record {
  obj = "o";
  gen_dir = "g";
  harness_dir = "h";
  harness_src = "h/mod_fuzzy_proto.cc";
  httpd_root = "/w/httpd-lf";
  generated = "http.pb" ∷ "ws.pb" ∷ [];
  converters = "http" ∷ "ws" ∷ [];
  stem = λ path. "alloc";
  extra_path = λ extra. "h/" <> extra;
}

abbrev proto_tools : Proto
proto_tools = record {
  cxx = "clang++";
  c_cc = "clang";
  pb_cflags = "";
  pb_ldflags = "-lprotobuf";
  lpm_root = "/usr";
  lpm_build = none;
}

abbrev wanted : Tags
wanted = record {
  protos = some ("http" ∷ []);
  converters = some ("http" ∷ []);
  ldflags = none;
  extras = some ("alloc.c" ∷ []);
}

abbrev given : HarnessFlags
given = record { cflags = "-g"; ldflags = "" }

-- Only what the tags name is compiled.
objects :
    linked_objects layout proto_tools wanted "profile" given
    ≡ "o/fuzz_harness.lo" ∷ "o/proto_http.lo" ∷ "o/fuzz_common.lo" ∷ "o/extra_alloc.lo"
      ∷ "o/http.pb.o" ∷ "o/buildmark.lo" ∷ "o/modules.lo" ∷ "o/harness_main.lo" ∷ []
unfolding linked_objects ends_with string_eq
objects = refl

-- Nothing is installed.
no_lpm :
    resolve_lpm_paths (record { exists = λ p. false; which = λ name. none }) [] "/w/toolchain"
    ≡ none
unfolding resolve_lpm_paths resolve_tool scan get usable string_eq Toolchain.load
no_lpm = refl

linked_objects-compile_steps_example :
    contains (linked_objects layout proto_tools wanted "libfuzzer" given) "o/modules.lo"
    ≡ contains
        (dests layout proto_tools wanted "libfuzzer" given
          (compile_steps layout proto_tools wanted "libfuzzer" given))
        "o/modules.lo"
linked_objects-compile_steps_example =
    linked_objects-compile_steps layout proto_tools wanted "libfuzzer" given "o/modules.lo"
