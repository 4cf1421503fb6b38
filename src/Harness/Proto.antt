-- ===== src/Harness/Proto.antt =====
-- core/harness.py: `_build_proto_harness`, the steps of a harness in C++ with a grammar of protobuf,
-- and `_resolve_lpm_paths`.
-- Parameters: paths, the names of the sources that are there, and what pkg-config prints.
use apatchy.Base.{
  String, ◌<>◌, Bool, true, false, Option, none, some, List, [], ◌∷◌, ◌++◌, map, if◌then◌else◌,
  ◌==◌, string_eq, contains, keep,
}
use apatchy.Base.Text.{join, split}
use apatchy.Downloader.Versions.{remove_suffix}
use apatchy.Build.{or_text}
use apatchy.Toolchain
use apatchy.Harness.{HarnessFlags, add_extra, add_no_pie}
use apatchy.Harness.Tags.{Tags}

-- The directories of the work: of objects, of generated sources, of the harness, and the tree of
-- Apache; the generated sources and the converters by their stems, in order; the stem of a path, and
-- the path of a file of the harness, with the suffix .c where it has none.
pub record Layout : Type 0 where
  pub obj : String
  pub gen_dir : String
  pub harness_dir : String
  pub harness_src : String
  pub httpd_root : String
  pub generated : List String
  pub converters : List String
  pub stem : String → String
  pub extra_path : String → String

-- The tools, what pkg-config prints for protobuf, and libprotobuf-mutator.
pub record Proto : Type 0 where
  pub cxx : String
  pub c_cc : String
  pub pb_cflags : String
  pub pb_ldflags : String
  pub lpm_root : String
  pub lpm_build : Option String

-- A compilation, by libtool or not: the compiler, its flags, the source and the object.
pub record CompileStep : Type 0 where
  pub libtool : Bool
  pub cc : String
  pub cflags : List String
  pub src : String
  pub dest : String

-- `needed and name not in needed` is false
abbrev pub is_needed : Option (List String) → String → Bool
is_needed none name = true
is_needed (some []) name = true
is_needed (some (x ∷ xs)) name = contains (x ∷ xs) name

abbrev pub or_nil : Option (List String) → List String
or_nil none = []
or_nil (some l) = l

module _ (y : Layout) (p : Proto) (tags : Tags) (mode : String) (f : HarnessFlags) where
  abbrev pub object_file : String → String
  object_file name = y.obj <> ("/" <> name)

  unfoldable pub harness_cflags : String
  harness_cflags =
      "-I"
      <> (y.harness_dir
          <> (" -I"
              <> (y.gen_dir
                  <> (" -I"
                      <> (p.lpm_root <> (" " <> (p.pb_cflags <> (" -std=c++17 " <> f.cflags))))))))

  abbrev pub c_cflags : String
  c_cflags = "-I" <> (y.harness_dir <> (" " <> f.cflags))

  -- `_compile_object`
  abbrev pub compile_object : String → String → String → String → CompileStep
  compile_object src dest cflags cc = record {
    libtool = true;
    cc = cc;
    cflags = split cflags;
    src = src;
    dest = object_file dest;
  }

  abbrev pub pb_step : String → CompileStep
  pb_step stem = record {
    libtool = false;
    cc = p.cxx;
    cflags = "-O2" ∷ "-std=c++17" ∷ (split p.pb_cflags ++ ("-I" <> y.gen_dir) ∷ []);
    src = y.gen_dir <> ("/" <> (stem <> ".cc"));
    dest = object_file (stem <> ".o");
  }

  abbrev pub pb_steps : List CompileStep
  pb_steps = map pb_step (keep (λ s. is_needed tags.protos (remove_suffix ".pb" s)) y.generated)

  abbrev pub converter_step : String → CompileStep
  converter_step stem =
      compile_object (y.harness_dir <> ("/proto_converters/" <> (stem <> ".cc")))
        ("proto_" <> (stem <> ".lo")) harness_cflags p.cxx

  abbrev pub converter_steps : List CompileStep
  converter_steps = map converter_step (keep (is_needed tags.converters) y.converters)

  abbrev pub extra_step : String → CompileStep
  extra_step extra =
      compile_object (y.extra_path extra) ("extra_" <> (y.stem (y.extra_path extra) <> ".lo"))
        c_cflags p.c_cc

  abbrev pub extra_steps : List CompileStep
  extra_steps = map extra_step (or_nil tags.extras)

  abbrev pub main_steps : List CompileStep
  main_steps =
      if mode == "profile"
      then compile_object (y.harness_dir <> "/proto_harness_main.cc") "harness_main.lo"
          harness_cflags p.cxx
        ∷ []
      else []

  -- The compilations, in this order.
  unfoldable pub compile_steps : List CompileStep
  compile_steps =
      pb_steps
      ++ (compile_object y.harness_src "fuzz_harness.lo" harness_cflags p.cxx
          ∷ (main_steps
              ++ (converter_steps
                  ++ (compile_object (y.harness_dir <> "/fuzz_common.c") "fuzz_common.lo" c_cflags
                        p.c_cc
                      ∷ (extra_steps
                          ++ (compile_object (y.httpd_root <> "/server/buildmark.c") "buildmark.lo"
                                c_cflags p.c_cc
                              ∷ compile_object (y.httpd_root <> "/modules.c") "modules.lo" c_cflags
                                  p.c_cc
                              ∷ []))))))

  abbrev pub dests : List CompileStep → List String
  dests = map (λ s. s.dest)

  -- The objects that are linked.
  unfoldable pub linked_objects : List String
  linked_objects =
      object_file "fuzz_harness.lo"
      ∷ (dests converter_steps
          ++ (object_file "fuzz_common.lo"
              ∷ (dests extra_steps
                  ++ (dests pb_steps
                      ++ (object_file "buildmark.lo"
                          ∷ object_file "modules.lo"
                          ∷ (if mode == "profile"
                              then object_file "harness_main.lo" ∷ []
                              else []))))))

  abbrev pub lpm_libs : List String
  lpm_libs = elim p.lpm_build [
    | none ↦ "-lprotobuf-mutator-libfuzzer" ∷ "-lprotobuf-mutator" ∷ []
    | some build ↦
        ("-L" <> (build <> "/src/libfuzzer"))
        ∷ ("-L" <> (build <> "/src"))
        ∷ "-lprotobuf-mutator-libfuzzer"
        ∷ "-lprotobuf-mutator"
        ∷ []
  ]

  -- The flags of the link.
  unfoldable pub link_ldflags : String
  link_ldflags = add_no_pie (
      add_extra tags.ldflags f.ldflags
      <> (" " <> (join " " lpm_libs <> (" " <> (p.pb_ldflags <> " -lcrypto")))))

-- `_resolve_lpm_paths`, with `exists` of a path and the directory of the toolchain: the root of
-- libprotobuf-mutator, and its build directory unless the system has it.
module _ (tools : Toolchain.Host) (cfg : Toolchain.Cfg) (toolchain_dir : String) where
  abbrev pub system_lpm : Option (String × Option String)
  system_lpm =
      if tools.exists "/usr/include/libprotobuf-mutator"
      then some ("/usr", none)
      else if tools.exists "/usr/local/include/libprotobuf-mutator"
      then some ("/usr/local", none)
      else none

  abbrev pub lpm_tool : String → Option String
  lpm_tool name = or_text (Toolchain.resolve_tool tools cfg name (some "fuzzing")) none

  abbrev pub local_lpm : Option (String × Option String)
  local_lpm =
      let root = toolchain_dir <> "/libprotobuf-mutator" in
      if tools.exists (root <> "/build/src/libprotobuf-mutator.a")
      then some (root, some (root <> "/build"))
      else system_lpm

  unfoldable pub resolve_lpm_paths : Option (String × Option String)
  resolve_lpm_paths = elim (lpm_tool "lpm-root") [
    | none ↦ local_lpm
    | some root ↦ elim (lpm_tool "lpm-build") [
      | none ↦ local_lpm
      | some build ↦ some (root, some build)
    ]
  ]
