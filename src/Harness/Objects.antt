-- ===== src/Harness/Objects.antt =====
-- `_build_proto_harness` of core/harness.py: what is compiled and what is linked.
use apatchy.Base.{
  subst, ◌<>◌, String, ◌≡◌, refl, ◌||◌, List, [], ◌∷◌, ◌++◌, ◌==◌, string_eq, contains,
  contains-append, arith, Bool-cases, inl, inr, if◌then◌else◌,
}
use apatchy.Harness.{HarnessFlags}
use apatchy.Harness.Tags.{Tags}
use apatchy.Harness.Proto.{
  Layout, Proto, CompileStep, object_file, compile_object, harness_cflags, c_cflags, pb_steps,
  main_steps, converter_steps, extra_steps, compile_steps, dests, linked_objects,
}

module _ (y : Layout) (p : Proto) (tags : Tags) (mode : String) (f : HarnessFlags) where
  contains-dests :
      (xs ys : List CompileStep) (a : String)
      → contains (dests y p tags mode f (xs ++ ys)) a
        ≡ (contains (dests y p tags mode f xs) a || contains (dests y p tags mode f ys) a)
  contains-dests [] ys a = refl
  contains-dests (x ∷ xs) ys a = ground (arith, contains-dests xs ys a)

  -- The same objects, in two orders.
  either_order :
      (a : String) (h c b m : CompileStep) (pbs mains convs extras : List CompileStep)
      → let d : List CompileStep → List String = dests y p tags mode f in
        contains
          (h.dest ∷ (d convs ++ (c.dest ∷ (d extras ++ (d pbs ++ (b.dest ∷ m.dest ∷ d mains))))))
          a
        ≡ contains (d (pbs ++ (h ∷ (mains ++ (convs ++ (c ∷ (extras ++ (b ∷ m ∷ [])))))))) a
  either_order a h c b m pbs mains convs extras =
      let d : List CompileStep → List String = dests y p tags mode f in
      let t1 = extras ++ (b ∷ m ∷ []) in
      let t2 = convs ++ (c ∷ t1) in
      let t3 = mains ++ t2 in
      let u1 = b.dest ∷ m.dest ∷ d mains in
      let u2 = d pbs ++ u1 in
      let u3 = d extras ++ u2 in
      ground (
        arith,
        contains-dests pbs (h ∷ t3) a,
        contains-dests mains t2 a,
        contains-dests convs (c ∷ t1) a,
        contains-dests extras (b ∷ m ∷ []) a,
        contains-append (d pbs) u1 a,
        contains-append (d extras) u2 a,
        contains-append (d convs) (c.dest ∷ u3) a,
      )

  main_object :
      dests y p tags mode f (main_steps y p tags mode f)
      ≡ (if mode == "profile" then object_file y p tags mode f "harness_main.lo" ∷ [] else [])
  main_object = elim (Bool-cases (mode == "profile")) [ inl e ↦ rw e refl | inr e ↦ rw e refl ]

  -- The objects that a harness of protobuf is linked from are those that its steps compile.
  pub linked_objects-compile_steps :
      (a : String)
      → contains (linked_objects y p tags mode f) a
        ≡ contains (dests y p tags mode f (compile_steps y p tags mode f)) a
  unfolding linked_objects compile_steps
  linked_objects-compile_steps a =
      let h =
        compile_object y p tags mode f y.harness_src "fuzz_harness.lo"
          (harness_cflags y p tags mode f) p.cxx in
      let c =
        compile_object y p tags mode f (y.harness_dir <> "/fuzz_common.c") "fuzz_common.lo"
          (c_cflags y p tags mode f) p.c_cc in
      let b =
        compile_object y p tags mode f (y.httpd_root <> "/server/buildmark.c") "buildmark.lo"
          (c_cflags y p tags mode f) p.c_cc in
      let m =
        compile_object y p tags mode f (y.httpd_root <> "/modules.c") "modules.lo"
          (c_cflags y p tags mode f) p.c_cc in
      let pbs = pb_steps y p tags mode f in
      let mains = main_steps y p tags mode f in
      let convs = converter_steps y p tags mode f in
      let extras = extra_steps y p tags mode f in
      let d : List CompileStep → List String = dests y p tags mode f in
      subst
        (λ l.
          contains (h.dest ∷ (d convs ++ (c.dest ∷ (d extras ++ (d pbs ++ (b.dest ∷ m.dest ∷ l))))))
            a
          ≡ contains (d (compile_steps y p tags mode f)) a)
        main_object (either_order a h c b m pbs mains convs extras)
