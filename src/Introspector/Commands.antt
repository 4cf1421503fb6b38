-- ===== src/Introspector/Commands.antt =====
-- `IntrospectorManager.build_bitcode` of managers/introspector_manager.py: the command of one entry.
use apatchy.Base.{
  String, Bool, true, false, ◌≡◌, refl, ◌∙◌, some, List, [], ◌∷◌, ◌++◌, if◌then◌else◌, ◌==◌,
  contains, string_eq, arith, All, All-append, All-map, ==-self, eq_of_==, sym, subst,
}
use apatchy.Base.Text.{starts_with}
use apatchy.Introspector.{copy_args, ensure_flag, ensure_output, bitcode_command}
use apatchy.Introspector.Outputs.{
  is_joined, NoJoined, NoSanitizer, starts_with-nil, plain_w, plain_emit, plain_joined, plain_o,
  contains-cons, contains-end, is_load-other, copy_args-NoSanitizer, OneOutput, OneOutput-named,
  OneOutput-other, copy_args-NoJoined, copy_args-OneOutput, outputs-append,
}

module _ (output : String) where
  -- The command after the compiler, in the steps that complete it.
  abbrev pub Completed : List String → List String → Type 0
  Completed flags args =
      OneOutput output args × NoSanitizer args × All (λ flag. contains args flag ≡ true) flags

  Completed-add_output :
      (args : List String) (has : Bool)
      → contains args "-o" ≡ has
      → starts_with output "-fsanitize=" ≡ false
      → NoJoined args
      → OneOutput output args
      → NoSanitizer args
      → Completed ("-o" ∷ []) (if has then args else args ++ "-o" ∷ output ∷ [])
  Completed-add_output args true k h j one clean = (one, clean, (k, tt))
  Completed-add_output args false k h j one clean = (
    rw (outputs-append output args ("-o" ∷ output ∷ []) k j) (OneOutput-named output [] tt),
    All-append _ args ("-o" ∷ output ∷ []) clean (plain_o, (h, tt)),
    (contains-end args output, tt),
  )

  Completed-insert :
      (flag : String) (flags args : List String) (has : Bool)
      → contains args flag ≡ has
      → (flag == "-o") ≡ false
      → is_joined flag ≡ false
      → starts_with flag "-fsanitize=" ≡ false
      → Completed flags args
      → Completed (flag ∷ flags) (if has then args else flag ∷ args)
  Completed-insert flag flags args true m k j l (one, clean, held) = (one, clean, (m, held))
  Completed-insert flag flags args false m k j l (one, clean, held) = (
    OneOutput-other output flag args k j one,
    (l, clean),
    (
      ground (arith, ==-self flag),
      All-map (λ f. contains args f ≡ true) (λ f. contains (flag ∷ args) f ≡ true)
          (λ f h. contains-cons f flag args h) flags held,
    ),
  )

no_dash :
    (s flag : String)
    → starts_with s "-" ≡ false
    → starts_with flag "-" ≡ true
    → ((s == flag) ≡ false) × ((flag == s) ≡ false)
no_dash s flag h k =
    let same : (s == flag) ≡ true → true ≡ false =
      λ e. sym k ∙ subst (λ t. starts_with t "-" ≡ false) (eq_of_== s flag e) h in
    ground (arith, same)

no_sanitizer : (s : String) → starts_with s "-" ≡ false → starts_with s "-fsanitize=" ≡ false
unfolding starts_with
no_sanitizer String.[] h = refl
no_sanitizer (String.◌∷◌ c s) h = ground (arith, starts_with-nil s)

no_joined : (s : String) → starts_with s "-" ≡ false → is_joined s ≡ false
unfolding starts_with
no_joined String.[] h = refl
no_joined (String.◌∷◌ c s) h = ground (arith, starts_with-nil s)

module _ (cc output : String) where
  copy_args-cc :
      (args : List String)
      → starts_with cc "-" ≡ false
      → copy_args output 0 (cc ∷ args) ≡ cc ∷ copy_args output 0 args
  unfolding copy_args starts_with
  copy_args-cc args h = ground (
    arith,
    no_dash cc "-o" h refl,
    no_dash cc "-fno-experimental-new-pass-manager" h refl,
    is_load-other cc args (no_dash cc "-Xclang" h refl).0,
    no_sanitizer cc h,
  )

  ensure_flag-cc :
      (flag : String) (args : List String)
      → (flag == cc) ≡ false
      → ensure_flag flag (cc ∷ args) ≡ cc ∷ (if contains args flag then args else flag ∷ args)
  ensure_flag-cc flag args h = ground arith

  ensure_output-cc :
      (args : List String)
      → (◌==◌ {A = String} "-o" cc) ≡ false
      → ensure_output output (cc ∷ args)
        ≡ cc ∷ (if contains args "-o" then args else args ++ "-o" ∷ output ∷ [])
  ensure_output-cc args h = ground arith

  -- For a compiler and an output that do not start with a dash, each entry with arguments, of which
  -- none is -o joined with a name, becomes a command that starts with the compiler, has no
  -- `-fsanitize=` argument, names no output but the given one, joined with -o or not, and has the flags
  -- -w, -emit-llvm and -o.
  pub bitcode_command-Completed :
      (arg : String) (args : List String)
      → starts_with cc "-" ≡ false
      → starts_with output "-" ≡ false
      → NoJoined args
      → (rest : List String) × (bitcode_command cc output (arg ∷ args) ≡ some (cc ∷ rest))
        × Completed output ("-w" ∷ "-emit-llvm" ∷ "-o" ∷ []) rest
  unfolding bitcode_command starts_with
  bitcode_command-Completed arg args h k j =
      let copied = copy_args output 0 args in
      let named : List String =
        if contains copied "-o" then copied else copied ++ "-o" ∷ output ∷ [] in
      let emitted : List String =
        if contains named "-emit-llvm" then named else "-emit-llvm" ∷ named in
      let final : List String = if contains emitted "-w" then emitted else "-w" ∷ emitted in
      (
        final,
        rw
            (
              copy_args-cc args h,
              ensure_output-cc copied (no_dash cc "-o" h refl).1,
              ensure_flag-cc "-emit-llvm" named (no_dash cc "-emit-llvm" h refl).1,
              ensure_flag-cc "-w" emitted (no_dash cc "-w" h refl).1,
            )
            refl,
        Completed-insert output "-w" ("-emit-llvm" ∷ "-o" ∷ []) emitted (contains emitted "-w") refl
            plain_w plain_joined.0 refl
            (Completed-insert output "-emit-llvm" ("-o" ∷ []) named (contains named "-emit-llvm")
              refl plain_emit plain_joined.1 refl
              (Completed-add_output output copied (contains copied "-o") refl
                (no_sanitizer output k) (copy_args-NoJoined output 0 args (no_joined output k) j)
                (copy_args-OneOutput output 0 args j)
                (copy_args-NoSanitizer output 0 args (no_sanitizer output k)))),
      )
