-- ===== src/Introspector/Outputs.antt =====
-- managers/introspector_manager.py: the output that a command for the bitcode names, and what the loop
-- over the arguments of an entry leaves out.
use apatchy.Base.{
  not, ◌&&◌, contains-append, ℕ, zero, suc, String, Bool, true, false, ◌≡◌, refl, ◌∙◌, List, [],
  ◌∷◌, ◌++◌, if◌then◌else◌, ◌==◌, contains, string_eq, arith, All, ==-self,
}
use apatchy.Base.Text.{starts_with}
use apatchy.Introspector.{copy_args, is_load}

-- An argument "-oNAME": its output stands behind the flag in one argument.
abbrev pub is_joined : String → Bool
is_joined a = starts_with a "-o" && not (a == "-o")

abbrev pub behind_flag : String → String
behind_flag (String.◌∷◌ c (String.◌∷◌ d s)) = s
behind_flag s = s

-- What a compiler takes for the names of its output: the argument after each "-o", and what stands
-- behind "-o" in each longer argument.
abbrev pub outputs : List String → List String
outputs [] = []
outputs (a ∷ []) = if is_joined a then behind_flag a ∷ [] else []
outputs (a ∷ b ∷ args) =
    let after = outputs args in
    let rest = outputs (b ∷ args) in
    if a == "-o" then b ∷ after else if is_joined a then behind_flag a ∷ rest else rest

abbrev pub NoJoined : List String → Type 0
NoJoined args = All (λ a. is_joined a ≡ false) args

abbrev pub NoSanitizer : List String → Type 0
NoSanitizer args = All (λ a. starts_with a "-fsanitize=" ≡ false) args

outputs-other :
    (arg : String) (args : List String)
    → (arg == "-o") ≡ false
    → is_joined arg ≡ false
    → outputs (arg ∷ args) ≡ outputs args
outputs-other arg [] h j = rw j refl
outputs-other arg (next ∷ args) h j = rw (j, h) refl

outputs-named :
    (name : String) (args : List String) → outputs ("-o" ∷ name ∷ args) ≡ name ∷ outputs args
unfolding string_eq
outputs-named name args = refl

pub starts_with-nil : (s : String) → starts_with s "" ≡ true
unfolding starts_with
starts_with-nil String.[] = refl
starts_with-nil (String.◌∷◌ c s) = refl

pub plain_w : (◌==◌ {A = String} "-w" "-o") ≡ false
unfolding string_eq
plain_w = refl

pub plain_emit : (◌==◌ {A = String} "-emit-llvm" "-o") ≡ false
unfolding string_eq
plain_emit = refl

pub plain_joined :
    (is_joined "-w" ≡ false) × (is_joined "-emit-llvm" ≡ false) × (is_joined "-o" ≡ false)
unfolding starts_with string_eq
plain_joined = (refl, refl, refl)

pub plain_o : starts_with "-o" "-fsanitize=" ≡ false
unfolding starts_with
plain_o = refl

pub contains-cons :
    (a x : String) (xs : List String) → contains xs a ≡ true → contains (x ∷ xs) a ≡ true
contains-cons a x xs h = ground arith

pub contains-end :
    (args : List String) (output : String) → contains (args ++ "-o" ∷ output ∷ []) "-o" ≡ true
contains-end args output =
    ground (arith, contains-append args ("-o" ∷ output ∷ []) "-o", ==-self {A = String} "-o")

pub is_load-other :
    (arg : String) (args : List String) → (arg == "-Xclang") ≡ false → is_load arg args ≡ false
is_load-other arg [] h = refl
is_load-other arg (next ∷ args) h = ground arith

module _ (output : String) where
  pub copy_args-NoSanitizer :
      (skip : ℕ) (args : List String)
      → starts_with output "-fsanitize=" ≡ false
      → NoSanitizer (copy_args output skip args)
  unfolding copy_args
  copy_args-NoSanitizer skip [] h = tt
  copy_args-NoSanitizer (suc skip) (arg ∷ args) h = copy_args-NoSanitizer skip args h
  copy_args-NoSanitizer zero (arg ∷ args) h = ground (
    arith,
    plain_o,
    copy_args-NoSanitizer 0 args h,
    copy_args-NoSanitizer 1 args h,
    copy_args-NoSanitizer 3 args h,
  )

  -- Each output that is named in a command is the given one.
  abbrev pub OneOutput : List String → Type 0
  OneOutput args = All (λ o. o ≡ output) (outputs args)

  pub OneOutput-named : (args : List String) → OneOutput args → OneOutput ("-o" ∷ output ∷ args)
  OneOutput-named args h = rw (outputs-named output args) (refl, h)

  pub OneOutput-other :
      (arg : String) (args : List String)
      → (arg == "-o") ≡ false
      → is_joined arg ≡ false
      → OneOutput args
      → OneOutput (arg ∷ args)
  OneOutput-other arg args k j h = rw (outputs-other arg args k j) h

  pub copy_args-NoJoined :
      (skip : ℕ) (args : List String)
      → is_joined output ≡ false
      → NoJoined args
      → NoJoined (copy_args output skip args)
  unfolding copy_args
  copy_args-NoJoined skip [] o j = tt
  copy_args-NoJoined (suc skip) (arg ∷ args) o (j, js) = copy_args-NoJoined skip args o js
  copy_args-NoJoined zero (arg ∷ args) o (j, js) = ground (
    arith,
    o,
    j,
    plain_joined,
    copy_args-NoJoined 0 args o js,
    copy_args-NoJoined 1 args o js,
    copy_args-NoJoined 3 args o js,
  )

  pub copy_args-OneOutput :
      (skip : ℕ) (args : List String) → NoJoined args → OneOutput (copy_args output skip args)
  unfolding copy_args
  copy_args-OneOutput skip [] j = tt
  copy_args-OneOutput (suc skip) (arg ∷ args) (j, js) = copy_args-OneOutput skip args js
  copy_args-OneOutput zero (arg ∷ []) (j, js) = ground (arith, j)
  copy_args-OneOutput zero (arg ∷ next ∷ args) (j, js) = ground (
    arith,
    OneOutput-named _ (copy_args-OneOutput 1 (next ∷ args) js),
    copy_args-OneOutput 3 (next ∷ args) js,
    copy_args-OneOutput 0 (next ∷ args) js,
    (λ (k : (arg == "-o") ≡ false).
        OneOutput-other arg _ k j (copy_args-OneOutput 0 (next ∷ args) js)),
  )

  pub outputs-append :
      (args tail : List String)
      → contains args "-o" ≡ false
      → NoJoined args
      → outputs (args ++ tail) ≡ outputs tail
  outputs-append [] tail h j = refl
  outputs-append (arg ∷ args) tail h (j, js) =
      let k : (arg == "-o") ≡ false = ground arith in
      let l : contains args "-o" ≡ false = ground arith in
      outputs-other arg (args ++ tail) k j ∙ outputs-append args tail l js
