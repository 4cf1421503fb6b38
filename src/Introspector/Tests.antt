-- ===== src/Introspector/Tests.antt =====
-- The bitcode of concrete entries, and the theorems at concrete inputs.
use apatchy.Base.{
  if◌then◌else◌, ◌+◌, String, true, not, ◌≡◌, refl, Option, some, none, List, [], ◌∷◌, ◌==◌,
  string_eq, length, keep, All,
}
use apatchy.Base.Text.{starts_with, ends_with, split_on, split, lower, int, has_text}
use apatchy.Introspector.{
  Entry, clang_major_version, version_in, filter_entries, is_excluded, bitcode_command, copy_args,
  globals_in, select, link_targets, is_excluded_file,
}
use apatchy.Introspector.Commands.{Completed, bitcode_command-Completed}
use apatchy.Introspector.Linking.{AreDisjoint, clashes, link_targets-AreDisjoint}

major : clang_major_version (some "Ubuntu clang version 18.1.3 (1)\nTarget: x") ≡ some 18
unfolding clang_major_version version_in split_on split lower int has_text starts_with string_eq
major = refl

abbrev entry : String → Entry
entry file = record { file = file; arguments = []; command = ""; directory = none }

taken :
    filter_entries (split_on 47) (("" ∷ "httpd" ∷ []) ∷ []) (
      entry "/httpd/server/log.c"
      ∷ entry "/httpd/test/a.c"
      ∷ entry "/usr/b.c"
      ∷ entry "/httpd/c.cc"
      ∷ [])
    ≡ entry "/httpd/server/log.c" ∷ []
unfolding split_on ends_with string_eq is_excluded
taken = refl

abbrev words : List String
words =
    "gcc" ∷ "-fsanitize=address" ∷ "-Xclang" ∷ "-load" ∷ "-Xclang" ∷ "p.so" ∷ "-o" ∷ "a.o" ∷ "-c"
    ∷ "a.c" ∷ []

command :
    bitcode_command "clang" "a.bc" words
    ≡ some ("clang" ∷ "-w" ∷ "-emit-llvm" ∷ "-o" ∷ "a.bc" ∷ "-c" ∷ "a.c" ∷ [])
unfolding bitcode_command copy_args starts_with string_eq
command = refl

abbrev nm : String → Option String
nm file =
    if file == "a.bc"
    then some "00 T main\n10 t local"
    else if file == "b.bc"
    then some "00 D main\n"
    else some "00 T other\n10 t local"

linked :
    link_targets (λ f. f) nm ("a.bc" ∷ "exports.bc" ∷ "b.bc" ∷ "c.bc" ∷ [])
    ≡ ("a.bc" ∷ "c.bc" ∷ [], "b.bc" ∷ [])
unfolding link_targets select globals_in is_excluded_file split split_on string_eq
linked = refl

bitcode_command-Completed_example :
    (rest : List String) × (bitcode_command "clang" "a.bc" words ≡ some ("clang" ∷ rest))
    × Completed "a.bc" ("-w" ∷ "-emit-llvm" ∷ "-o" ∷ []) rest
unfolding starts_with string_eq
bitcode_command-Completed_example =
    bitcode_command-Completed "clang" "a.bc" "gcc"
      ("-fsanitize=address" ∷ "-Xclang" ∷ "-load" ∷ "-Xclang" ∷ "p.so" ∷ "-o" ∷ "a.o" ∷ "-c" ∷ "a.c"
        ∷ [])
      refl refl (refl, (refl, (refl, (refl, (refl, (refl, (refl, (refl, (refl, tt)))))))))

-- An output that is joined with its flag stays in the command.
joined_output :
    bitcode_command "clang" "a.bc" ("gcc" ∷ "-c" ∷ "-oa.o" ∷ "a.c" ∷ [])
    ≡ some ("clang" ∷ "-w" ∷ "-emit-llvm" ∷ "-c" ∷ "-oa.o" ∷ "a.c" ∷ "-o" ∷ "a.bc" ∷ [])
unfolding bitcode_command copy_args starts_with string_eq
joined_output = refl

link_targets-AreDisjoint_example :
    AreDisjoint nm (link_targets (λ f. f) nm ("a.bc" ∷ "b.bc" ∷ [])).0
    × All
        (λ file. clashes nm (link_targets (λ f. f) nm ("a.bc" ∷ "b.bc" ∷ [])).0 file ≡ true)
        (link_targets (λ f. f) nm ("a.bc" ∷ "b.bc" ∷ [])).1
    × length (link_targets (λ f. f) nm ("a.bc" ∷ "b.bc" ∷ [])).0
        + length (link_targets (λ f. f) nm ("a.bc" ∷ "b.bc" ∷ [])).1
      ≡ length (keep (λ file. not (is_excluded_file file)) ("a.bc" ∷ "b.bc" ∷ []))
link_targets-AreDisjoint_example = link_targets-AreDisjoint nm (λ f. f) ("a.bc" ∷ "b.bc" ∷ [])
