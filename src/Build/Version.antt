-- ===== src/Build/Version.antt =====
-- framework/src/apatchy/compat.py: `extract_version_from_path`, and `Config.get_apache_dir` of
-- framework/src/apatchy/config.py.
use apatchy.Base.{
  String, ◌<>◌, Bool, Option, none, some, ◌&&◌, if◌then◌else◌, ◌==◌, string_eq, ◌>>=◌, leb, eqb,
}
use Prim.Native.Char.{Char, code}

abbrev pub is_digit : Char → Bool
is_digit c = leb 48 (code c) && leb (code c) 57

-- `\d+` at the start of a text, in ASCII: the digits and what follows them.
abbrev pub span_digits : String → String × String
span_digits String.[] = ("", "")
span_digits (String.◌∷◌ c s) =
    let rest = span_digits s in
    if is_digit c then (String.◌∷◌ c rest.0, rest.1) else ("", String.◌∷◌ c s)

abbrev pub number : String → Option (String × String)
number s = let found = span_digits s in if found.0 == "" then none else some found

-- `\.` at the start
abbrev pub dot : String → Option String
dot String.[] = none
dot (String.◌∷◌ c s) = if eqb (code c) 46 then some s else none

-- `(\d+\.\d+\.\d+)` at the start of a text
unfoldable pub match_version : String → Option String
match_version s = number s >>= λ a. dot a.1 >>= λ s1. number s1 >>= λ b.
    dot b.1 >>= λ s2. number s2 >>= λ c. some (a.0 <> ("." <> (b.0 <> ("." <> c.0))))

-- The text after a prefix that it starts with.
abbrev pub remove_prefix : String → String → Option String
remove_prefix String.[] s = some s
remove_prefix (String.◌∷◌ d p) String.[] = none
remove_prefix (String.◌∷◌ d p) (String.◌∷◌ c s) =
    let rest = remove_prefix p s in if eqb (code c) (code d) then rest else none

-- On the name of a directory.
unfoldable pub extract_version_from_path : String → Option String
extract_version_from_path name = remove_prefix "httpd-" name >>= match_version

-- The name of the directory for a version.
abbrev pub apache_dir : String → String
apache_dir version = "httpd-" <> version
