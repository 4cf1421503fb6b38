-- ===== src/Base/Text.antt =====
-- Python's methods on `str`, over the native texts. A character is compared by its code point.
use Prim.Native.Nat.{ℕ, zero, suc, ◌+◌, ◌-◌, ◌*◌}
use Prim.Native.Char.{Char, code}
use Prim.Native.String.{String, ◌++◌ as ◌<>◌}
use mathlib.Core.Bool.{Bool, true, false, ◌&&◌, ◌||◌}
use mathlib.Core.Option.{Option, none, some}
use mathlib.Core.List.{List, [], ◌∷◌}
use apatchy.Base.Tests.{if◌then◌else◌, eqb, leb}
use apatchy.Base.Equality.{◌==◌, string_eq}

-- `len(s)`
abbrev pub size : String → ℕ
size String.[] = 0
size (String.◌∷◌ c s) = suc (size s)

-- `s[:n]` for `n` that is not negative
abbrev pub take : ℕ → String → String
take zero s = ""
take (suc n) String.[] = ""
take (suc n) (String.◌∷◌ c s) = String.◌∷◌ c (take n s)

-- `s.startswith(p)`
unfoldable pub starts_with : String → String → Bool
starts_with s String.[] = true
starts_with String.[] (String.◌∷◌ d p) = false
starts_with (String.◌∷◌ c s) (String.◌∷◌ d p) = eqb (code c) (code d) && starts_with s p

-- `s.endswith(p)`
unfoldable pub ends_with : String → String → Bool
ends_with String.[] p = p == ""
ends_with (String.◌∷◌ c s) p = String.◌∷◌ c s == p || ends_with s p

-- `p in s`
unfoldable pub has_text : String → String → Bool
has_text p String.[] = p == ""
has_text p (String.◌∷◌ c s) = starts_with (String.◌∷◌ c s) p || has_text p s

-- `s.split(sep)` for a separator of one character
abbrev pub push_char : Char → List String → List String
push_char c [] = String.◌∷◌ c "" ∷ []
push_char c (word ∷ words) = String.◌∷◌ c word ∷ words

unfoldable pub split_on : ℕ → String → List String
split_on sep String.[] = "" ∷ []
split_on sep (String.◌∷◌ c s) =
    let rest = split_on sep s in if eqb (code c) sep then "" ∷ rest else push_char c rest

-- The ASCII part of what `str.split()` and `str.strip()` take for white space.
abbrev pub is_space : Char → Bool
is_space c = let n = code c in eqb n 32 || (leb 9 n && leb n 13) || (leb 28 n && leb n 31)

abbrev pub drop_empty : List String → List String
drop_empty [] = []
drop_empty (String.[] ∷ words) = drop_empty words
drop_empty (String.◌∷◌ c w ∷ words) = String.◌∷◌ c w ∷ drop_empty words

unfoldable pub split_spaces : String → List String
split_spaces String.[] = "" ∷ []
split_spaces (String.◌∷◌ c s) =
    let rest = split_spaces s in if is_space c then "" ∷ rest else push_char c rest

-- `s.split()`
unfoldable pub split : String → List String
unfolding split_spaces
split s = drop_empty (split_spaces s)

-- `s.lstrip()`, `s.rstrip()` and `s.strip()`
abbrev lstrip : String → String
lstrip String.[] = ""
lstrip (String.◌∷◌ c s) = let rest = lstrip s in if is_space c then rest else String.◌∷◌ c s

abbrev rstrip_onto : Char → String → String
rstrip_onto c String.[] = if is_space c then "" else String.◌∷◌ c ""
rstrip_onto c (String.◌∷◌ d s) = String.◌∷◌ c (String.◌∷◌ d s)

abbrev pub rstrip : String → String
rstrip String.[] = ""
rstrip (String.◌∷◌ c s) = rstrip_onto c (rstrip s)

unfoldable pub strip : String → String
strip s = rstrip (lstrip s)

-- `sep.join(words)`
abbrev pub join : String → List String → String
join sep [] = ""
join sep (word ∷ []) = word
join sep (word ∷ next ∷ words) = word <> (sep <> join sep (next ∷ words))

-- `int(s)` on decimal digits; `none` is the `ValueError`.
abbrev pub digits : ℕ → String → Option ℕ
digits n String.[] = some n
digits n (String.◌∷◌ c s) =
    let d = code c in
    let rest = digits (n * 10 + (d - 48)) s in if leb 48 d && leb d 57 then rest else none

unfoldable pub int : String → Option ℕ
int String.[] = none
int (String.◌∷◌ c s) = digits 0 (String.◌∷◌ c s)

-- The character of `to` that stands where `c` stands in `from`, and `c` if it stands nowhere.
abbrev translate : Char → String → String → Char
translate c (String.◌∷◌ a from) (String.◌∷◌ b to) =
    let rest = translate c from to in if eqb (code c) (code a) then b else rest
translate c from to = c

-- `s.lower()` on ASCII
unfoldable pub lower : String → String
lower String.[] = ""
lower (String.◌∷◌ c s) =
    String.◌∷◌ (translate c "ABCDEFGHIJKLMNOPQRSTUVWXYZ" "abcdefghijklmnopqrstuvwxyz") (lower s)

-- `s.upper()` on ASCII
unfoldable pub upper : String → String
upper String.[] = ""
upper (String.◌∷◌ c s) =
    String.◌∷◌ (translate c "abcdefghijklmnopqrstuvwxyz" "ABCDEFGHIJKLMNOPQRSTUVWXYZ") (upper s)
