-- ===== src/Build/Meta.antt =====
-- framework/src/apatchy/core/build_meta.py: `BuildMeta`. The file is held by the dictionary that
-- `json` reads from it. The program does not check the types of the values: where one is of another
-- type than its field, it goes on with an object that no record here stands for. `load` says `none`
-- there, which is then no exception.
use apatchy.Base.{
  String, Bool, true, false, ◌≡◌, ◌∙◌, refl, Option, none, some, [], ◌∷◌, ◌++◌, if◌then◌else◌,
  contains, string_eq, ◌>>=◌, arith, ap,
}
use apatchy.Base.Dict.{Dict, lookup}

pub data Json : Type 0 where
  null other : Json
  flag : Bool → Json
  text : String → Json

abbrev pub MetaFile : Type 0
MetaFile = Dict String Json

pub record BuildMeta : Type 0 where
  pub tree : String
  pub cc : String
  pub cflags : String
  pub ldflags : String
  pub asan : Bool
  pub ubsan : Bool
  pub ubsan_ignorelist : Option String
  pub intsan : Bool
  pub truncsan : Bool
  pub httpd_version : String
  pub config_hash : String

abbrev optional_text : Option String → Json
optional_text none = null
optional_text (some s) = text s

-- What `save` writes: `asdict(self)`.
unfoldable pub save : BuildMeta → MetaFile
save m =
    ("tree", text m.tree)
    ∷ ("cc", text m.cc)
    ∷ ("cflags", text m.cflags)
    ∷ ("ldflags", text m.ldflags)
    ∷ ("asan", flag m.asan)
    ∷ ("ubsan", flag m.ubsan)
    ∷ ("ubsan_ignorelist", optional_text m.ubsan_ignorelist)
    ∷ ("intsan", flag m.intsan)
    ∷ ("truncsan", flag m.truncsan)
    ∷ ("httpd_version", text m.httpd_version)
    ∷ ("config_hash", text m.config_hash)
    ∷ []

unfoldable pub is_field : String → Bool
is_field name =
    contains
      ("tree" ∷ "cc" ∷ "cflags" ∷ "ldflags" ∷ "asan" ∷ "ubsan" ∷ "ubsan_ignorelist" ∷ "intsan"
        ∷ "truncsan" ∷ "httpd_version" ∷ "config_hash" ∷ [])
      name

abbrev pub filter_known : MetaFile → MetaFile
filter_known [] = []
filter_known ((k, v) ∷ items) =
    let rest = filter_known items in if is_field k then (k, v) ∷ rest else rest

-- An argument of the constructor, with the default of its field where it has one.
abbrev pub text_field : Option Json → Option String → Option String
text_field none default = default
text_field (some (text s)) default = some s
text_field (some _) default = none

abbrev pub flag_field : Option Json → Option Bool
flag_field none = some false
flag_field (some (flag b)) = some b
flag_field (some _) = none

abbrev pub optional_field : Option Json → Option (Option String)
optional_field none = some none
optional_field (some null) = some none
optional_field (some (text s)) = some (some s)
optional_field (some _) = none

-- `cls(**filtered)`: a tree is required. Where all values have the types of their fields, `none` is the
-- `TypeError` of a missing tree.
unfoldable pub construct : MetaFile → Option BuildMeta
construct d = text_field (lookup "tree" d) none >>= λ tree.
    text_field (lookup "cc" d) (some "clang") >>= λ cc.
    text_field (lookup "cflags" d) (some "") >>= λ cflags.
    text_field (lookup "ldflags" d) (some "") >>= λ ldflags.
    flag_field (lookup "asan" d) >>= λ asan. flag_field (lookup "ubsan" d) >>= λ ubsan.
    optional_field (lookup "ubsan_ignorelist" d) >>= λ ubsan_ignorelist.
    flag_field (lookup "intsan" d) >>= λ intsan. flag_field (lookup "truncsan" d) >>= λ truncsan.
    text_field (lookup "httpd_version" d) (some "") >>= λ httpd_version.
    text_field (lookup "config_hash" d) (some "") >>= λ config_hash. some (record {
      tree = tree;
      cc = cc;
      cflags = cflags;
      ldflags = ldflags;
      asan = asan;
      ubsan = ubsan;
      ubsan_ignorelist = ubsan_ignorelist;
      intsan = intsan;
      truncsan = truncsan;
      httpd_version = httpd_version;
      config_hash = config_hash;
    })

-- With the file, if there is one; `none` is the `FileNotFoundError`.
unfoldable pub load : Option MetaFile → Option BuildMeta
load none = none
load (some items) = construct (filter_known items)

abbrev pub has_known : MetaFile → Bool
has_known [] = false
has_known ((k, v) ∷ items) = if is_field k then true else has_known items

filter_known-append :
    (d more : MetaFile) → filter_known (d ++ more) ≡ filter_known d ++ filter_known more
filter_known-append [] more = refl
filter_known-append ((k, v) ∷ d) more = ground (arith, filter_known-append d more)

filter_known_nil : (more : MetaFile) → has_known more ≡ false → filter_known more ≡ []
filter_known_nil [] h = refl
filter_known_nil ((k, v) ∷ more) h = ground (arith, filter_known_nil more)

optional_field_lem : (o : Option String) → optional_field (some (optional_text o)) ≡ some o
optional_field_lem none = refl
optional_field_lem (some s) = refl

construct-save : (m : BuildMeta) → construct (filter_known (save m) ++ []) ≡ some m
unfolding construct save is_field string_eq
construct-save m = rw (optional_field_lem m.ubsan_ignorelist) refl

-- What is saved is loaded again, field by field, also from a file to which a later version of the
-- program has added keys that this one does not know.
pub load-save :
    (m : BuildMeta) (more : MetaFile)
    → has_known more ≡ false
    → load (some (save m ++ more)) ≡ some m
unfolding load
load-save m more h =
    ap construct (
      filter_known-append (save m) more
      ∙ ap (λ d. filter_known (save m) ++ d) (filter_known_nil more h))
    ∙ construct-save m
