-- ===== src/Downloader/Versions.antt =====
-- `_extract_versions` and `list_versions` of core/downloader.py.
-- Parameters: the start tags that the HTML parser finds in a page, and the names on the disk.
use apatchy.Base.{
  ◌<>◌, All, ℕ, ◌-◌, String, Bool, true, false, not, ◌&&◌, ◌||◌, ◌≡◌, refl, Option, none, some,
  List, [], ◌∷◌, ◌++◌, if◌then◌else◌, ◌==◌, string_eq, contains, is_some, or_default, ◌>>=◌, ltb,
  eqb, all, map, arith, bind-eq-some, subst, sym, ap, ◌∙◌,
}
use text.Mathlib.TextLemmas.{cons-append, nil-append}
use mathlib.Core.Path.{ap₂}
use mathlib.Core.Option.{some-injective}
use apatchy.Base.Text.{starts_with, ends_with, take, size, split_on, int}
use apatchy.BuildTree.Text.{replace}
use apatchy.Build.Version.{is_digit, remove_prefix}

pub record Tag : Type 0 where
  pub name : String
  pub attrs : List (String × Option String)

-- `s.removesuffix(suffix)`
abbrev pub remove_suffix : String → String → String
remove_suffix suffix s = if ends_with s suffix then take (size s - size suffix) s else s

-- `s.removeprefix(prefix)`
abbrev pub without_prefix : String → String → String
without_prefix prefix s = or_default (remove_prefix prefix s) s

-- `s.isdigit()`, in ASCII
abbrev pub all_digits : String → Bool
all_digits String.[] = true
all_digits (String.◌∷◌ c s) = is_digit c && all_digits s

abbrev pub is_number : String → Bool
is_number s = not (s == "") && all_digits s

-- `versions.add(version)`, in the order of the first additions
abbrev pub add : String → List String → List String
add v versions = if contains versions v then versions else versions ++ v ∷ []

-- The version that a link names.
unfoldable pub version_of_link : String → Option String → Option String
version_of_link name none = none
version_of_link name (some value) =
    let version = remove_suffix ".tar.gz" (without_prefix "httpd-" value) in
    if name == "href" && (starts_with value "httpd-2.4." && ends_with value ".tar.gz")
    then if is_number (replace "." "" version) then some version else none
    else none

abbrev pub add_link : Option String → List String → List String
add_link none versions = versions
add_link (some v) versions = add v versions

abbrev pub add_attrs : List (String × Option String) → List String → List String
add_attrs [] versions = versions
add_attrs ((name, value) ∷ attrs) versions =
    add_attrs attrs (add_link (version_of_link name value) versions)

-- `handle_starttag`
abbrev pub handle_starttag : Tag → List String → List String
handle_starttag tag versions = if tag.name == "a" then add_attrs tag.attrs versions else versions

abbrev pub feed : List Tag → List String → List String
feed [] versions = versions
feed (tag ∷ tags) versions = feed tags (handle_starttag tag versions)

unfoldable pub extract_versions : List Tag → List String
extract_versions tags = feed tags []

abbrev pub mirror_versions : Option (List Tag) → List String
mirror_versions none = []
mirror_versions (some tags) = extract_versions tags

-- `list(map(int, v.split(".")))`
abbrev pub ints : List String → Option (List ℕ)
ints [] = some []
ints (word ∷ words) = int word >>= λ n. ints words >>= λ rest. some (n ∷ rest)

unfoldable pub version_key : String → Option (List ℕ)
version_key v = ints (split_on 46 v)

-- `<` of lists
abbrev pub less : List ℕ → List ℕ → Bool
less [] [] = false
less [] (b ∷ bs) = true
less (a ∷ as') [] = false
less (a ∷ as') (b ∷ bs) = ltb a b || (eqb a b && less as' bs)

abbrev pub before : String → String → Bool
before v w = less (or_default (version_key v) []) (or_default (version_key w) [])

abbrev pub insert_version : String → List String → List String
insert_version v [] = v ∷ []
insert_version v (w ∷ ws) =
    let rest = insert_version v ws in if before w v then w ∷ rest else v ∷ w ∷ ws

abbrev pub sort : List String → List String
sort [] = []
sort (v ∷ vs) = insert_version v (sort vs)

-- `sorted(versions, version_key=...)`; `none` is the `ValueError` of `int`.
unfoldable pub sort_versions : List String → Option (List String)
sort_versions vs = if all (λ v. is_some (version_key v)) vs then some (sort vs) else none

pub record Listed : Type 0 where
  pub version : String
  pub mirror : Bool
  pub downloaded : Bool

abbrev pub listed : List String → List String → String → Listed
listed on_mirror local_dirs v = record {
  version = v;
  mirror = contains on_mirror v;
  downloaded = contains local_dirs v;
}

-- With the two pages, where a request does not fail, and the names of the directories httpd-2.4.*.
unfoldable pub list_versions :
    Option (List Tag) → Option (List Tag) → List String → Option (List Listed)
list_versions none mirror names = none
list_versions (some archive) mirror names =
    let on_mirror = mirror_versions mirror in
    let local_dirs = map (without_prefix "httpd-") names in
    sort_versions (extract_versions archive) >>= λ versions.
    some (map (listed on_mirror local_dirs) versions)

-- No version is before the one that it follows.
abbrev pub IsSorted : List String → Type 0
IsSorted [] = Unit
IsSorted (v ∷ []) = Unit
IsSorted (v ∷ w ∷ vs) = (before w v ≡ false) × IsSorted (w ∷ vs)

less_asym : (a b : List ℕ) → less a b ≡ true → less b a ≡ false
less_asym [] [] h = ground arith
less_asym [] (b ∷ bs) h = refl
less_asym (a ∷ as') [] h = ground arith
less_asym (a ∷ as') (b ∷ bs) h = ground (arith, less_asym as' bs)

before_asym : (v w : String) → before v w ≡ true → before w v ≡ false
before_asym v w h = less_asym (or_default (version_key v) []) (or_default (version_key w) []) h

insert_version-IsSorted :
    (v : String) (vs : List String) → IsSorted vs → IsSorted (insert_version v vs)
insert_version-IsSorted v [] h = tt
insert_version-IsSorted v (w ∷ []) h = ground (arith, before_asym w v)
insert_version-IsSorted v (w ∷ x ∷ vs) (h, hs) =
    ground (arith, before_asym w v, h, hs, insert_version-IsSorted v (x ∷ vs) hs)

sort-IsSorted : (vs : List String) → IsSorted (sort vs)
sort-IsSorted [] = tt
sort-IsSorted (v ∷ vs) = insert_version-IsSorted v (sort vs) (sort-IsSorted vs)

contains-insert_version :
    (v w : String) (vs : List String) → contains (insert_version v vs) w ≡ (w == v || contains vs w)
contains-insert_version v w [] = refl
contains-insert_version v w (x ∷ vs) = ground (arith, contains-insert_version v w vs)

contains-sort : (vs : List String) (w : String) → contains (sort vs) w ≡ contains vs w
contains-sort [] w = refl
contains-sort (v ∷ vs) w = ground (arith, contains-insert_version v w (sort vs), contains-sort vs w)

sort_versions-cases : (vs ws : List String) → sort_versions vs ≡ some ws → ws ≡ sort vs
unfolding sort_versions
sort_versions-cases vs ws h = ground arith

without_prefix-append : (p s : String) → remove_prefix p (p <> s) ≡ some s
without_prefix-append String.[] s = rw (nil-append s) refl
without_prefix-append (String.◌∷◌ d p) s =
    rw (cons-append d p s) (ground (arith, without_prefix-append p s))

names-without_prefix :
    (dirs : List String) → map (without_prefix "httpd-") (map (λ d. "httpd-" <> d) dirs) ≡ dirs
names-without_prefix [] = refl
names-without_prefix (d ∷ dirs) =
    ap₂ (λ x xs. x ∷ xs) (ap (λ o. or_default o ("httpd-" <> d)) (without_prefix-append "httpd-" d))
      (names-without_prefix dirs)

-- What a row says of its version, for the page of the mirror and what stands behind `httpd-` in the
-- names of the directories.
abbrev pub IsMarked : Option (List Tag) → List String → Listed → Type 0
IsMarked none dirs row = (row.mirror ≡ false) × (row.downloaded ≡ contains dirs row.version)
IsMarked (some page) dirs row =
    (row.mirror ≡ contains (extract_versions page) row.version)
    × (row.downloaded ≡ contains dirs row.version)

IsMarked-listed :
    (mirror : Option (List Tag)) (names dirs : List String) (v : String)
    → map (without_prefix "httpd-") names ≡ dirs
    → IsMarked mirror dirs (listed (mirror_versions mirror) (map (without_prefix "httpd-") names) v)
IsMarked-listed none names dirs v e = (refl, ap (λ l. contains l v) e)
IsMarked-listed (some page) names dirs v e = (refl, ap (λ l. contains l v) e)

AreMarked :
    (mirror : Option (List Tag)) (names dirs vs : List String)
    → map (without_prefix "httpd-") names ≡ dirs
    → All
        (IsMarked mirror dirs)
        (map (listed (mirror_versions mirror) (map (without_prefix "httpd-") names)) vs)
AreMarked mirror names dirs [] e = tt
AreMarked mirror names dirs (v ∷ vs) e =
    (IsMarked-listed mirror names dirs v e, AreMarked mirror names dirs vs e)

map-version :
    (on_mirror local_dirs vs : List String)
    → map (λ row. row.version) (map (listed on_mirror local_dirs) vs) ≡ vs
map-version on_mirror local_dirs [] = refl
map-version on_mirror local_dirs (v ∷ vs) = ap (λ l. v ∷ l) (map-version on_mirror local_dirs vs)

-- The rows of a list of versions.
abbrev pub IsList : List Tag → Option (List Tag) → List String → List Listed → Type 0
IsList archive mirror dirs rows =
    IsSorted (map (λ row. row.version) rows)
    × ((w : String)
        → contains (map (λ row. row.version) rows) w ≡ contains (extract_versions archive) w)
    × All (IsMarked mirror dirs) rows

-- If the directories are named `httpd-` with something behind it, the list that does not raise an
-- exception has the versions of the archive's page, and no others, so that none comes before an
-- earlier one by its numbers; each row says that its version is on the mirror exactly if there is a
-- page of the mirror that has it, and that it is downloaded exactly if there is a directory `httpd-`
-- with the version behind it.
pub list_versions-IsList :
    (archive : List Tag) (mirror : Option (List Tag)) (dirs : List String) (rows : List Listed)
    → list_versions (some archive) mirror (map (λ d. "httpd-" <> d) dirs) ≡ some rows
    → IsList archive mirror dirs rows
unfolding list_versions
list_versions-IsList archive mirror dirs rows h =
    let names = map (λ d. "httpd-" <> d) dirs in
    let found = extract_versions archive in
    let on_mirror = mirror_versions mirror in
    let local_dirs = map (without_prefix "httpd-") names in
    let mark = listed on_mirror local_dirs in
    let (vs, e, r) = bind-eq-some (sort_versions found) (λ versions. some (map mark versions)) h in
    let same = sort_versions-cases found vs e in
    let versions = map-version on_mirror local_dirs vs ∙ same in
    subst (IsList archive mirror dirs) (some-injective _ _ r) (
      subst IsSorted (sym versions) (sort-IsSorted found),
      λ w. ap (λ l. contains l w) versions ∙ contains-sort found w,
      AreMarked mirror names dirs vs (names-without_prefix dirs),
    )
