-- ===== src/Downloader/Tests.antt =====
-- A concrete server and a concrete disk, and the theorems at concrete inputs.
use apatchy.Base.{
  String, true, false, ◌≡◌, refl, some, none, List, [], ◌∷◌, string_eq, parts_eq, is_some, subst,
  ap, ==-self, arith, inl, inr, or_default, if◌then◌else◌,
}
use apatchy.Base.Dict.{Dict, lookup}
use apatchy.Base.Text.{split_on, starts_with, ends_with, int}
use apatchy.BuildTree.{name_of}
use apatchy.BuildTree.Text.{replace}
use apatchy.Downloader.{
  Parts, Node, directory, file, Answer, refuses, breaks, ends, Net, Local, Result, ok, raised,
  below, download_file, extract_all, move_extracted, download_and_extract, fetch_missing,
  download_dependencies, download_tarball, download_new, download_apache, apr_url, apr_util_url,
  expat_url,
}
use apatchy.Downloader.Targets.{Unpacks}
use apatchy.Downloader.Complete.{IsComplete, UnpacksRoot, download_apache-IsComplete}
use apatchy.Downloader.Refused.{is_whole, Raises, download_apache-Raises}
use apatchy.Downloader.Versions.{
  Tag, Listed, list_versions, sort_versions, extract_versions, version_of_link, version_key, IsList,
  list_versions-IsList,
}

-- Every address answers with itself, and an archive has the directory of its name.
abbrev unpacked : String → Dict Parts Node
unpacked url =
    let dir = replace ".tar.gz" "" (name_of url) in
    (dir ∷ [], directory) ∷ (dir ∷ "README" ∷ [], file "") ∷ []

abbrev net : Net
net = record { fetch = λ url. ends url; unpack = λ text. (unpacked text, true) }

abbrev start : Local
start = record { disk = λ p. none; asked = [] }

abbrev state_of : Result → Local
state_of (ok s) = s
state_of (raised s) = s

after : Local
after = state_of (download_apache net (some "2.4.62") start)

downloads : download_apache net (some "2.4.62") start ≡ ok after
unfolding after download_apache download_new download_tarball download_dependencies fetch_missing
    download_and_extract move_extracted extract_all download_file below name_of replace split_on
    starts_with string_eq parts_eq
downloads = refl

-- The addresses that it asked, the last one first.
asks :
    after.asked
    ≡ expat_url net
      ∷ apr_util_url net
      ∷ apr_url net
      ∷ "https://dlcdn.apache.org/httpd/httpd-2.4.62.tar.gz"
      ∷ []
unfolding after download_apache download_new download_tarball download_dependencies fetch_missing
    download_and_extract move_extracted extract_all download_file below name_of replace split_on
    starts_with string_eq parts_eq
asks = refl

ends_of : Answer → String
ends_of refuses = ""
ends_of (breaks text) = text
ends_of (ends text) = text

unpacks : (url : String) → Unpacks net url
unfolding ends_of
unpacks url text e =
    subst (λ t. is_some (lookup (replace ".tar.gz" "" (name_of url) ∷ []) (unpacked t)) ≡ true)
      (ap ends_of e) (ground (arith, ==-self (replace ".tar.gz" "" (name_of url) ∷ [])))

unpacks_root : UnpacksRoot net (some "2.4.62")
unfolding ends_of name_of replace split_on starts_with string_eq parts_eq
unpacks_root text (inl e) =
    subst (λ t. is_some (lookup ("httpd-2.4.62" ∷ []) (unpacked t)) ≡ true) (ap ends_of e) refl
unpacks_root text (inr e) =
    subst (λ t. is_some (lookup ("httpd-2.4.62" ∷ []) (unpacked t)) ≡ true) (ap ends_of e) refl

download_apache-IsComplete_example :
    IsComplete net (some "2.4.62") after × (download_apache net (some "2.4.62") after ≡ ok after)
download_apache-IsComplete_example =
    download_apache-IsComplete net (some "2.4.62") start after unpacks_root
      (unpacks (apr_url net), unpacks (apr_util_url net), unpacks (expat_url net)) downloads

-- A mirror that breaks off, and an archive without the version.
abbrev bad_net : Net
bad_net = record {
  fetch = λ url. if starts_with url "https://archive" then refuses else breaks "x";
  unpack = λ text. ([], false);
}

refuses_all :
    (is_whole (bad_net.fetch "https://dlcdn.apache.org/httpd/httpd-2.4.46.tar.gz") ≡ false)
    × (is_whole (bad_net.fetch "https://archive.apache.org/dist/httpd/httpd-2.4.46.tar.gz") ≡ false)
unfolding starts_with
refuses_all = (refl, refl)

download_apache-Raises_example :
    Raises
      ("https://archive.apache.org/dist/httpd/httpd-2.4.46.tar.gz"
        ∷ "https://dlcdn.apache.org/httpd/httpd-2.4.46.tar.gz" ∷ [])
      ("httpd-2.4.46.tar.gz" ∷ [])
      start
      (download_apache bad_net none start)
download_apache-Raises_example =
    download_apache-Raises bad_net none start refl (refuses_all.0) (refuses_all.1)

abbrev link : String → Tag
link href = record { name = "a"; attrs = ("href", some href) ∷ [] }

abbrev page : List Tag
page =
    link "httpd-2.4.10.tar.gz"
    ∷ link "httpd-2.4.9.tar.gz"
    ∷ link "httpd-2.4.16-deps.tar.gz"
    ∷ link "httpd-2.4.9.tar.gz"
    ∷ []

rows : List Listed
rows =
    or_default
      (list_versions (some page) (some (link "httpd-2.4.10.tar.gz" ∷ [])) ("httpd-2.4.9" ∷ [])) []

lists :
    list_versions (some page) (some (link "httpd-2.4.10.tar.gz" ∷ [])) ("httpd-2.4.9" ∷ [])
    ≡ some rows
unfolding rows list_versions sort_versions extract_versions version_of_link version_key int replace
    split_on starts_with ends_with string_eq
lists = refl

sorted : extract_versions page ≡ "2.4.10" ∷ "2.4.9" ∷ []
unfolding extract_versions version_of_link replace starts_with ends_with string_eq
sorted = refl

-- The number of a version may be missing, which ends the list with a `ValueError`.
no_number : list_versions (some (link "httpd-2.4..tar.gz" ∷ [])) none [] ≡ none
unfolding list_versions sort_versions extract_versions version_of_link version_key int replace
    split_on starts_with ends_with string_eq
no_number = refl

list_versions-IsList_example :
    IsList page (some (link "httpd-2.4.10.tar.gz" ∷ [])) ("2.4.9" ∷ []) rows
list_versions-IsList_example =
    list_versions-IsList page (some (link "httpd-2.4.10.tar.gz" ∷ [])) ("2.4.9" ∷ []) rows lists
