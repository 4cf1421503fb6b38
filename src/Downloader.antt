-- ===== src/Downloader.antt =====
-- framework/src/apatchy/core/downloader.py: `Downloader`, the download of Apache and of what it bundles.
-- A disk says what stands at a path, which is the list of its parts from the work directory.
-- Parameters: what a server answers to an address, and what an archive unpacks to.
pub mod Versions
pub mod Complete
pub mod Refused
mod Dependencies
mod Paths
mod Targets
mod Tests
use apatchy.Base.{
  String, ◌<>◌, Bool, true, false, not, ◌&&◌, Option, none, some, List, [], ◌∷◌, ◌++◌,
  if◌then◌else◌, ◌==◌, string_eq, parts_eq, is_some,
}
use apatchy.Base.Dict.{Dict, lookup}
use apatchy.BuildTree.{name_of}
use apatchy.BuildTree.Text.{replace}
use apatchy.Build.{or_text}

abbrev pub Parts : Type 0
Parts = List String

pub data Node : Type 0 where
  directory : Node
  file : String → Node

abbrev pub Contents : Type 0
Contents = Parts → Option Node

-- `requests.get` and `raise_for_status` raise; the transfer breaks off; or it ends.
pub data Answer : Type 0 where
  refuses : Answer
  breaks ends : String → Answer

-- The entries that an archive with this content unpacks to, their directories included, and whether
-- `extractall` ends without an exception.
pub record Net : Type 0 where
  pub fetch : String → Answer
  pub unpack : String → Dict Parts Node × Bool

-- The disk, and the addresses that were asked, the last one first.
pub record Local : Type 0 where
  pub disk : Contents
  pub asked : List String

pub data Result : Type 0 where
  ok raised : Local → Result

abbrev pub and_then : Result → (Local → Result) → Result
and_then (ok s) f = f s
and_then (raised s) f = raised s

-- `try: ... except Exception: ...`
abbrev pub on_exception : Result → (Local → Result) → Result
on_exception (ok s) f = ok s
on_exception (raised s) f = f s

abbrev pub on_disk : (Contents → Contents) → Local → Local
on_disk f s = record { disk = f s.disk; asked = s.asked }

abbrev pub exists : Parts → Local → Bool
exists p s = is_some (s.disk p)

-- The rest of a path below a directory, if it is below it or is the directory.
unfoldable pub below : Parts → Parts → Option Parts
below [] p = some p
below (a ∷ dir) [] = none
below (a ∷ dir) (b ∷ p) = let rest = below dir p in if a == b then rest else none

abbrev pub put : Parts → Node → Contents → Contents
put q e d p = if p == q then some e else d p

abbrev pub remove : Parts → Contents → Contents
remove q d p = if p == q then none else d p

abbrev pub remove_tree : Parts → Contents → Contents
remove_tree q d p = if is_some (below q p) then none else d p

abbrev pub put_all : Parts → Dict Parts Node → Contents → Contents
put_all dir members d p = elim (below dir p) [
  | none ↦ d p
  | some rest ↦ elim (lookup rest members) [ none ↦ d p | some e ↦ some e ]
]

abbrev pub rename : Parts → Parts → Contents → Contents
rename from to d p = elim (below to p) [
  | some rest ↦ d (from ++ rest)
  | none ↦ if is_some (below from p) then none else d p
]

-- `(dir / name).mkdir(exist_ok=True)`
abbrev pub mkdir_at : Option Node → Option Node → Parts → Local → Result
mkdir_at (some directory) up p s = ok s
mkdir_at (some (file _)) up p s = raised s
mkdir_at none (some directory) p s = ok (on_disk (put p directory) s)
mkdir_at none (some (file _)) p s = raised s
mkdir_at none none p s = raised s

abbrev pub mkdir : Parts → String → Local → Result
mkdir dir name s = mkdir_at (s.disk (dir ++ name ∷ [])) (s.disk dir) (dir ++ name ∷ []) s

-- `open(filename, "wb")` and its writes
abbrev pub write_at : Option Node → String → String → Local → Result
write_at (some directory) filename text s = raised s
write_at (some (file _)) filename text s = ok (on_disk (put (filename ∷ []) (file text)) s)
write_at none filename text s = ok (on_disk (put (filename ∷ []) (file text)) s)

abbrev pub write : String → String → Local → Result
write filename text s = write_at (s.disk (filename ∷ [])) filename text s

-- What `tarfile.open` reads.
abbrev pub content_of : Option Node → Option String
content_of (some (file text)) = some text
content_of (some directory) = none
content_of none = none

module _ (net : Net) where
  abbrev pub receive : Answer → String → Local → Result
  receive refuses filename s = raised s
  receive (breaks text) filename s = and_then (write filename text s) (λ t. raised t)
  receive (ends text) filename s = write filename text s

  -- `_download_file`
  unfoldable pub download_file : String → String → Local → Result
  download_file url filename s =
      receive (net.fetch url) filename (record { disk = s.disk; asked = url ∷ s.asked })

  -- `tar.extractall(path=dir)` on an archive that can be opened.
  abbrev pub extract_members : Parts → Dict Parts Node × Bool → Local → Result
  extract_members dir (members, whole) s =
      let t = on_disk (put_all dir members) s in if whole then ok t else raised t

  abbrev pub extract_text : Option String → Parts → Local → Result
  extract_text none dir s = raised s
  extract_text (some text) dir s = extract_members dir (net.unpack text) s

  unfoldable pub extract_all : String → Parts → Local → Result
  extract_all filename dir s = extract_text (content_of (s.disk (filename ∷ []))) dir s

  -- The directory that an archive unpacks to gets the name of the target, whatever stood there.
  abbrev pub take_name : Parts → String → String → Contents → Contents
  take_name parent extracted target d =
      rename (parent ++ extracted ∷ []) (parent ++ target ∷ [])
        (remove_tree (parent ++ target ∷ []) d)

  unfoldable pub move_extracted : Parts → String → String → Local → Local
  move_extracted parent extracted target s =
      if exists (parent ++ extracted ∷ []) s && not (extracted == target)
      then on_disk (take_name parent extracted target) s
      else s

  -- `_download_and_extract`
  unfoldable pub download_and_extract : String → Parts → String → Local → Result
  download_and_extract url parent target s =
      let filename = name_of url in
      and_then (download_file url filename s) (λ t. and_then (extract_all filename parent t) (λ u.
        ok (
          on_disk (remove (filename ∷ []))
            (move_extracted parent (replace ".tar.gz" "" filename) target u))))

  -- One dependency: nothing if it is there.
  unfoldable pub fetch_missing : String → Parts → String → Local → Result
  fetch_missing url parent target s =
      if exists (parent ++ target ∷ []) s then ok s else download_and_extract url parent target s

  abbrev pub apr_url : String
  apr_url = "https://dlcdn.apache.org/apr/apr-1.7.6.tar.gz"

  abbrev pub apr_util_url : String
  apr_util_url = "https://dlcdn.apache.org/apr/apr-util-1.6.3.tar.gz"

  abbrev pub expat_url : String
  expat_url = "https://github.com/libexpat/libexpat/releases/download/R_2_6_4/expat-2.6.4.tar.gz"

  -- `_download_dependencies`, for the directory with this name
  unfoldable pub download_dependencies : String → Local → Result
  download_dependencies root s =
      let srclib = root ∷ "srclib" ∷ [] in
      and_then (mkdir (root ∷ []) "srclib" s) (λ t.
        and_then (fetch_missing apr_url srclib "apr" t) (λ u.
          and_then (fetch_missing apr_util_url srclib "apr-util" u) (λ v.
            and_then (mkdir (root ∷ "srclib" ∷ "apr-util" ∷ []) "xml" v) (λ w.
              fetch_missing expat_url (root ∷ "srclib" ∷ "apr-util" ∷ "xml" ∷ []) "expat" w))))

  abbrev pub deps_exist : String → Local → Bool
  deps_exist root s =
      exists (root ∷ "srclib" ∷ "apr" ∷ []) s
      && (exists (root ∷ "srclib" ∷ "apr-util" ∷ []) s
          && exists (root ∷ "srclib" ∷ "apr-util" ∷ "xml" ∷ "expat" ∷ []) s)

  abbrev pub mirror_url : String → String
  mirror_url tarball = "https://dlcdn.apache.org/httpd/" <> tarball

  abbrev pub archive_url : String → String
  archive_url tarball = "https://archive.apache.org/dist/httpd/" <> tarball

  -- From the mirror, and if that raises, from the archive.
  unfoldable pub download_tarball : String → Local → Result
  download_tarball tarball s =
      on_exception (download_file (mirror_url tarball) tarball s)
        (λ t. download_file (archive_url tarball) tarball t)

  abbrev pub version_or_default : Option String → String
  version_or_default version = elim (or_text version none) [ none ↦ "2.4.46" | some v ↦ v ]

  abbrev pub root_of : Option String → String
  root_of version = "httpd-" <> version_or_default version

  unfoldable pub download_new : Option String → Local → Result
  download_new version s =
      let tarball = root_of version <> ".tar.gz" in
      and_then (download_tarball tarball s) (λ t.
        and_then (extract_all tarball [] t)
          (λ u. download_dependencies (root_of version) (on_disk (remove (tarball ∷ [])) u)))

  unfoldable pub download_apache : Option String → Local → Result
  download_apache version s =
      if exists (root_of version ∷ []) s
      then if deps_exist (root_of version) s
        then ok s
        else download_dependencies (root_of version) s
      else download_new version s
