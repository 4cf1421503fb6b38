-- ===== src/Downloader/Refused.antt =====
-- `download_apache` of core/downloader.py where no server has the archive.
use apatchy.Base.{
  String, ◌<>◌, Bool, true, false, ◌≡◌, refl, Option, none, some, List, [], ◌∷◌, string_eq,
  parts_eq, arith, ◌∙◌,
}
use apatchy.Downloader.{
  Parts, Node, directory, file, Answer, refuses, breaks, ends, Net, Local, Result, raised, and_then,
  exists, write_at, receive, remove, download_file, download_tarball, download_new, download_apache,
  root_of, mirror_url, archive_url,
}

-- Whether a transfer ends.
abbrev pub is_whole : Answer → Bool
is_whole refuses = false
is_whole (breaks text) = false
is_whole (ends text) = true

-- A call that raises an exception after it has asked an address, where at most a file has changed.
abbrev pub Raises : List String → Parts → Local → Result → Type 0
Raises asked p s r =
    (t : Local) × (r ≡ raised t)
    × (t.asked ≡ asked)
    × ((q : Parts) → remove p t.disk q ≡ remove p s.disk q)

module _ (net : Net) where
  write_at-Raises :
      (o : Option Node) (name text : String) (s : Local)
      → Raises s.asked (name ∷ []) s (and_then (write_at o name text s) (λ t. raised t))
  write_at-Raises none name text s = (_, refl, refl, λ q. ground arith)
  write_at-Raises (some directory) name text s = (_, refl, refl, λ q. refl)
  write_at-Raises (some (file t)) name text s = (_, refl, refl, λ q. ground arith)

  receive-Raises :
      (a : Answer) (name : String) (s : Local)
      → is_whole a ≡ false
      → Raises s.asked (name ∷ []) s (receive net a name s)
  receive-Raises refuses name s h = (s, refl, refl, λ q. refl)
  receive-Raises (breaks text) name s h = write_at-Raises (s.disk (name ∷ [])) name text s
  receive-Raises (ends text) name s h = ground arith

  download_file-Raises :
      (url name : String) (s : Local)
      → is_whole (net.fetch url) ≡ false
      → Raises (url ∷ s.asked) (name ∷ []) s (download_file net url name s)
  unfolding download_file
  download_file-Raises url name s h =
      receive-Raises (net.fetch url) name (record { disk = s.disk; asked = url ∷ s.asked }) h

  download_tarball-Raises :
      (tarball : String) (s : Local)
      → is_whole (net.fetch (mirror_url net tarball)) ≡ false
      → is_whole (net.fetch (archive_url net tarball)) ≡ false
      → Raises
          (archive_url net tarball ∷ mirror_url net tarball ∷ s.asked)
          (tarball ∷ [])
          s
          (download_tarball net tarball s)
  unfolding download_tarball
  download_tarball-Raises tarball s h k =
      let (t, e, a, d) = download_file-Raises (mirror_url net tarball) tarball s h in
      let (u, f, b, c) = download_file-Raises (archive_url net tarball) tarball t k in
      (u, rw e f, rw b (rw a refl), λ q. c q ∙ d q)

  -- If there is no tree of the version and neither the mirror nor the archive sends the whole
  -- tarball, both are asked, in this order, and nothing else is; an exception is raised; and no path
  -- but the tarball's has changed.
  pub download_apache-Raises :
      (version : Option String) (s : Local)
      → let tarball = root_of net version <> ".tar.gz" in
        exists (root_of net version ∷ []) s ≡ false
        → is_whole (net.fetch (mirror_url net tarball)) ≡ false
        → is_whole (net.fetch (archive_url net tarball)) ≡ false
        → Raises
            (archive_url net tarball ∷ mirror_url net tarball ∷ s.asked)
            (tarball ∷ [])
            s
            (download_apache net version s)
  unfolding download_apache download_new
  download_apache-Raises version s n h k =
      let (t, e, a, d) = download_tarball-Raises (root_of net version <> ".tar.gz") s h k in
      (t, rw n (rw e refl), a, d)
