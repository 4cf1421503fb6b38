-- ===== src/Downloader/Complete.antt =====
-- `download_apache` of core/downloader.py: what a download leaves, and what a second one does.
use apatchy.Base.{
  String, ◌<>◌, true, false, ◌≡◌, Option, some, [], ◌∷◌, ◌==◌, string_eq, parts_eq, arith,
  Bool-cases, inl, inr, is_some, subst, sym, ◌⊎◌,
}
use apatchy.Base.Dict.{lookup}
use apatchy.Base.Substrings.{append-other}
use apatchy.Downloader.{
  ends, Net, Local, ok, exists, download_tarball, download_new, download_apache, deps_exist,
  download_file, extract_all, extract_text, content_of, on_disk, remove, root_of,
  version_or_default, mirror_url, archive_url, download_dependencies,
}
use apatchy.Downloader.Paths.{
  WhenOk, WhenOk-map, WhenOk-on_exception, WhenOk-and_then, WhenOk-both, Has,
}
use apatchy.Downloader.Targets.{download_file-Downloaded, extract_members-Has_it}
use apatchy.Downloader.Dependencies.{
  HasAll, UnpacksAll, one_part, download_dependencies-HasAll, download_dependencies-Has_root,
}

module _ (net : Net) where
  -- What the mirror or the archive answers in full.
  abbrev pub Offered : Option String → String → Type 0
  Offered version text =
      let tarball = root_of net version <> ".tar.gz" in
      (net.fetch (mirror_url net tarball) ≡ ends text)
      ⊎ (net.fetch (archive_url net tarball) ≡ ends text)

  -- The archive of Apache unpacks to the directory of the version.
  abbrev pub UnpacksRoot : Option String → Type 0
  UnpacksRoot version =
      (text : String)
      → Offered version text
      → is_some (lookup (root_of net version ∷ []) ((net.unpack text).0)) ≡ true

  -- The tarball that is there, and was offered.
  abbrev Got : Option String → Local → Type 0
  Got version s =
      (text : String) × Offered version text
      × (content_of (s.disk ((root_of net version <> ".tar.gz") ∷ [])) ≡ some text)

  download_tarball-Got :
      (version : Option String) (s : Local)
      → WhenOk (Got version) (download_tarball net (root_of net version <> ".tar.gz") s)
  unfolding download_tarball
  download_tarball-Got version s =
      let tarball = root_of net version <> ".tar.gz" in
      let mirror = mirror_url net tarball in
      let archive = archive_url net tarball in
      WhenOk-on_exception (Got version) (download_file net mirror tarball s)
        (λ t. download_file net archive tarball t)
        (WhenOk-map (λ t (text, e, c). (text, inl e, c)) (download_file net mirror tarball s)
          (download_file-Downloaded net mirror tarball s))
        (λ t.
          WhenOk-map (λ u (text, e, c). (text, inr e, c)) (download_file net archive tarball t)
            (download_file-Downloaded net archive tarball t))

  -- A tree with what it bundles.
  abbrev pub IsComplete : Option String → Local → Type 0
  IsComplete version s = Has (root_of net version ∷ []) s × HasAll net (root_of net version) s

  download_new-IsComplete :
      (version : Option String) (s : Local)
      → UnpacksRoot version
      → UnpacksAll net
      → WhenOk (IsComplete version) (download_new net version s)
  unfolding download_new extract_all
  download_new-IsComplete version s unpacks all =
      let root = root_of net version in
      let tarball = root <> ".tar.gz" in
      let P = IsComplete version in
      let other : ((root ∷ []) == (tarball ∷ [])) ≡ false =
        one_part net root tarball (ground (arith, append-other root ".tar.gz" (omega arith))) in
      WhenOk-and_then (Got version) P (download_tarball net tarball s) _
        (download_tarball-Got version s)
        (λ t (text, offered, content).
          WhenOk-and_then (Has (root ∷ [])) P (extract_all net tarball [] t) _
            (subst (λ o. WhenOk (Has (root ∷ [])) (extract_text net o [] t)) (sym content)
              (extract_members-Has_it net [] root (net.unpack text) t (unpacks text offered)))
            (λ u h.
              let v = on_disk (remove (tarball ∷ [])) u in
              WhenOk-both _ _ (download_dependencies net root v)
                (download_dependencies-Has_root net (version_or_default net version) v
                  (ground (arith, h, other)))
                (download_dependencies-HasAll net root v all)))

  download_apache-WhenOk :
      (version : Option String) (s : Local)
      → UnpacksRoot version
      → UnpacksAll net
      → WhenOk (IsComplete version) (download_apache net version s)
  unfolding download_apache
  download_apache-WhenOk version s unpacks all =
      let root = root_of net version in
      elim (Bool-cases (exists (root ∷ []) s)) [
        | inr e ↦ rw e (download_new-IsComplete version s unpacks all)
        | inl e ↦ elim (Bool-cases (deps_exist net root s)) [
          | inl d ↦ rw (e, d) (ground (arith, e, d))
          | inr d ↦
              rw (e, d)
                (WhenOk-both _ _ (download_dependencies net root s)
                  (download_dependencies-Has_root net (version_or_default net version) s e)
                  (download_dependencies-HasAll net root s all))
        ]
      ]

  download_apache_again :
      (version : Option String) (t : Local)
      → IsComplete version t
      → download_apache net version t ≡ ok t
  unfolding download_apache
  download_apache_again version t (a, h) = ground (arith, a, h.0, h.1.0, h.1.1)

  -- If the archives unpack to the directories of their names, a download that does not raise an
  -- exception leaves the tree of the version with APR, APR-Util and Expat in it, and the same download
  -- then asks no server and changes nothing.
  pub download_apache-IsComplete :
      (version : Option String) (s t : Local)
      → UnpacksRoot version
      → UnpacksAll net
      → download_apache net version s ≡ ok t
      → IsComplete version t × (download_apache net version t ≡ ok t)
  download_apache-IsComplete version s t unpacks all e =
      let done : IsComplete version t =
        subst (WhenOk (IsComplete version)) e (download_apache-WhenOk version s unpacks all) in
      (done, download_apache_again version t done)
