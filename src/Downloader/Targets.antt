-- ===== src/Downloader/Targets.antt =====
-- `_download_and_extract` of core/downloader.py puts what an archive holds at the target.
use apatchy.Base.{
  String, Bool, true, false, ◌≡◌, refl, sym, Option, none, some, [], ◌∷◌, ◌++◌, ◌==◌, string_eq,
  parts_eq, is_some, arith, ==-self, subst,
}
use apatchy.Base.Dict.{Dict, lookup}
use apatchy.BuildTree.{name_of}
use apatchy.BuildTree.Text.{replace}
use apatchy.Downloader.{
  Parts, Node, directory, file, Answer, refuses, breaks, ends, Net, Local, ok, raised, and_then,
  write, write_at, receive, download_file, extract_all, extract_members, extract_text, content_of,
  move_extracted, download_and_extract, on_disk, remove,
}
use apatchy.Downloader.Paths.{
  WhenOk, WhenOk-and_then, WhenOk-map, WhenOk-any, Has, below_self, below-append, below-other,
  append_nil,
}

module _ (net : Net) where
  -- What has been downloaded from an address is a file.
  abbrev pub Downloaded : String → String → Local → Type 0
  Downloaded url name s =
      (text : String) × (net.fetch url ≡ ends text) × (content_of (s.disk (name ∷ [])) ≡ some text)

  write_at-content :
      (o : Option Node) (name text : String) (s : Local)
      → WhenOk (λ t. content_of (t.disk (name ∷ [])) ≡ some text) (write_at o name text s)
  write_at-content none name text s = ground (arith, ==-self (name ∷ []))
  write_at-content (some directory) name text s = tt
  write_at-content (some (file t)) name text s = ground (arith, ==-self (name ∷ []))

  receive-Downloaded :
      (url name : String) (a : Answer)
      → net.fetch url ≡ a
      → (s : Local) → WhenOk (Downloaded url name) (receive net a name s)
  receive-Downloaded url name refuses e s = tt
  receive-Downloaded url name (breaks text) e s =
      WhenOk-and_then (λ t. Unit) (Downloaded url name) (write name text s) (λ t. raised t)
        (WhenOk-any (write name text s)) (λ t u. tt)
  receive-Downloaded url name (ends text) e s =
      WhenOk-map (λ t c. (text, e, c)) (write name text s)
        (write_at-content (s.disk (name ∷ [])) name text s)

  pub download_file-Downloaded :
      (url name : String) (s : Local) → WhenOk (Downloaded url name) (download_file net url name s)
  unfolding download_file
  download_file-Downloaded url name s =
      let asked : Local = record { disk = s.disk; asked = url ∷ s.asked } in
      receive-Downloaded url name (net.fetch url) refl asked

  -- An archive that ends has the directory of its name.
  abbrev pub Unpacks : String → Type 0
  Unpacks url =
      (text : String)
      → net.fetch url ≡ ends text
      → is_some (lookup (replace ".tar.gz" "" (name_of url) ∷ []) ((net.unpack text).0)) ≡ true

  pub extract_members-Has_it :
      (parent : Parts) (extracted : String) (u : Dict Parts Node × Bool) (s : Local)
      → is_some (lookup (extracted ∷ []) (u.0)) ≡ true
      → WhenOk (Has (parent ++ extracted ∷ [])) (extract_members net parent u s)
  extract_members-Has_it parent extracted (members, true) s h =
      ground (arith, below-append parent (extracted ∷ []))
  extract_members-Has_it parent extracted (members, false) s h = tt

  move_extracted-Has_target :
      (parent : Parts) (extracted target : String) (s : Local)
      → (extracted == target) ≡ false
      → Has (parent ++ extracted ∷ []) s
      → Has (parent ++ target ∷ []) (move_extracted net parent extracted target s)
  unfolding move_extracted
  move_extracted-Has_target parent extracted target s n h =
      let other : (target == extracted) ≡ false = ground (arith, n) in
      ground (
        arith,
        h,
        n,
        below_self (parent ++ target ∷ []),
        append_nil (parent ++ extracted ∷ []),
        below-other parent target extracted other,
      )

  -- The target is there after a download.
  pub download_and_extract-Has_target :
      (url : String) (parent : Parts) (target : String) (s : Local)
      → Unpacks url
      → (replace ".tar.gz" "" (name_of url) == target) ≡ false
      → ((parent ++ target ∷ []) == (name_of url ∷ [])) ≡ false
      → WhenOk (Has (parent ++ target ∷ [])) (download_and_extract net url parent target s)
  unfolding download_and_extract extract_all
  download_and_extract-Has_target url parent target s unpacks n c =
      let name = name_of url in
      let extracted = replace ".tar.gz" "" name in
      let goal = parent ++ target ∷ [] in
      let finish : Local → Local =
        λ u. on_disk (remove (name ∷ [])) (move_extracted net parent extracted target u) in
      WhenOk-and_then (Downloaded url name) (Has goal) (download_file net url name s)
        (λ t. and_then (extract_all net name parent t) (λ u. ok (finish u)))
        (download_file-Downloaded url name s)
        (λ t (text, e, content).
          WhenOk-and_then (Has (parent ++ extracted ∷ [])) (Has goal)
            (extract_all net name parent t) (λ u. ok (finish u))
            (subst (λ o. WhenOk (Has (parent ++ extracted ∷ [])) (extract_text net o parent t))
              (sym content)
              (extract_members-Has_it parent extracted (net.unpack text) t (unpacks text e)))
            (λ u h.
              let m = move_extracted-Has_target parent extracted target u n h in
              ground (arith, m, c)))
