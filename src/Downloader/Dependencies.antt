-- ===== src/Downloader/Dependencies.antt =====
-- `_download_dependencies` of core/downloader.py: what it leaves.
use apatchy.Base.{
  String, ◌<>◌, false, ◌≡◌, refl, none, [], ◌∷◌, ◌++◌, ◌==◌, string_eq, parts_eq, arith, ==-self,
  Bool-cases, inl, inr,
}
use apatchy.Base.Substrings.{starts_with-other}
use apatchy.Base.Text.{split_on, starts_with}
use apatchy.BuildTree.{name_of}
use apatchy.BuildTree.Text.{replace}
use apatchy.Downloader.{
  Parts, Net, Local, below, fetch_missing, mkdir, exists, apr_url, apr_util_url, expat_url,
  download_dependencies,
}
use apatchy.Downloader.Paths.{
  WhenOk, WhenOk-and_then, WhenOk-any, WhenOk-both, below-other, Has, mkdir-Has,
  download_and_extract-Has,
}
use apatchy.Downloader.Targets.{Unpacks, download_and_extract-Has_target}

module _ (net : Net) where
  fetch_missing-Has :
      (p : Parts) (url : String) (parent : Parts) (target : String) (s : Local)
      → below (parent ++ replace ".tar.gz" "" (name_of url) ∷ []) p ≡ none
      → below (parent ++ target ∷ []) p ≡ none
      → (p == (name_of url ∷ [])) ≡ false
      → Has p s
      → WhenOk (Has p) (fetch_missing net url parent target s)
  unfolding fetch_missing
  fetch_missing-Has p url parent target s a b c h =
      elim (Bool-cases (exists (parent ++ target ∷ []) s)) [
        | inl e ↦ rw e h
        | inr e ↦ rw e (download_and_extract-Has p net url parent target s a b c h)
      ]

  fetch_missing-Has_target :
      (url : String) (parent : Parts) (target : String) (s : Local)
      → Unpacks net url
      → (replace ".tar.gz" "" (name_of url) == target) ≡ false
      → ((parent ++ target ∷ []) == (name_of url ∷ [])) ≡ false
      → WhenOk (Has (parent ++ target ∷ [])) (fetch_missing net url parent target s)
  unfolding fetch_missing
  fetch_missing-Has_target url parent target s u n c =
      elim (Bool-cases (exists (parent ++ target ∷ []) s)) [
        | inl e ↦ rw e e
        | inr e ↦ rw e (download_and_extract-Has_target net url parent target s u n c)
      ]

  -- The name of an archive, and of the directory that it unpacks to.
  abbrev Named : String → String → String → Type 0
  Named url name extracted = (replace ".tar.gz" "" (name_of url) ≡ extracted) × (name_of url ≡ name)

  named :
      Named (apr_url net) "apr-1.7.6.tar.gz" "apr-1.7.6"
      × Named (apr_util_url net) "apr-util-1.6.3.tar.gz" "apr-util-1.6.3"
      × Named (expat_url net) "expat-2.6.4.tar.gz" "expat-2.6.4"
  unfolding name_of replace split_on starts_with string_eq
  named = ((refl, refl), (refl, refl), (refl, refl))

  distinct :
      ((◌==◌ {A = String} "apr-1.7.6" "apr") ≡ false)
      × ((◌==◌ {A = String} "apr-util-1.6.3" "apr-util") ≡ false)
      × ((◌==◌ {A = String} "expat-2.6.4" "expat") ≡ false)
      × ((◌==◌ {A = String} "apr-util-1.6.3" "apr") ≡ false)
      × ((◌==◌ {A = String} "apr-util" "apr") ≡ false)
  unfolding string_eq
  distinct = (refl, refl, refl, refl, refl)

  long_path : (a b c : String) (q : Parts) → ((a ∷ b ∷ q) == (c ∷ [])) ≡ false
  long_path a b c q = ground arith

  -- The paths of the three dependencies.
  abbrev apr_path : String → Parts
  apr_path root = root ∷ "srclib" ∷ "apr" ∷ []

  abbrev apr_util_path : String → Parts
  apr_util_path root = root ∷ "srclib" ∷ "apr-util" ∷ []

  abbrev expat_path : String → Parts
  expat_path root = root ∷ "srclib" ∷ "apr-util" ∷ "xml" ∷ "expat" ∷ []

  below_expat :
      (root name : String)
      → let dir = root ∷ "srclib" ∷ "apr-util" ∷ "xml" ∷ name ∷ [] in
        (below dir (apr_path root) ≡ none) × (below dir (apr_util_path root) ≡ none)
  unfolding below
  below_expat root name = ground (arith, distinct, ==-self root)

  abbrev pub HasAll : String → Local → Type 0
  HasAll root s = Has (apr_path root) s × (Has (apr_util_path root) s × Has (expat_path root) s)

  fetch_apr :
      (root : String) (s : Local)
      → Unpacks net (apr_url net)
      → WhenOk
          (Has (apr_path root))
          (fetch_missing net (apr_url net) (root ∷ "srclib" ∷ []) "apr" s)
  fetch_apr root s u =
      let (r, n) = named.0 in
      fetch_missing-Has_target (apr_url net) (root ∷ "srclib" ∷ []) "apr" s u (rw r (distinct.0))
        (rw n (long_path root "srclib" "apr-1.7.6.tar.gz" ("apr" ∷ [])))

  fetch_apr_util :
      (root : String) (s : Local)
      → Unpacks net (apr_util_url net)
      → Has (apr_path root) s
      → WhenOk
          (λ t. Has (apr_path root) t × Has (apr_util_path root) t)
          (fetch_missing net (apr_util_url net) (root ∷ "srclib" ∷ []) "apr-util" s)
  fetch_apr_util root s u h =
      let (r, n) = named.1 in
      let (_, b, _, d, e) = distinct in
      let dir = root ∷ "srclib" ∷ [] in
      WhenOk-both _ _ (fetch_missing net (apr_util_url net) dir "apr-util" s)
        (fetch_missing-Has (apr_path root) (apr_util_url net) dir "apr-util" s
          (rw r (below-other dir "apr-util-1.6.3" "apr" d)) (below-other dir "apr-util" "apr" e)
          (rw n (long_path root "srclib" "apr-util-1.6.3.tar.gz" ("apr" ∷ []))) h)
        (fetch_missing-Has_target (apr_util_url net) dir "apr-util" s u (rw r b)
          (rw n (long_path root "srclib" "apr-util-1.6.3.tar.gz" ("apr-util" ∷ []))))

  fetch_expat :
      (root : String) (s : Local)
      → Unpacks net (expat_url net)
      → Has (apr_path root) s
      → Has (apr_util_path root) s
      → WhenOk
          (HasAll root)
          (fetch_missing net (expat_url net) (root ∷ "srclib" ∷ "apr-util" ∷ "xml" ∷ []) "expat" s)
  fetch_expat root s u h1 h2 =
      let (r, n) = named.2 in
      let (_, _, c, _, _) = distinct in
      let dir = root ∷ "srclib" ∷ "apr-util" ∷ "xml" ∷ [] in
      let step = fetch_missing net (expat_url net) dir "expat" s in
      let (from1, from2) = below_expat root "expat-2.6.4" in
      let (to1, to2) = below_expat root "expat" in
      let name : String = "expat-2.6.4.tar.gz" in
      WhenOk-both _ _ step
        (fetch_missing-Has (apr_path root) (expat_url net) dir "expat" s (rw r from1) to1
          (rw n (long_path root "srclib" name ("apr" ∷ []))) h1)
        (WhenOk-both _ _ step
          (fetch_missing-Has (apr_util_path root) (expat_url net) dir "expat" s (rw r from2) to2
            (rw n (long_path root "srclib" name ("apr-util" ∷ []))) h2)
          (fetch_missing-Has_target (expat_url net) dir "expat" s u (rw r c)
            (rw n (long_path root "srclib" name ("apr-util" ∷ "xml" ∷ "expat" ∷ [])))))

  -- The archives of the dependencies unpack to the directories of their names.
  abbrev pub UnpacksAll : Type 0
  UnpacksAll =
      Unpacks net (apr_url net) × Unpacks net (apr_util_url net) × Unpacks net (expat_url net)

  pub download_dependencies-HasAll :
      (root : String) (s : Local)
      → UnpacksAll
      → WhenOk (HasAll root) (download_dependencies net root s)
  unfolding download_dependencies
  download_dependencies-HasAll root s (u1, u2, u3) =
      let P = HasAll root in
      let srclib = root ∷ "srclib" ∷ [] in
      let Both : Local → Type 0 = λ t. Has (apr_path root) t × Has (apr_util_path root) t in
      WhenOk-and_then (λ t. Unit) P (mkdir (root ∷ []) "srclib" s) _
        (WhenOk-any (mkdir (root ∷ []) "srclib" s))
        (λ t _.
          WhenOk-and_then (Has (apr_path root)) P (fetch_missing net (apr_url net) srclib "apr" t) _
            (fetch_apr root t u1)
            (λ u h.
              WhenOk-and_then Both P (fetch_missing net (apr_util_url net) srclib "apr-util" u) _
                (fetch_apr_util root u u2 h)
                (λ v (h1, h2).
                  WhenOk-and_then Both P (mkdir (root ∷ "srclib" ∷ "apr-util" ∷ []) "xml" v) _
                    (WhenOk-both _ _ (mkdir (root ∷ "srclib" ∷ "apr-util" ∷ []) "xml" v)
                      (mkdir-Has (apr_path root) (root ∷ "srclib" ∷ "apr-util" ∷ []) "xml" v h1)
                      (mkdir-Has (apr_util_path root) (root ∷ "srclib" ∷ "apr-util" ∷ []) "xml" v
                        h2))
                    (λ w (g1, g2). fetch_expat root w u3 g1 g2))))

  -- The names of the archives are not that of a tree.
  other_names :
      (v : String)
      → ((("httpd-" <> v) == "apr-1.7.6.tar.gz") ≡ false)
        × ((("httpd-" <> v) == "apr-util-1.6.3.tar.gz") ≡ false)
        × ((("httpd-" <> v) == "expat-2.6.4.tar.gz") ≡ false)
  unfolding starts_with
  other_names v = (
    starts_with-other "httpd-" v "apr-1.7.6.tar.gz" refl,
    starts_with-other "httpd-" v "apr-util-1.6.3.tar.gz" refl,
    starts_with-other "httpd-" v "expat-2.6.4.tar.gz" refl,
  )

  below_root : (root name : String) (q : Parts) → below (root ∷ name ∷ q) (root ∷ []) ≡ none
  unfolding below
  below_root root name q = ground arith

  pub one_part : (a b : String) → (a == b) ≡ false → ((a ∷ []) == (b ∷ [])) ≡ false
  one_part a b h = ground arith

  pub download_dependencies-Has_root :
      (v : String) (s : Local)
      → Has (("httpd-" <> v) ∷ []) s
      → WhenOk (Has (("httpd-" <> v) ∷ [])) (download_dependencies net ("httpd-" <> v) s)
  unfolding download_dependencies
  download_dependencies-Has_root v s h =
      let root = "httpd-" <> v in
      let p = root ∷ [] in
      let srclib = root ∷ "srclib" ∷ [] in
      let (a, b, c) = other_names v in
      let keep : (url : String) (q : Parts) (target : String) (t : Local)
          → (root == name_of url) ≡ false
          → Has p t
          → WhenOk (Has p) (fetch_missing net url (root ∷ "srclib" ∷ q) target t) =
        λ url q target t n g.
          fetch_missing-Has p url (root ∷ "srclib" ∷ q) target t (below_root root "srclib" _)
            (below_root root "srclib" _) (one_part root (name_of url) n) g in
      WhenOk-and_then (Has p) (Has p) (mkdir (root ∷ []) "srclib" s) _
        (mkdir-Has p (root ∷ []) "srclib" s h)
        (λ t h1.
          WhenOk-and_then (Has p) (Has p) (fetch_missing net (apr_url net) srclib "apr" t) _
            (keep (apr_url net) [] "apr" t (rw (named.0.1) a) h1)
            (λ u h2.
              WhenOk-and_then (Has p) (Has p)
                (fetch_missing net (apr_util_url net) srclib "apr-util" u) _
                (keep (apr_util_url net) [] "apr-util" u (rw (named.1.1) b) h2)
                (λ w h3.
                  WhenOk-and_then (Has p) (Has p)
                    (mkdir (root ∷ "srclib" ∷ "apr-util" ∷ []) "xml" w) _
                    (mkdir-Has p (root ∷ "srclib" ∷ "apr-util" ∷ []) "xml" w h3)
                    (λ x h4.
                      keep (expat_url net) ("apr-util" ∷ "xml" ∷ []) "expat" x (rw (named.2.1) c)
                        h4))))
