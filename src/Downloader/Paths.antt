-- ===== src/Downloader/Paths.antt =====
-- What stands on the disk after the operations of `Downloader`, path by path.
use apatchy.Base.{
  String, Bool, true, false, ◌≡◌, refl, ap, Option, none, some, [], ◌∷◌, ◌++◌, ◌==◌, string_eq,
  parts_eq, arith, ==-self,
}
use apatchy.Base.Dict.{Dict}
use apatchy.BuildTree.{name_of}
use apatchy.BuildTree.Text.{replace}
use apatchy.Downloader.{
  Parts, Node, directory, file, Answer, refuses, breaks, ends, Net, Local, Result, ok, raised,
  and_then, on_exception, exists, below, write, write_at, receive, download_file, extract_all,
  extract_members, extract_text, content_of, move_extracted, download_and_extract, mkdir, mkdir_at,
  on_disk, remove,
}

-- A predicate of the state that a call which does not raise leaves.
abbrev pub WhenOk : (Local → Type 0) → Result → Type 0
WhenOk P (ok s) = P s
WhenOk P (raised s) = Unit

pub WhenOk-and_then :
    (Q P : Local → Type 0) (r : Result) (f : Local → Result)
    → WhenOk Q r
    → ((s : Local) → Q s → WhenOk P (f s))
    → WhenOk P (and_then r f)
WhenOk-and_then Q P (ok s) f q h = h s q
WhenOk-and_then Q P (raised s) f q h = tt

pub WhenOk-map :
    {Q P : Local → Type 0} → ((s : Local) → Q s → P s) → (r : Result) → WhenOk Q r → WhenOk P r
WhenOk-map h (ok s) q = h s q
WhenOk-map h (raised s) q = tt

pub WhenOk-on_exception :
    (P : Local → Type 0) (r : Result) (f : Local → Result)
    → WhenOk P r
    → ((s : Local) → WhenOk P (f s))
    → WhenOk P (on_exception r f)
WhenOk-on_exception P (ok s) f q h = q
WhenOk-on_exception P (raised s) f q h = h s

pub WhenOk-both :
    (P Q : Local → Type 0) (r : Result) → WhenOk P r → WhenOk Q r → WhenOk (λ s. P s × Q s) r
WhenOk-both P Q (ok s) p q = (p, q)
WhenOk-both P Q (raised s) p q = tt

pub WhenOk-any : (r : Result) → WhenOk (λ s. Unit) r
WhenOk-any (ok s) = tt
WhenOk-any (raised s) = tt

abbrev pub Has : Parts → Local → Type 0
Has p s = exists p s ≡ true

pub below-append : (dir p : Parts) → below dir (dir ++ p) ≡ some p
unfolding below
below-append [] p = refl
below-append (a ∷ dir) p = ground (arith, below-append dir p, ==-self a)

pub below_self : (dir : Parts) → below dir dir ≡ some []
unfolding below
below_self [] = refl
below_self (a ∷ dir) = ground (arith, below_self dir, ==-self a)

pub append_nil : (p : Parts) → p ++ [] ≡ p
append_nil [] = refl
append_nil (a ∷ p) = ap (λ q. a ∷ q) (append_nil p)

pub below-other :
    (dir : Parts) (a b : String) → (a == b) ≡ false → below (dir ++ a ∷ []) (dir ++ b ∷ []) ≡ none
unfolding below
below-other [] a b h = ground arith
below-other (c ∷ dir) a b h = ground (arith, below-other dir a b h)

module _ (p : Parts) where
  write_at-Has :
      (o : Option Node) (name text : String) (s : Local)
      → Has p s
      → WhenOk (Has p) (write_at o name text s)
  write_at-Has none name text s h = ground arith
  write_at-Has (some directory) name text s h = tt
  write_at-Has (some (file t)) name text s h = ground arith

  mkdir_at-Has :
      (o up : Option Node) (q : Parts) (s : Local) → Has p s → WhenOk (Has p) (mkdir_at o up q s)
  mkdir_at-Has (some directory) up q s h = h
  mkdir_at-Has (some (file t)) up q s h = tt
  mkdir_at-Has none none q s h = tt
  mkdir_at-Has none (some directory) q s h = ground arith
  mkdir_at-Has none (some (file t)) q s h = tt

  pub mkdir-Has :
      (dir : Parts) (name : String) (s : Local) → Has p s → WhenOk (Has p) (mkdir dir name s)
  mkdir-Has dir name s h =
      mkdir_at-Has (s.disk (dir ++ name ∷ [])) (s.disk dir) (dir ++ name ∷ []) s h

  module _ (net : Net) where
    receive-Has :
        (a : Answer) (name : String) (s : Local) → Has p s → WhenOk (Has p) (receive net a name s)
    receive-Has refuses name s h = tt
    receive-Has (breaks text) name s h =
        WhenOk-and_then (λ t. Unit) (Has p) (write name text s) (λ t. raised t)
          (WhenOk-any (write name text s)) (λ t u. tt)
    receive-Has (ends text) name s h = write_at-Has (s.disk (name ∷ [])) name text s h

    download_file-Has :
        (url name : String) (s : Local) → Has p s → WhenOk (Has p) (download_file net url name s)
    unfolding download_file
    download_file-Has url name s h =
        receive-Has (net.fetch url) name (record { disk = s.disk; asked = url ∷ s.asked }) h

    extract_members-Has :
        (dir : Parts) (u : Dict Parts Node × Bool) (s : Local)
        → Has p s
        → WhenOk (Has p) (extract_members net dir u s)
    extract_members-Has dir (members, true) s h = ground arith
    extract_members-Has dir (members, false) s h = tt

    extract_text-Has :
        (o : Option String) (dir : Parts) (s : Local)
        → Has p s
        → WhenOk (Has p) (extract_text net o dir s)
    extract_text-Has none dir s h = tt
    extract_text-Has (some text) dir s h = extract_members-Has dir (net.unpack text) s h

    pub extract_all-Has :
        (name : String) (dir : Parts) (s : Local)
        → Has p s
        → WhenOk (Has p) (extract_all net name dir s)
    unfolding extract_all
    extract_all-Has name dir s h = extract_text-Has (content_of (s.disk (name ∷ []))) dir s h

    move_extracted-Has :
        (parent : Parts) (extracted target : String) (s : Local)
        → below (parent ++ extracted ∷ []) p ≡ none
        → below (parent ++ target ∷ []) p ≡ none
        → Has p s
        → Has p (move_extracted net parent extracted target s)
    unfolding move_extracted
    move_extracted-Has parent extracted target s a b h = ground (arith, a, b)

    -- What is neither in the directory that is unpacked nor in the target stays.
    pub download_and_extract-Has :
        (url : String) (parent : Parts) (target : String) (s : Local)
        → below (parent ++ replace ".tar.gz" "" (name_of url) ∷ []) p ≡ none
        → below (parent ++ target ∷ []) p ≡ none
        → (p == (name_of url ∷ [])) ≡ false
        → Has p s
        → WhenOk (Has p) (download_and_extract net url parent target s)
    unfolding download_and_extract
    download_and_extract-Has url parent target s a b c h =
        let name = name_of url in
        let extracted = replace ".tar.gz" "" name in
        let finish : Local → Local =
          λ u. on_disk (remove (name ∷ [])) (move_extracted net parent extracted target u) in
        WhenOk-and_then (Has p) (Has p) (download_file net url name s)
          (λ t. and_then (extract_all net name parent t) (λ u. ok (finish u)))
          (download_file-Has url name s h)
          (λ t h1.
            WhenOk-and_then (Has p) (Has p) (extract_all net name parent t) (λ u. ok (finish u))
              (extract_all-Has name parent t h1)
              (λ u h2.
                let m = move_extracted-Has parent extracted target u a b h2 in
                ground (arith, m, c)))
