-- ===== src/Toolchain/Resolve.antt =====
-- core/toolchain_config.py: what `resolve_tool` returns.
use apatchy.Base.{
  String, true, ◌≡◌, refl, ◌≢◌, ◌∙◌, ap, Option, none, some, List, [], ◌∷◌, ◌++◌, if◌then◌else◌,
  string_eq, arith, All,
}
use apatchy.Toolchain.{
  Host, Cfg, section_names, get, load, usable, scan, resolve_tool, force_update_section,
}
use apatchy.Toolchain.Laws.{get-load, get-force_update_section}

-- The value of a section, where it can be used.
abbrev pub candidate : Host → String → Cfg → String → Option String
candidate h name file section = elim (get section name file) [
  | none ↦ none
  | some value ↦ if usable h value then some value else none
]

-- The specification: the first section in the list with a value that can be used.
abbrev pub first_candidate : Host → String → Cfg → List String → Option String
first_candidate h name file [] = none
first_candidate h name file (section ∷ sections) =
    let rest = first_candidate h name file sections in
    elim (candidate h name file section) [ none ↦ rest | some value ↦ some value ]

scan-load :
    (h : Host) (name : String) (file : Cfg) (sections : List String)
    → scan h name sections (load file) ≡ first_candidate h name file sections
unfolding scan
scan-load h name file [] = refl
scan-load h name file (section ∷ sections) =
    ground (arith, get-load section name file, scan-load h name file sections)

abbrev or_else : Option String → Option String → Option String
or_else o other = elim o [ none ↦ other | some value ↦ some value ]

resolve_tool-eq :
    (h : Host) (name : String) (file : Cfg)
    → resolve_tool h file name none
      ≡ or_else (first_candidate h name file section_names) (h.which name)
unfolding resolve_tool
resolve_tool-eq h name file =
    ap (λ o. or_else o (h.which name)) (scan-load h name file section_names)

first_candidate-append :
    (h : Host) (name value section : String) (file : Cfg) (before after : List String)
    → All (λ s. candidate h name file s ≡ none) before
    → candidate h name file section ≡ some value
    → first_candidate h name file (before ++ (section ∷ after)) ≡ some value
first_candidate-append h name value section file [] after _ e = rw (e, first_candidate)
first_candidate-append h name value section file (s ∷ before) after (p, ps) e =
    rw (p, first_candidate) (first_candidate-append h name value section file before after ps e)

-- The value of the first section that has one which is not empty and points to something that
-- exists wins; sections after it and the PATH are not asked.
pub resolve_tool-first :
    (h : Host) (name value section : String) (file : Cfg) (before after : List String)
    → section_names ≡ before ++ (section ∷ after)
    → All (λ s. candidate h name file s ≡ none) before
    → candidate h name file section ≡ some value
    → resolve_tool h file name none ≡ some value
resolve_tool-first h name value section file before after order useless found =
    resolve_tool-eq h name file
    ∙ ap (λ sections. or_else (first_candidate h name file sections) (h.which name)) order
    ∙ ap (λ o. or_else o (h.which name))
        (first_candidate-append h name value section file before after useless found)

first_candidate-none :
    (h : Host) (name : String) (file : Cfg) (sections : List String)
    → All (λ s. candidate h name file s ≡ none) sections
    → first_candidate h name file sections ≡ none
first_candidate-none h name file [] _ = refl
first_candidate-none h name file (s ∷ sections) (p, ps) =
    rw (p, first_candidate) (first_candidate-none h name file sections ps)

-- Where no section has a value that can be used, blank or stale ones included, the PATH decides.
resolve_tool-which :
    (h : Host) (name : String) (file : Cfg)
    → All (λ s. candidate h name file s ≡ none) section_names
    → resolve_tool h file name none ≡ h.which name
resolve_tool-which h name file useless =
    resolve_tool-eq h name file
    ∙ ap (λ o. or_else o (h.which name)) (first_candidate-none h name file section_names useless)

-- A tool that is registered in a section by force, once, with a path that exists, is found there
-- under its name in any case, whatever the file and the PATH said before.
resolve_tool-force_update_section :
    (h : Host) (section key value : String) (file : Cfg)
    → section ≢ ""
    → usable h value ≡ true
    → resolve_tool h (force_update_section section ((key, value) ∷ []) file) key (some section)
      ≡ some value
resolve_tool-force_update_section h section key value file named fits =
    let cp = force_update_section section ((key, value) ∷ []) file in
    unfold resolve_tool in
    ground (
      arith,
      scan-load h key cp (section ∷ []),
      get-force_update_section section section key ((key, value) ∷ []) file,
    )
