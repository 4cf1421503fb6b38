-- ===== src/Toolchain/Laws.antt =====
-- core/toolchain_config.py: which value a key has after the two ways to write a section, and which
-- value `resolve_tool` picks.
use apatchy.Base.{
  String, Bool, true, ◌&&◌, not, ◌≡◌, refl, ◌∙◌, Option, some, List, [], ◌∷◌, if◌then◌else◌, ◌==◌,
  string_eq, ◌||◌, is_some, arith,
}
use apatchy.Base.Dict.{lookup, lookup-insert}
use apatchy.Base.Text.{lower}
use apatchy.Toolchain.{
  Host, Cfg, section_names, get, ensure_section, set_option, ensure_all, load, is_override,
  set_entries, force_update_section,
}

abbrev pub has_section : String → Cfg → Bool
has_section section cp = is_some (lookup section cp)

pub get-ensure_section :
    (section other name : String) (cp : Cfg)
    → get other name (ensure_section section cp) ≡ get other name cp
unfolding get ensure_section
get-ensure_section section other name [] = ground arith
get-ensure_section section other name ((n, d) ∷ cp) =
    ground (arith, get-ensure_section section other name cp)

pub has_section-ensure_section :
    (section other : String) (cp : Cfg)
    → has_section other (ensure_section section cp) ≡ (other == section || has_section other cp)
unfolding ensure_section
has_section-ensure_section section other [] = ground arith
has_section-ensure_section section other ((n, d) ∷ cp) =
    ground (arith, has_section-ensure_section section other cp)

pub get-set_option :
    (section key value other name : String) (cp : Cfg)
    → has_section section cp ≡ true
    → get other name (set_option section key value cp)
      ≡ (if other == section && lower name == lower key then some value else get other name cp)
unfolding get set_option
get-set_option section key value other name [] h = cc
get-set_option section key value other name ((n, d) ∷ cp) h = ground (
  arith,
  get-set_option section key value other name cp,
  lookup-insert (lower name) (lower key) value d,
)

pub has_section-set_option :
    (section key value : String) (cp : Cfg)
    → has_section section cp ≡ true
    → has_section section (set_option section key value cp) ≡ true
unfolding set_option
has_section-set_option section key value [] h = cc
has_section-set_option section key value ((n, d) ∷ cp) h =
    ground (arith, has_section-set_option section key value cp)

get-ensure_all :
    (sections : List String) (other name : String) (cp : Cfg)
    → get other name (ensure_all sections cp) ≡ get other name cp
unfolding ensure_all
get-ensure_all [] other name cp = refl
get-ensure_all (section ∷ rest) other name cp =
    get-ensure_all rest other name _ ∙ get-ensure_section section other name cp

-- Adding the sections that are missing gives no key a value.
pub get-load : (other name : String) (file : Cfg) → get other name (load file) ≡ get other name file
unfolding load
get-load other name file = get-ensure_all section_names other name file

-- The parser that both ways to write a section start from.
abbrev pub opened : String → Cfg → Cfg
opened section file = ensure_section section (load file)

pub get-opened :
    (section other name : String) (file : Cfg)
    → get other name (opened section file) ≡ get other name file
get-opened section other name file =
    get-ensure_section section other name (load file) ∙ get-load other name file

pub has_section-opened :
    (section : String) (file : Cfg) → has_section section (opened section file) ≡ true
has_section-opened section file =
    ground (arith, has_section-ensure_section section section (load file))

-- The value of one key after the entries are written: the last one that is written to it.
abbrev pub forced : String → List (String × String) → Option String → Option String
forced name [] old = old
forced name ((key, value) ∷ entries) old =
    forced name entries (if lower name == lower key then some value else old)

get-set_entries :
    (section other name : String) (entries : List (String × String)) (cp : Cfg)
    → has_section section cp ≡ true
    → get other name (set_entries section entries cp)
      ≡ (if other == section then forced name entries (get other name cp) else get other name cp)
unfolding set_entries
get-set_entries section other name [] cp h = ground arith
get-set_entries section other name ((key, value) ∷ entries) cp h = ground (
  arith,
  get-set_entries section other name entries (set_option section key value cp)
      (has_section-set_option section key value cp h),
  get-set_option section key value other name cp,
)

-- `force_update_section` gives each key of its section the last value that is listed for it, case
-- aside, and changes no other key and no other section.
pub get-force_update_section :
    (section other name : String) (entries : List (String × String)) (file : Cfg)
    → get other name (force_update_section section entries file) ≡ (
        if other == section then forced name entries (get other name file) else get other name file)
unfolding force_update_section
get-force_update_section section other name entries file =
    get-set_entries section other name entries _ (has_section-opened section file)
    ∙ rw (get-opened section other name file)

-- The value of one key after `update_section`: an entry is written unless the key then has a value
-- that is not blank and still valid.
abbrev pub merged : Host → String → List (String × String) → Option String → Option String
merged h name [] old = old
merged h name ((key, value) ∷ entries) old =
    merged h name entries
      (if not (lower name == lower key) || is_override h old then old else some value)
