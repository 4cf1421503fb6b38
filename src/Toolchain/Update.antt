-- ===== src/Toolchain/Update.antt =====
-- core/toolchain_config.py: `update_section`.
use apatchy.Base.{
  String, true, false, ◌≡◌, refl, ◌∙◌, Option, some, List, [], ◌∷◌, if◌then◌else◌, ◌==◌, string_eq,
  arith, inr, ◌⊎◌,
}
use apatchy.Base.Text.{lower}
use apatchy.Toolchain.{Host, Cfg, get, set_option, is_override, merge_entries, update_section}
use apatchy.Toolchain.Laws.{
  has_section, has_section-set_option, get-set_option, merged, get-opened, has_section-opened,
}

-- Keys that differ in case only are one key.
get_of_lower :
    (section name key : String) (cp : Cfg)
    → lower name ≡ lower key
    → get section name cp ≡ get section key cp
unfolding get
get_of_lower section name key cp e = ground arith

get-merge_entries :
    (h : Host) (section other name : String) (entries : List (String × String)) (cp : Cfg)
    → has_section section cp ≡ true
    → get other name (merge_entries h section entries cp)
      ≡ (if other == section then merged h name entries (get other name cp) else get other name cp)
unfolding merge_entries
get-merge_entries h section other name [] cp k = ground arith
get-merge_entries h section other name ((key, value) ∷ entries) cp k = ground (
  arith,
  get-merge_entries h section other name entries (set_option section key value cp),
  get-merge_entries h section other name entries cp,
  has_section-set_option section key value cp,
  get-set_option section key value other name cp,
  get_of_lower section name key cp,
)

-- `update_section` acts on each key of its section by `merged`, and changes no other section.
pub get-update_section :
    (h : Host) (section other name : String) (entries : List (String × String)) (file : Cfg)
    → get other name (update_section h section entries file) ≡ (
        if other == section
        then merged h name entries (get other name file)
        else get other name file)
unfolding update_section
get-update_section h section other name entries file =
    get-merge_entries h section other name entries _ (has_section-opened section file)
    ∙ rw (get-opened section other name file)

merged_of_override :
    (h : Host) (name : String) (entries : List (String × String)) (old : Option String)
    → is_override h old ≡ true
    → merged h name entries old ≡ old
merged_of_override h name [] old k = refl
merged_of_override h name ((key, value) ∷ entries) old k =
    ground (arith, merged_of_override h name entries old)

-- A value of the section that is not blank and points to something that exists survives every
-- update, whatever the entries say.
pub update_section-keeps :
    (h : Host) (section name value : String) (entries : List (String × String)) (file : Cfg)
    → get section name file ≡ some value
    → is_override h (some value) ≡ true
    → get section name (update_section h section entries file) ≡ some value
update_section-keeps h section name value entries file e k =
    get-update_section h section section name entries file
    ∙ rw e (ground (arith, merged_of_override h name entries (some value)))

merged_same :
    (h : Host) (name : String) (entries : List (String × String)) (old new : Option String)
    → is_override h (merged h name entries old) ≡ false
    → is_override h new ≡ false
    → (merged h name entries new ≡ merged h name entries old)
      ⊎ ((merged h name entries new ≡ new) × (merged h name entries old ≡ old))
merged_same h name [] old new k l = inr (refl, refl)
merged_same h name ((key, value) ∷ entries) old new k l =
    ground (arith, merged_same h name entries old new, merged_of_override h name entries old)

merged_idem :
    (h : Host) (name : String) (entries : List (String × String)) (old : Option String)
    → merged h name entries (merged h name entries old) ≡ merged h name entries old
merged_idem h name entries old = ground (
  arith,
  merged_of_override h name entries (merged h name entries old),
  merged_same h name entries old (merged h name entries old),
)

-- A second update with the same entries changes no value.
pub update_section_idem :
    (h : Host) (section other name : String) (entries : List (String × String)) (file : Cfg)
    → get other name (update_section h section entries (update_section h section entries file))
      ≡ get other name (update_section h section entries file)
update_section_idem h section other name entries file = ground (
  arith,
  get-update_section h section other name entries (update_section h section entries file),
  get-update_section h section other name entries file,
  merged_idem h name entries (get other name file),
)
