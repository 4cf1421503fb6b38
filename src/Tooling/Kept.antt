-- ===== src/Tooling/Kept.antt =====
-- managers/toolchain_manager.py: what `check` leaves of the toolchain file.
use apatchy.Base.{
  String, true, ◌≡◌, ◌∙◌, subst, some, List, [], ◌∷◌, ◌==◌, string_eq, Bool-cases, inl, inr,
  eq_of_==,
}
use apatchy.Toolchain
use apatchy.Toolchain.Update.{get-update_section, update_section-keeps}
use apatchy.Tooling.{Probe, Tool, check_tools}
use apatchy.Tooling.Groups.{Groups, check, group_deps, update_groups}

update_section-keeps_all :
    (h : Toolchain.Host) (section other name value : String) (entries : List (String × String))
    (file : Toolchain.Cfg)
    → Toolchain.get other name file ≡ some value
    → Toolchain.is_override h (some value) ≡ true
    → Toolchain.get other name (Toolchain.update_section h section entries file) ≡ some value
update_section-keeps_all h section other name value entries file e k =
    elim (Bool-cases (other == section)) [
      | inl q ↦
          subst
            (λ s. Toolchain.get other name (Toolchain.update_section h s entries file) ≡ some value)
            (eq_of_== other section q) (update_section-keeps h other name value entries file e k)
      | inr q ↦ get-update_section h section other name entries file ∙ rw q e
    ]

update_groups-keeps :
    (h : Toolchain.Host) (groups : Groups) (other name value : String) (file : Toolchain.Cfg)
    → Toolchain.get other name file ≡ some value
    → Toolchain.is_override h (some value) ≡ true
    → Toolchain.get other name (update_groups h groups file) ≡ some value
unfolding update_groups
update_groups-keeps h [] other name value file e k = e
update_groups-keeps h ((section, entries) ∷ groups) other name value file e k =
    update_groups-keeps h groups other name value (Toolchain.update_section h section entries file)
      (update_section-keeps_all h section other name value entries file e k) k

-- A path of the toolchain file that is not blank and leads to something that exists is still there
-- after a check of any tools, whatever they find.
pub check-keeps :
    (p : Probe) (tools : List Tool) (section name value : String)
    → Toolchain.get section name p.cfg ≡ some value
    → Toolchain.is_override p.tools (some value) ≡ true
    → Toolchain.get section name (check p tools).1 ≡ some value
unfolding check
check-keeps p tools section name value e k =
    update_groups-keeps p.tools (group_deps (check_tools p tools) []) section name value p.cfg e k
