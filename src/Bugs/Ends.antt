-- ===== src/Bugs/Ends.antt =====
-- What `BugManager.setup` has done when it ends without an exception.
use apatchy.Base.{String, Bool, true, false, ◌≡◌, ◌||◌, List, [], ◌∷◌, ◌==◌, string_eq}
use apatchy.Bugs.Setup.{Action, build_harness, Run, ended, raised}

-- Whether a harness has been linked against the tree with a suffix.
abbrev pub links : String → List Action → Bool
links wanted [] = false
links wanted (build_harness suffix mode cflags ldflags harness ∷ log) =
    wanted == suffix || links wanted log
links wanted (_ ∷ log) = links wanted log

-- A predicate of the log of a run that ends.
abbrev pub WhenEnded : (List Action → Type 0) → Run → Type 0
WhenEnded P (ended log) = P log
WhenEnded P (raised log) = Unit

-- The harnesses that are linked stay linked.
abbrev Linked : List String → List Action → Type 0
Linked [] log = Unit
Linked (suffix ∷ suffixes) log = (links suffix log ≡ true) × Linked suffixes log
