-- ===== src/Dev/Tests.antt =====
-- Two projects, and the theorem at a build of one.
use apatchy.Base.{true, ◌≡◌, refl, Option, none, some, [], ◌∷◌, ◌>>=◌, string_eq}
use apatchy.Base.Dict.{insert}
use apatchy.Dev.{
  DevBuild, DevManager, DevState, Project, build_project, init_project, list_projects,
}
use apatchy.Dev.Kept.{IsKept, build_project-IsKept}

abbrev manager : DevManager
manager = record { dev_dir = "/dev"; includes = "-I/w" ∷ []; template = none; fallback = "int x;" }

abbrev empty_dir : Project
empty_dir = record { is_dir = true; harness = none; engines = []; compdb = none }

abbrev start : DevState
start = record { cwd = "/w"; projects = ("notes", empty_dir) ∷ [] }

abbrev one_project : Option DevState
one_project = init_project manager "p" start

listed_new :
    (one_project >>= λ s. some (list_projects s))
    ≡ some (record { name = "p"; built = ""; has_compdb = true } ∷ [])
unfolding init_project list_projects insert string_eq
listed_new = refl

twice : (one_project >>= init_project manager "p") ≡ none
unfolding init_project insert string_eq
twice = refl

abbrev works : DevBuild
works = record { makes_tree = true; makes_harness = true }

listed_built :
    (one_project >>= λ s. some (list_projects (build_project manager works "p" "libfuzzer" s).1))
    ≡ some (record { name = "p"; built = "libfuzzer"; has_compdb = true } ∷ [])
unfolding init_project build_project list_projects insert string_eq
listed_built = refl

build_project-IsKept_example :
    IsKept works "notes" "standalone" start (build_project manager works "notes" "standalone" start)
build_project-IsKept_example = build_project-IsKept manager works "notes" "standalone" start
