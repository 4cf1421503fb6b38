-- ===== src/Report/Triage/Counts.antt =====
-- managers/report_manager.py, `triage_bulk`: what is counted.
use apatchy.Base.{
  ℕ, suc, ◌+◌, String, Bool, true, false, ◌&&◌, ◌≡◌, refl, ◌∙◌, sym, subst, Option, List, [], ◌∷◌,
  ◌++◌, map, if◌then◌else◌, ◌==◌, string_eq, arith, contains, eq_of_==, all, keep, length,
  Bool-cases, inl, inr,
}
use apatchy.Base.Dict.{Dict, get_or}
use apatchy.Stats.Mutators.{get_or-insert}
use mathlib.Core.List.{append_assoc, append-nil}
use apatchy.Report.Triage.{
  Bulk, CrashRun, add_labels, classify_bugs, counted_under, finished, increment, increment_all,
  is_zero, or_unknown, raised, row_of, split_labels, timed_out, triage_files,
}
use apatchy.Report.Triage.Labels.{
  no_blank, distinct, add_labels-distinct, add_labels-no_blank, split_labels-join,
  split_labels-no_blank,
}

-- The labels that a run is to be counted under: ok, if it has code 0 and reports nothing that is known;
-- or else those of its output, each once; or else unknown.
abbrev pub labels_or : List String → List String
labels_or [] = "unknown" ∷ []
labels_or (label ∷ labels) = label ∷ labels

abbrev pub reported : CrashRun → List String
reported (finished returncode raws site) =
    if is_zero returncode && classify_bugs raws == "unknown"
    then "ok" ∷ []
    else labels_or (add_labels raws [])
reported timed_out = "timeout" ∷ []
reported (raised message) = "error" ∷ []

-- The bug types of its output have no blanks, as the groups `\S+` that they are.
abbrev pub is_plain : String × CrashRun → Bool
is_plain (name, finished returncode raws site) = all no_blank raws
is_plain (name, timed_out) = true
is_plain (name, raised message) = true

split_labels-or_unknown :
    (labels : List String)
    → all no_blank labels ≡ true
    → split_labels (or_unknown labels) ≡ labels_or labels
split_labels-or_unknown [] h = split_labels-no_blank "unknown" refl
split_labels-or_unknown (label ∷ labels) h = split_labels-join label labels h

counted_under-reported :
    (name : String) (run : CrashRun)
    → is_plain (name, run) ≡ true
    → counted_under run ≡ reported run
unfolding classify_bugs
counted_under-reported name (finished returncode raws site) h =
    elim (Bool-cases (is_zero returncode && classify_bugs raws == "unknown")) [
      | inl e ↦ rw e (split_labels-no_blank "ok" refl)
      | inr e ↦
          rw e (split_labels-or_unknown (add_labels raws []) (add_labels-no_blank raws [] h refl))
    ]
counted_under-reported name timed_out h = refl
counted_under-reported name (raised message) h = refl

labels_or-distinct :
    (labels : List String) → distinct labels ≡ true → distinct (labels_or labels) ≡ true
labels_or-distinct [] h = refl
labels_or-distinct (label ∷ labels) h = h

reported-distinct : (run : CrashRun) → distinct (reported run) ≡ true
reported-distinct (finished returncode raws site) =
    elim (Bool-cases (is_zero returncode && classify_bugs raws == "unknown")) [
      | inl e ↦ rw e refl
      | inr e ↦ rw e (labels_or-distinct (add_labels raws []) (add_labels-distinct raws [] refl))
    ]
reported-distinct timed_out = refl
reported-distinct (raised message) = refl

abbrev one_if : Bool → ℕ
one_if b = if b then 1 else 0

get_or-increment :
    (label l : String) (counts : Dict String ℕ)
    → get_or label (increment l counts) 0 ≡ get_or label counts 0 + one_if (label == l)
get_or-increment label l counts = elim (Bool-cases (label == l)) [
  | inl e ↦
      rw (get_or-insert label l (suc (get_or l counts 0)) counts, e, eq_of_== label l e)
        (omega arith)
  | inr e ↦ rw (get_or-insert label l (suc (get_or l counts 0)) counts, e) (omega arith)
]

one_if-cons :
    (label l : String) (labels : List String)
    → distinct (l ∷ labels) ≡ true
    → one_if (label == l) + one_if (contains labels label) ≡ one_if (contains (l ∷ labels) label)
one_if-cons label l labels h = elim (Bool-cases (label == l)) [
  | inl e ↦
      let absent : contains labels label ≡ false =
        subst (λ x. contains labels x ≡ false) (sym (eq_of_== label l e)) (ground (arith, h)) in
      rw (e, absent) refl
  | inr e ↦ rw e (omega arith)
]

get_or-increment_all :
    (label : String) (labels : List String) (counts : Dict String ℕ)
    → distinct labels ≡ true
    → get_or label (increment_all labels counts) 0
      ≡ get_or label counts 0 + one_if (contains labels label)
get_or-increment_all label [] counts h = omega arith
get_or-increment_all label (l ∷ labels) counts h = omega (
  arith,
  get_or-increment_all label labels (increment l counts) (ground (arith, h)),
  get_or-increment label l counts,
  one_if-cons label l labels h,
)

-- The files that are to be counted under a label.
abbrev pub files_with : String → List (String × CrashRun) → List (String × CrashRun)
files_with label files = keep (λ f. contains (reported f.1) label) files

length-files_with :
    (label : String) (f : String × CrashRun) (files : List (String × CrashRun))
    → length (files_with label (f ∷ files))
      ≡ one_if (contains (reported f.1) label) + length (files_with label files)
length-files_with label f files = elim (Bool-cases (contains (reported f.1) label)) [
  | inl e ↦ rw e (omega arith)
  | inr e ↦ rw e (omega arith)
]

module _ (signals : ℕ → Option String) where
  bug_counts-triage_files :
      (label : String) (files : List (String × CrashRun)) (b : Bulk)
      → all is_plain files ≡ true
      → get_or label (triage_files signals files b).bug_counts 0
        ≡ get_or label b.bug_counts 0 + length (files_with label files)
  unfolding triage_files
  bug_counts-triage_files label [] b h = omega arith
  bug_counts-triage_files label ((name, run) ∷ files) b h =
      let more : Bulk = record {
        results = b.results ++ (row_of signals name run ∷ []);
        bug_counts = increment_all (counted_under run) b.bug_counts;
      } in
      let plain : is_plain (name, run) ≡ true = ground (arith, h) in
      let counted =
        subst
          (λ ls.
            get_or label (increment_all ls b.bug_counts) 0
            ≡ get_or label b.bug_counts 0 + one_if (contains (reported run) label))
          (sym (counted_under-reported name run plain))
          (get_or-increment_all label (reported run) b.bug_counts (reported-distinct run)) in
      omega (
        arith,
        bug_counts-triage_files label files more (ground (arith, h)),
        counted,
        length-files_with label (name, run) files,
      )

  results-triage_files :
      (files : List (String × CrashRun)) (b : Bulk)
      → (triage_files signals files b).results
        ≡ b.results ++ map (λ f. row_of signals f.0 f.1) files
  unfolding triage_files
  results-triage_files [] b = sym (append-nil b.results)
  results-triage_files ((name, run) ∷ files) b =
      results-triage_files files (record {
        results = b.results ++ (row_of signals name run ∷ []);
        bug_counts = increment_all (counted_under run) b.bug_counts;
      })
      ∙ append_assoc b.results (row_of signals name run ∷ [])
          (map (λ f. row_of signals f.0 f.1) files)

  -- The triage of files makes one row for each, in their order, and counts each label as often as there
  -- are files that are to be counted under it: a file whose run has code 0 and reports nothing that is
  -- known under ok; one that reports bug types under the labels of these, once each; one that reports
  -- none under unknown; one that runs out of time under timeout, and one that cannot be run under
  -- error. No bug type of an output has a blank.
  pub triage_files-counts :
      (files : List (String × CrashRun)) (label : String)
      → all is_plain files ≡ true
      → let b = triage_files signals files (record { results = []; bug_counts = [] }) in
        (b.results ≡ map (λ f. row_of signals f.0 f.1) files)
        × (get_or label b.bug_counts 0 ≡ length (files_with label files))
  triage_files-counts files label h =
      let b : Bulk = record { results = []; bug_counts = [] } in
      (results-triage_files files b, omega (arith, bug_counts-triage_files label files b h))
