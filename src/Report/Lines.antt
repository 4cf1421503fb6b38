-- ===== src/Report/Lines.antt =====
-- managers/report_manager.py, `generate_introspect`: how often each line of a file has run.
use apatchy.Base.{
  ℕ, zero, suc, ◌+◌, ◌-◌, max, String, Bool, true, false, ◌&&◌, ◌≡◌, ◌≢◌, refl, ◌∙◌, sym, ap,
  Option, none, some, List, [], ◌∷◌, if◌then◌else◌, ltb, leb, ◌==◌, nat_eq, string_eq, ◌>>=◌, arith,
  eq_of_==, ne_of_==, Bool-cases, inl, inr,
}
use apatchy.Base.Dict.{Dict, lookup, get_or, insert, lookup-insert}
use apatchy.Report.Analysis.{
  Segment, CovFile, end_line, cover, count_segments, add_segments, line_counts,
}

-- The counts of the segments that reach from their line to a line on which the next one starts.
abbrev pub covering : ℕ → List Segment → List ℕ
covering ln [] = []
covering ln (seg ∷ segs) =
    let rest = covering ln segs in
    if seg.has_count && (leb seg.line ln && leb ln (end_line seg segs))
    then seg.count ∷ rest
    else rest

abbrev pub largest : ℕ → List ℕ → ℕ
largest n [] = n
largest n (m ∷ ms) = largest (max n m) ms

abbrev pub maximum : List ℕ → Option ℕ
maximum [] = none
maximum (n ∷ ns) = some (largest n ns)

abbrev pub or_segments : List Segment → List Segment → List Segment
or_segments [] others = others
or_segments (seg ∷ segs) others = seg ∷ segs

-- The segments of the last file of a name that has any.
abbrev pub segments_of : String → List CovFile → List Segment
segments_of path [] = []
segments_of path (f ∷ fs) =
    or_segments (segments_of path fs) (if path == f.filename then f.segments else [])

-- The highest of what is there and more counts.
abbrev above : Option ℕ → List ℕ → Option ℕ
above none ns = maximum ns
above (some m) ns = some (largest m ns)

abbrev raise : Bool → ℕ → Option ℕ → Option ℕ
raise b count o = if b then some (max (elim o as (λ _. ℕ) [ none ↦ 0 | some v ↦ v ]) count) else o

above_nil : (o : Option ℕ) → above o [] ≡ o
above_nil none = refl
above_nil (some m) = refl

above-raise : (o : Option ℕ) (n : ℕ) (ns : List ℕ) → above (raise true n o) ns ≡ above o (n ∷ ns)
above-raise none n ns = ap (λ m. some (largest m ns)) (omega arith)
above-raise (some m) n ns = refl

abbrev within : ℕ → ℕ → ℕ → Bool
within ln line n = leb line ln && ltb ln (line + n)

within_nil : (ln line : ℕ) → within ln line 0 ≡ false
within_nil ln line = ground arith

within_self : (ln line n : ℕ) → ln ≡ line → within ln line (suc n) ≡ true
within_self ln line n e = ground (arith, e)

within-suc_self : (ln line n : ℕ) → ln ≡ line → within ln (suc line) n ≡ false
within-suc_self ln line n e = ground (arith, e)

within-suc_other : (ln line n : ℕ) → ln ≢ line → within ln (suc line) n ≡ within ln line (suc n)
within-suc_other ln line n h = ground (arith, h)

lookup-cover :
    (ln line n count : ℕ) (lines : Dict ℕ ℕ)
    → lookup ln (cover line n count lines) ≡ raise (within ln line n) count (lookup ln lines)
unfolding cover
lookup-cover ln line zero count lines =
    sym (ap (λ b. raise b count (lookup ln lines)) (within_nil ln line))
lookup-cover ln line (suc n) count lines =
    let top = max (get_or line lines 0) count in
    let more = insert line top lines in
    let ih = lookup-cover ln (suc line) n count more in
    let found = lookup-insert ln line top lines in
    elim (Bool-cases (ln == line)) [
      | inl e ↦
          let same = eq_of_== ln line e in
          ih
          ∙ ap (λ b. raise b count (lookup ln more)) (within-suc_self ln line n same)
          ∙ found
          ∙ ap (λ b. if b then some top else lookup ln lines) e
          ∙ ap (λ x. some (max (get_or x lines 0) count)) (sym same)
          ∙ sym (ap (λ b. raise b count (lookup ln lines)) (within_self ln line n same))
      | inr e ↦
          ih
          ∙ ap (λ b. raise b count (lookup ln more))
              (within-suc_other ln line n (ne_of_== ln line e))
          ∙ ap (raise (within ln line (suc n)) count)
              (found ∙ ap (λ b. if b then some top else lookup ln lines) e)
    ]

-- A segment is within the lines that it is given.
within-end :
    (ln first last : ℕ) → within ln first (suc last - first) ≡ (leb first ln && leb ln last)
within-end ln first last = ground arith

abbrev taken : ℕ → Segment → List Segment → Bool
taken ln seg segs = seg.has_count && (leb seg.line ln && leb ln (end_line seg segs))

lookup-count_segment :
    (ln : ℕ) (seg : Segment) (segs : List Segment) (lines : Dict ℕ ℕ)
    → lookup ln (
        if seg.has_count
        then cover seg.line (suc (end_line seg segs) - seg.line) seg.count lines
        else lines)
      ≡ raise (taken ln seg segs) seg.count (lookup ln lines)
lookup-count_segment ln seg segs lines = elim (Bool-cases seg.has_count) [
  | inl e ↦ rw e (
      lookup-cover ln seg.line (suc (end_line seg segs) - seg.line) seg.count lines
      ∙ ap (λ b. raise b seg.count (lookup ln lines)) (within-end ln seg.line (end_line seg segs)))
  | inr e ↦ rw e refl
]

lookup-count_segments :
    (ln : ℕ) (segs : List Segment) (lines : Dict ℕ ℕ)
    → lookup ln (count_segments segs lines) ≡ above (lookup ln lines) (covering ln segs)
unfolding count_segments
lookup-count_segments ln [] lines = sym (above_nil (lookup ln lines))
lookup-count_segments ln (seg ∷ segs) lines =
    let more =
      if seg.has_count
      then cover seg.line (suc (end_line seg segs) - seg.line) seg.count lines
      else lines in
    let rest = covering ln segs in
    lookup-count_segments ln segs more
    ∙ ap (λ o. above o rest) (lookup-count_segment ln seg segs lines)
    ∙ elim (Bool-cases (taken ln seg segs)) [
      | inl e ↦ rw e (above-raise (lookup ln lines) seg.count rest)
      | inr e ↦ rw e refl
    ]

abbrev chosen : Option (Dict ℕ ℕ) → List Segment → Option (Dict ℕ ℕ)
chosen o [] = o
chosen o (seg ∷ segs) = some (count_segments (seg ∷ segs) [])

chosen-or_segments :
    (o : Option (Dict ℕ ℕ)) (segs others : List Segment)
    → chosen o (or_segments segs others) ≡ chosen (chosen o others) segs
chosen-or_segments o [] others = refl
chosen-or_segments o (seg ∷ segs) others = refl

lookup-add_segments :
    (path name : String) (segs : List Segment) (counts : Dict String (Dict ℕ ℕ))
    → lookup path (add_segments name segs counts)
      ≡ chosen (lookup path counts) (if path == name then segs else [])
unfolding add_segments
lookup-add_segments path name [] counts = elim (Bool-cases (path == name)) [
  | inl e ↦ rw e refl
  | inr e ↦ rw e refl
]
lookup-add_segments path name (seg ∷ segs) counts =
    lookup-insert path name (count_segments (seg ∷ segs) []) counts
    ∙ elim (Bool-cases (path == name)) [ inl e ↦ rw e refl | inr e ↦ rw e refl ]

-- The lines of a path are those of the last file of that name that has segments.
lookup-line_counts :
    (path : String) (files : List CovFile) (counts : Dict String (Dict ℕ ℕ))
    → lookup path (line_counts files counts) ≡ chosen (lookup path counts) (segments_of path files)
unfolding line_counts
lookup-line_counts path [] counts = refl
lookup-line_counts path (f ∷ fs) counts =
    lookup-line_counts path fs (add_segments f.filename f.segments counts)
    ∙ ap (λ o. chosen o (segments_of path fs))
        (lookup-add_segments path f.filename f.segments counts)
    ∙ sym (
        chosen-or_segments (lookup path counts) (segments_of path fs)
          (if path == f.filename then f.segments else []))

chosen-maximum :
    (ln : ℕ) (segs : List Segment) → (chosen none segs >>= lookup ln) ≡ maximum (covering ln segs)
chosen-maximum ln [] = refl
chosen-maximum ln (seg ∷ segs) = lookup-count_segments ln (seg ∷ segs) []

-- How often a line has run is the highest count of the segments that reach over it, in the last file
-- of the name that has segments; it is not known where there is none.
pub line_counts-maximum :
    (path : String) (ln : ℕ) (files : List CovFile)
    → (lookup path (line_counts files []) >>= lookup ln)
      ≡ maximum (covering ln (segments_of path files))
line_counts-maximum path ln files =
    ap (λ o. o >>= lookup ln) (lookup-line_counts path files [])
    ∙ chosen-maximum ln (segments_of path files)
