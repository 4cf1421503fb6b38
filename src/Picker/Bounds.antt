-- ===== src/Picker/Bounds.antt =====
-- `pick_option` of utils/picker.py: the index and the list.
use apatchy.Base.{ℕ, ◌<◌, String, some, none, List, [], ◌∷◌, arith, length, Bool-cases, inl, inr}
use apatchy.Picker.{
  ℤ, pos, negsuc, Key, up, down, page_up, page_down, home, end_key, enter, cancel, other, Round,
  Outcome, waiting, returned, raised, classify, initial, title_rows, visible_rows, fits, act, round,
  loop, pick_option,
}

-- The index, where there is one, names one of `n` items.
abbrev pub IsWithin : ℕ → Outcome → Type 0
IsWithin n (waiting idx) = idx < n
IsWithin n (returned none) = Unit
IsWithin n raised = Unit
IsWithin n (returned (some idx)) = idx < n

pub initial-lt : (selected : ℤ) (n : ℕ) → 0 < n → initial selected n < n
unfolding initial
initial-lt (pos i) n h = omega arith
initial-lt (negsuc i) n h = h

act-IsWithin : (k : Key) (n visible idx : ℕ) → idx < n → IsWithin n (act k n visible idx)
act-IsWithin up n visible idx h = omega arith
act-IsWithin down n visible idx h = omega arith
act-IsWithin page_up n visible idx h = omega arith
act-IsWithin page_down n visible idx h = omega arith
act-IsWithin home n visible idx h = omega arith
act-IsWithin end_key n visible idx h = omega arith
act-IsWithin enter n visible idx h = h
act-IsWithin cancel n visible idx h = tt
act-IsWithin other n visible idx h = h

round-IsWithin : (n row : ℕ) (r : Round) (idx : ℕ) → idx < n → IsWithin n (round n row r idx)
unfolding round
round-IsWithin n row r idx h = elim (Bool-cases (fits row r.max_y)) [
  | inl e ↦ rw e (act-IsWithin (classify r.key) n (visible_rows r.max_y row) idx h)
  | inr e ↦ rw e tt
]

pub loop-IsWithin :
    (n row : ℕ) (rounds : List Round) (o : Outcome)
    → IsWithin n o
    → IsWithin n (loop n row rounds o)
unfolding loop
loop-IsWithin n row rounds (returned choice) h = h
loop-IsWithin n row rounds raised h = h
loop-IsWithin n row [] (waiting idx) h = h
loop-IsWithin n row (r ∷ rounds) (waiting idx) h =
    loop-IsWithin n row rounds (round n row r idx) (round-IsWithin n row r idx h)

-- Whatever index is passed in to be selected first, negative or past the end, and whatever keys are
-- pressed in windows of whatever sizes, the index that the menu holds or returns is that of an item.
pub pick_option-IsWithin :
    (item : String) (items : List String) (title : String) (selected : ℤ) (rounds : List Round)
    → IsWithin (length (item ∷ items)) (pick_option (item ∷ items) title selected rounds)
unfolding pick_option
pick_option-IsWithin item items title selected rounds =
    let n = length (item ∷ items) in
    loop-IsWithin n (title_rows title) rounds (waiting (initial selected n))
      (initial-lt selected n (omega arith))
