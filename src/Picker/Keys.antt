-- ===== src/Picker/Keys.antt =====
-- `pick_option` of utils/picker.py: sequences of keys.
use apatchy.Base.{
  ℕ, zero, suc, ◌+◌, ◌-◌, ◌<◌, min, String, ◌≡◌, true, if◌then◌else◌, ap, ◌∙◌, some, List, [], ◌∷◌,
  ◌++◌, arith, length, replicate,
}
use apatchy.Picker.{
  ℤ, Round, waiting, returned, raised, fits, visible_rows, act, classify, initial, title_rows, loop,
  pick_option,
}

-- Keys that are pressed one after the other in a window of one size.
abbrev pub presses : ℕ → ℕ → List ℕ → List Round
presses max_y max_x [] = []
presses max_y max_x (k ∷ ks) =
    record { max_y = max_y; max_x = max_x; key = k } ∷ presses max_y max_x ks

abbrev pub down_key : ℕ
down_key = 258

abbrev pub enter_key : ℕ
enter_key = 10

abbrev pub home_key : ℕ
home_key = 262

module _ (max_y max_x n row : ℕ) (room : fits row max_y ≡ true) where
  -- A key in a window that has room for the title.
  loop-press :
      (idx key : ℕ) (ks : List ℕ)
      → loop n row (presses max_y max_x (key ∷ ks)) (waiting idx)
        ≡ loop n row (presses max_y max_x ks) (act (classify key) n (visible_rows max_y row) idx)
  unfolding loop
  loop-press idx key ks =
      ap
        (λ b.
          loop n row (presses max_y max_x ks)
            (if b then act (classify key) n (visible_rows max_y row) idx else raised))
        room

  -- `t` presses of the down key move the selection down by `t`, and stop at the last item.
  loop-downs :
      (t idx : ℕ) (ks : List ℕ)
      → idx < n
      → loop n row (presses max_y max_x (replicate t down_key ++ ks)) (waiting idx)
        ≡ loop n row (presses max_y max_x ks) (waiting (min (n - 1) (idx + t)))
  unfolding loop classify
  loop-downs zero idx ks h = let e : idx ≡ min (n - 1) (idx + 0) = omega arith in rw (← e)
  loop-downs (suc t) idx ks h =
      let e : min (n - 1) (min (n - 1) (idx + 1) + t) ≡ min (n - 1) (idx + suc t) = omega arith in
      loop-press idx down_key (replicate t down_key ++ ks)
      ∙ (loop-downs t (min (n - 1) (idx + 1)) ks (omega arith) ∙ rw e)

-- From any preselection, Home, then Down as often as the index of an item says, then Enter returns
-- the index of that item, in a window of any size that has at least two rows.
pub pick_option-reaches :
    (item : String) (items : List String) (title : String) (selected : ℤ) (max_y max_x t : ℕ)
    → t < length (item ∷ items)
    → 1 < max_y
    → pick_option
        (item ∷ items)
        title
        selected
        (presses max_y max_x (home_key ∷ (replicate t down_key ++ enter_key ∷ [])))
      ≡ returned (some t)
unfolding pick_option classify
pick_option-reaches item items title selected max_y max_x t h m =
    let n = length (item ∷ items) in
    let e : min (n - 1) (0 + t) ≡ t = omega arith in
    let room : fits (title_rows title) max_y ≡ true = ground (arith, m) in
    let row = title_rows title in
    loop-press max_y max_x n row room (initial selected n) home_key
      (replicate t down_key ++ enter_key ∷ [])
    ∙ (loop-downs max_y max_x n row room t 0 (enter_key ∷ []) (omega arith)
        ∙ (rw e (loop-press max_y max_x n row room t enter_key [])))
