-- ===== src/Picker.antt =====
-- framework/src/apatchy/utils/picker.py: `pick_option`, an arrow-key menu in a terminal.
-- A run is a list of rounds of the loop `while True`. Each round has the window's size, as
-- `getmaxyx` gives it, and the key that `getch` returns at its end. The curses constants are those
-- of Python's `curses`. Attributes and colours are one flag: the selected line is highlighted.
-- A window has at least one row and one column, and the terminal can hide the cursor and has colours.
pub mod Bounds
pub mod View
pub mod Keys
mod Tests
use apatchy.Base.{
  ℕ, zero, suc, ◌+◌, ◌-◌, ◌≤◌, ◌<◌, min, max, String, ◌<>◌, Bool, true, false, ◌||◌, Option, none,
  some, List, [], ◌∷◌, ltb, leb, eqb, if◌then◌else◌, length, drop,
}
use apatchy.Base.Text.{size, take}

-- The argument `selected` is any Python integer; `negsuc n` is -(n + 1).
pub data ℤ : Type 0 where
  pos : ℕ → ℤ
  negsuc : ℕ → ℤ

pub data Key : Type 0 where
  up down page_up page_down home end_key enter cancel other : Key

pub record Round : Type 0 where
  pub max_y : ℕ
  pub max_x : ℕ
  pub key : ℕ

-- One call of `addnstr` for an item: its row, the item's index, its text, the most characters that
-- are written, and whether it is highlighted.
pub record Line : Type 0 where
  pub y : ℕ
  pub item : ℕ
  pub text : String
  pub limit : ℕ
  pub highlighted : Bool

-- `waiting` is the menu that still waits for a key, with the selected index; `raised` is the error of
-- curses, which leaves the menu.
pub data Outcome : Type 0 where
  waiting : ℕ → Outcome
  returned : Option ℕ → Outcome
  raised : Outcome

-- The tests on `key`, in the order of the `elif` ladder; KEY_RESIZE and unknown keys do nothing.
unfoldable pub classify : ℕ → Key
classify k =
    if eqb k 259 || eqb k b'k'
    then up
    else if eqb k 258 || eqb k b'j'
    then down
    else if eqb k 339
    then page_up
    else if eqb k 338
    then page_down
    else if eqb k 262
    then home
    else if eqb k 360
    then end_key
    else if eqb k 343 || (eqb k 10 || eqb k 13)
    then enter
    else if eqb k 27 || eqb k b'q'
    then cancel
    else other

-- `max(0, min(selected, len(items) - 1))`
unfoldable pub initial : ℤ → ℕ → ℕ
initial (pos i) n = min i (n - 1)
initial (negsuc i) n = 0

-- `row` after the title: 0, or 3 behind the title, the hint and a blank line
abbrev pub title_rows : String → ℕ
title_rows title = if ltb 0 (size title) then 3 else 0

-- `visible = max_y - row`, and 1 if that is less than 1
abbrev pub visible_rows : ℕ → ℕ → ℕ
visible_rows max_y row = if ltb (max_y - row) 1 then 1 else max_y - row

-- The scroll offset: the two tests that follow `offset = 0`.
unfoldable pub scroll : ℕ → ℕ → ℕ
scroll idx visible =
    let offset = if leb visible idx then idx + 1 - visible else 0 in
    if ltb idx offset then idx else offset

-- `label[:max_x - 6] + "..."` for a label that is longer than `max_x - 3`. A negative end of the
-- slice counts from the label's own end, and a negative `max_x - 3` is shorter than any label.
unfoldable pub shorten : String → ℕ → String
shorten label max_x =
    if ltb max_x (size label + 3)
    then take (if ltb max_x 6 then size label - (6 - max_x) else max_x - 6) label <> "..."
    else label

abbrev row_text : String → Bool → String
row_text label true = " > " <> label
row_text label false = "   " <> label

-- The loop over `range(offset, min(offset + visible, len(items)))`. The items are those from `i`
-- on, and `left` counts how many of the range are left; `y` is `row + (i - offset)`.
unfoldable pub draw_items : ℕ → ℕ → ℕ → ℕ → ℕ → ℕ → List String → List Line
unfolding shorten
draw_items max_y max_x idx y i zero items = []
draw_items max_y max_x idx y i (suc left) [] = []
draw_items max_y max_x idx y i (suc left) (label ∷ items) =
    let rest = draw_items max_y max_x idx (y + 1) (i + 1) left items in
    if leb max_y y
    then []
    else record {
      y = y;
      item = i;
      text = row_text (shorten label max_x) (eqb i idx);
      limit = max_x - 1;
      highlighted = eqb i idx;
    }
      ∷ rest

-- The item lines of one frame.
unfoldable pub draw : List String → String → ℕ → Round → List Line
unfolding draw_items scroll
draw items title idx r =
    let row = title_rows title in
    let visible = visible_rows r.max_y row in
    let offset = scroll idx visible in
    draw_items r.max_y r.max_x idx row offset visible (drop offset items)

-- What a key does to the index, in a list of `n` items.
abbrev pub act : Key → ℕ → ℕ → ℕ → Outcome
act up n visible idx = waiting (max 0 (idx - 1))
act down n visible idx = waiting (min (n - 1) (idx + 1))
act page_up n visible idx = waiting (max 0 (idx - visible))
act page_down n visible idx = waiting (min (n - 1) (idx + visible))
act home n visible idx = waiting 0
act end_key n visible idx = waiting (n - 1)
act enter n visible idx = returned (some idx)
act cancel n visible idx = returned none
act other n visible idx = waiting idx

-- The two lines above the items are written at the rows 0 and 1 without a test: `addnstr` raises an
-- error where the window has no second row. The rows of the items are tested.
abbrev pub fits : ℕ → ℕ → Bool
fits row max_y = eqb row 0 || leb 2 max_y

unfoldable pub round : ℕ → ℕ → Round → ℕ → Outcome
unfolding classify
round n row r idx =
    let next = act (classify r.key) n (visible_rows r.max_y row) idx in
    if fits row r.max_y then next else raised

-- The loop, until a key returns, curses raises an error, or the rounds are used up.
unfoldable pub loop : ℕ → ℕ → List Round → Outcome → Outcome
unfolding round
loop n row rounds (returned choice) = returned choice
loop n row rounds raised = raised
loop n row [] (waiting idx) = waiting idx
loop n row (r ∷ rounds) (waiting idx) = loop n row rounds (round n row r idx)

unfoldable pub pick_option : List String → String → ℤ → List Round → Outcome
unfolding loop initial
pick_option [] title selected rounds = returned none
pick_option (item ∷ items) title selected rounds =
    let n = length (item ∷ items) in loop n (title_rows title) rounds (waiting (initial selected n))
