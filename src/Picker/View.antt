-- ===== src/Picker/View.antt =====
-- `pick_option` of utils/picker.py: what a frame shows.
use apatchy.Base.{
  ℕ, zero, suc, ◌+◌, ◌≤◌, ◌<◌, String, ◌≡◌, refl, List, [], ◌∷◌, arith, length, drop, length-drop,
  leb, if◌then◌else◌, Bool-cases, inl, inr,
}
use apatchy.Picker.{Round, Line, scroll, title_rows, visible_rows, draw_items, draw}

-- The offset keeps the selection inside the visible part of the list.
pub scroll_bounds :
    (idx visible : ℕ)
    → 0 < visible
    → (scroll idx visible ≤ idx) × (idx < scroll idx visible + visible)
unfolding scroll
scroll_bounds idx visible h = ground arith

-- The items of the highlighted lines.
abbrev pub marked : List Line → List ℕ
marked [] = []
marked (l ∷ lines) = if l.highlighted then l.item ∷ marked lines else marked lines

marked-draw_items_of_lt :
    (max_y max_x idx y i left : ℕ) (items : List String)
    → idx < i
    → marked (draw_items max_y max_x idx y i left items) ≡ []
unfolding draw_items
marked-draw_items_of_lt max_y max_x idx y i zero items h = refl
marked-draw_items_of_lt max_y max_x idx y i (suc left) [] h = refl
marked-draw_items_of_lt max_y max_x idx y i (suc left) (label ∷ items) h =
    ground (arith, marked-draw_items_of_lt max_y max_x idx (y + 1) (i + 1) left items)

-- Where the selected item is among those that are drawn, exactly its line is highlighted.
marked-draw_items :
    (max_y max_x idx y i left : ℕ) (items : List String)
    → i ≤ idx
    → idx < i + left
    → idx < i + length items
    → y + idx < max_y + i
    → marked (draw_items max_y max_x idx y i left items) ≡ idx ∷ []
unfolding draw_items
marked-draw_items max_y max_x idx y i zero items h₁ h₂ h₃ h₄ = absurd (omega arith)
marked-draw_items max_y max_x idx y i (suc left) [] h₁ h₂ h₃ h₄ = absurd (omega arith)
marked-draw_items max_y max_x idx y i (suc left) (label ∷ items) h₁ h₂ h₃ h₄ = ground (
  arith,
  marked-draw_items max_y max_x idx (y + 1) (i + 1) left items,
  marked-draw_items_of_lt max_y max_x idx (y + 1) (i + 1) left items,
)

-- In a window that has a row below the title, a frame highlights one line, and it is the line of the
-- selected item.
marked-draw :
    (items : List String) (title : String) (idx : ℕ) (r : Round)
    → title_rows title < r.max_y
    → idx < length items
    → marked (draw items title idx r) ≡ idx ∷ []
unfolding draw
marked-draw items title idx r fits h =
    let row = title_rows title in
    let visible = visible_rows r.max_y row in
    let offset = scroll idx visible in
    let (low, high) = scroll_bounds idx visible (ground arith) in
    let len = length-drop offset items in
    let exact : visible + row ≡ r.max_y = ground arith in
    marked-draw_items r.max_y r.max_x idx row offset visible (drop offset items) low (omega arith)
      (omega (arith, len)) (omega (arith, exact))

-- The rows of the lines run on from `y` and end above `limit`.
abbrev pub Consecutive : ℕ → ℕ → List Line → Type 0
Consecutive limit y [] = Unit
Consecutive limit y (l ∷ lines) = (l.y ≡ y) × (y < limit) × Consecutive limit (y + 1) lines

draw_items-Consecutive :
    (max_y max_x idx y i left : ℕ) (items : List String)
    → Consecutive max_y y (draw_items max_y max_x idx y i left items)
unfolding draw_items
draw_items-Consecutive max_y max_x idx y i zero items = tt
draw_items-Consecutive max_y max_x idx y i (suc left) [] = tt
draw_items-Consecutive max_y max_x idx y i (suc left) (label ∷ items) =
    let ih = draw_items-Consecutive max_y max_x idx (y + 1) (i + 1) left items in
    elim (Bool-cases (leb max_y y)) [ inl e ↦ rw e tt | inr e ↦ rw e (refl, ground arith, ih) ]

-- The lines of a frame stand on consecutive rows, the first below the title, and none of them is
-- below the window.
draw-Consecutive :
    (items : List String) (title : String) (idx : ℕ) (r : Round)
    → Consecutive r.max_y (title_rows title) (draw items title idx r)
unfolding draw
draw-Consecutive items title idx r = draw_items-Consecutive r.max_y r.max_x idx _ _ _ _
