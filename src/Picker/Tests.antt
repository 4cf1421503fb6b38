-- ===== src/Picker/Tests.antt =====
-- The menu on concrete runs, and its theorems at concrete inputs.
use apatchy.Base.{
  ◌<>◌, true, false, ◌<◌, ◌+◌, ◌≤◌, ◌≡◌, refl, String, some, none, List, [], ◌∷◌, ◌++◌, arith,
  replicate,
}
use apatchy.Picker.{pos, negsuc, Round, waiting, returned, raised, scroll, draw, pick_option}
use apatchy.Picker.Bounds.{IsWithin, pick_option-IsWithin}
use apatchy.Picker.View.{scroll_bounds}
use apatchy.Picker.Keys.{presses, home_key, down_key, enter_key, pick_option-reaches}

abbrev menu : List String
menu = "2.4.65" ∷ "2.4.62" ∷ "2.4.58" ∷ "2.4.51" ∷ []

abbrev small : Round
small = record { max_y = 5; max_x = 8; key = 10 }

-- Two items fit below the title; the list is scrolled so that the last one is shown.
small_frame :
    draw menu "Pick" 3 small
    ≡ record { y = 3; item = 2; text = "   2." <> "..."; limit = 7; highlighted = false }
      ∷ record { y = 4; item = 3; text = " > 2." <> "..."; limit = 7; highlighted = true }
      ∷ []
unfolding draw
small_frame = refl

cancelled : pick_option menu "Pick" (pos 1) (presses 5 80 (258 ∷ 27 ∷ [])) ≡ returned none
unfolding pick_option
cancelled = refl

page_moves : pick_option menu "" (pos 9) (presses 2 80 (339 ∷ b'k' ∷ b'j' ∷ [])) ≡ waiting 1
unfolding pick_option
page_moves = refl

-- A title in a window of one row.
no_room : pick_option menu "Pick" (pos 1) (presses 1 80 (10 ∷ [])) ≡ raised
unfolding pick_option
no_room = refl

pick_option-IsWithin_example :
    IsWithin 4 (pick_option menu "Pick" (negsuc 6) (presses 5 80 (360 ∷ 258 ∷ 10 ∷ [])))
pick_option-IsWithin_example =
    pick_option-IsWithin "2.4.65" ("2.4.62" ∷ "2.4.58" ∷ "2.4.51" ∷ []) "Pick" (negsuc 6)
      (presses 5 80 (360 ∷ 258 ∷ 10 ∷ []))

scroll_bounds_example : (scroll 7 4 ≤ 7) × (7 < scroll 7 4 + 4)
scroll_bounds_example = scroll_bounds 7 4 (omega arith)

pick_option-reaches_example :
    pick_option menu "Pick"
      (pos 3)
      (presses 5 80 (home_key ∷ (replicate 2 down_key ++ enter_key ∷ [])))
    ≡ returned (some 2)
pick_option-reaches_example =
    pick_option-reaches "2.4.65" ("2.4.62" ∷ "2.4.58" ∷ "2.4.51" ∷ []) "Pick" (pos 3) 5 80 2
      (omega arith) (omega arith)
