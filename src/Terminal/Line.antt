-- ===== src/Terminal/Line.antt =====
-- InputLine of internal/terminal/input.go. Slices are taken by `take` and `drop`; with the cursor in
-- the text, which `IsValid` says and every method keeps, no slice is out of range.
use lightcode.Prelude.{
  ℕ, ◌+◌, ◌-◌, Bool, true, false, List, [], ◌∷◌, ◌++◌, ◌==◌, leb, if◌then◌else◌, length, take, drop,
}

pub record InputLine : Type 0 where
  pub text : List ℕ
  pub cursor : ℕ

abbrev pub new_input_line : InputLine
new_input_line = record { text = []; cursor = 0 }

-- CursorText: the text before the cursor
unfoldable pub cursor_text : InputLine → List ℕ
cursor_text il =
    if il.cursor == 0
    then []
    else if leb (length il.text) il.cursor
    then il.text
    else take il.cursor il.text

unfoldable pub insert : InputLine → ℕ → InputLine
insert il r = record {
  text = take il.cursor il.text ++ r ∷ drop il.cursor il.text;
  cursor = il.cursor + 1;
}

unfoldable pub delete_back : InputLine → InputLine × Bool
delete_back il = if il.cursor == 0 then (il, false) else (
  record { text = take (il.cursor - 1) il.text ++ drop il.cursor il.text; cursor = il.cursor - 1 },
  true,
)

unfoldable pub delete_forward : InputLine → InputLine × Bool
delete_forward il =
    if leb (length il.text) il.cursor
    then (il, false)
    else (record il { text = take il.cursor il.text ++ drop (il.cursor + 1) il.text }, true)

unfoldable pub move_left : InputLine → InputLine × Bool
move_left il = if il.cursor == 0 then (il, false) else (record il { cursor = il.cursor - 1 }, true)

unfoldable pub move_right : InputLine → InputLine × Bool
move_right il =
    if leb (length il.text) il.cursor
    then (il, false)
    else (record il { cursor = il.cursor + 1 }, true)

unfoldable pub move_home : InputLine → InputLine
move_home il = record il { cursor = 0 }

unfoldable pub move_end : InputLine → InputLine
move_end il = record il { cursor = length il.text }

unfoldable pub set_text : InputLine → List ℕ → InputLine
set_text il text = record { text = text; cursor = length text }

unfoldable pub clear : InputLine → InputLine
clear il = record { text = []; cursor = 0 }

-- A method call, with the flag that it returns (`true` where it returns nothing)
pub data Call : Type 0 where
  inserts : ℕ → Call
  deletes_back deletes_forward moves_left moves_right moves_home moves_end clears : Call
  sets : List ℕ → Call

unfoldable pub step : InputLine → Call → InputLine × Bool
unfolding insert delete_back delete_forward move_left move_right move_home move_end set_text clear
step il (inserts r) = (insert il r, true)
step il deletes_back = delete_back il
step il deletes_forward = delete_forward il
step il moves_left = move_left il
step il moves_right = move_right il
step il moves_home = (move_home il, true)
step il moves_end = (move_end il, true)
step il clears = (clear il, true)
step il (sets text) = (set_text il text, true)
