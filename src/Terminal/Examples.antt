-- ===== src/Terminal/Examples.antt =====
-- The theorems about internal/terminal/input.go at concrete inputs.
use lightcode.Prelude.{◌≤◌, ◌≡◌, ◌≢◌, refl, List, [], ◌∷◌, codes, arith, length}
use lightcode.Terminal.Keys
use lightcode.Terminal.Keys.{Typed, pressed, typed, key_of}
use lightcode.Terminal.Line.{InputLine, deletes_forward, step}
use lightcode.Terminal.Zipper.{meaning, line_of, before_of, after_of, step-refines}
use lightcode.Terminal.History.{InputHistory}

up_key : Keys.up ≢ Keys.none
up_key e = cc

delete_key : Keys.delete ≢ Keys.none
delete_key e = cc

escape_key : Keys.escape ≢ Keys.none
escape_key e = cc

-- An `x`, two keys that are sequences of bytes, and the escape key.
abbrev keys : List Typed
unfolding key_of
keys =
    typed b'x' (omega arith) refl
    ∷ pressed Keys.up up_key
    ∷ pressed Keys.delete delete_key
    ∷ pressed Keys.escape escape_key
    ∷ []

abbrev line : InputLine
line = record { text = 97 ∷ 98 ∷ 99 ∷ []; cursor = 1 }

step-refines_example :
    let (z, flag) = meaning (before_of line) (after_of line) deletes_forward in
    (step line deletes_forward ≡ (line_of z, flag))
    × ((step line deletes_forward).0.cursor ≤ length (step line deletes_forward).0.text)
step-refines_example = step-refines line deletes_forward (omega arith)

abbrev history : InputHistory
history = record { entries = codes "ls" ∷ codes "pwd" ∷ codes "make" ∷ []; pos = 3; draft = [] }
