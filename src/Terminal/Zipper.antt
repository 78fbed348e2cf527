-- ===== src/Terminal/Zipper.antt =====
-- What internal/terminal/input.go's InputLine is for: a text with a gap, whose left part is kept
-- nearest rune first. Every method of InputLine does what its counterpart here does.
use mathlib.Core.List.{reverse, reverse-cons, append_assoc, append-nil, reverse-reverse}
use native.Mathlib.Numerals.{add-one}
use mathlib.Core.Path.{subst}
use lightcode.Prelude.{
  take-append-drop, length-take, ℕ, ◌+◌, ◌≤◌, ◌≡◌, refl, Bool, true, false, List, [], ◌∷◌, ◌++◌,
  arith, length, take, drop, length-append, take-length, drop-length, ap, ◌∙◌, sym,
}
use lightcode.Terminal.Line.{
  InputLine, Call, inserts, deletes_back, deletes_forward, moves_left, moves_right, moves_home,
  moves_end, clears, sets, step, cursor_text,
}

pub record Zipper : Type 0 where
  pub before : List ℕ
  pub after : List ℕ

abbrev gap : List ℕ → List ℕ → Zipper
gap before after = record { before = before; after = after }

-- What each method means, on the two sides of the gap
abbrev pub meaning : List ℕ → List ℕ → Call → Zipper × Bool
meaning b a (inserts r) = (gap (r ∷ b) a, true)
meaning [] a deletes_back = (gap [] a, false)
meaning (x ∷ b) a deletes_back = (gap b a, true)
meaning b [] deletes_forward = (gap b [], false)
meaning b (x ∷ a) deletes_forward = (gap b a, true)
meaning [] a moves_left = (gap [] a, false)
meaning (x ∷ b) a moves_left = (gap b (x ∷ a), true)
meaning b [] moves_right = (gap b [], false)
meaning b (x ∷ a) moves_right = (gap (x ∷ b) a, true)
meaning b a moves_home = (gap [] (reverse b ++ a), true)
meaning b a moves_end = (gap (reverse (reverse b ++ a)) [], true)
meaning b a clears = (gap [] [], true)
meaning b a (sets text) = (gap (reverse text) [], true)

abbrev pub line_of : Zipper → InputLine
line_of z = record { text = reverse z.before ++ z.after; cursor = length z.before }

length-reverse : (xs : List ℕ) → length (reverse xs) ≡ length xs
length-reverse [] = refl
length-reverse (x ∷ xs) =
    ap length (reverse-cons x xs)
    ∙ length-append (reverse xs) (x ∷ [])
    ∙ omega (arith, length-reverse xs)

take_before : (b a : List ℕ) → take (length b) (reverse b ++ a) ≡ reverse b
take_before b a = rw (← length-reverse b) (take-length (reverse b) a)

drop_before : (b a : List ℕ) → drop (length b) (reverse b ++ a) ≡ a
drop_before b a = rw (← length-reverse b) (drop-length (reverse b) a)

-- A rune that moves across the gap
shift : (x : ℕ) (b a : List ℕ) → reverse (x ∷ b) ++ a ≡ reverse b ++ x ∷ a
shift x b a = rw reverse-cons (append_assoc (reverse b) (x ∷ []) a)

drop_after : (x : ℕ) (b a : List ℕ) → drop (length b + 1) (reverse b ++ x ∷ a) ≡ a
drop_after x b a = rw (← shift x b a, add-one) (drop_before (x ∷ b) a)

length_text : (b a : List ℕ) → length (reverse b ++ a) ≡ length b + length a
length_text b a = rw (length-append, length-reverse)

-- Every method, on every line that a gap describes, leaves the line of the gap that the method means
-- and returns its flag.
pub step_lem :
    (b a : List ℕ) (c : Call)
    → step (line_of (gap b a)) c ≡ (line_of (meaning b a c).0, (meaning b a c).1)
unfolding step
step_lem b a (inserts r) = ground (arith, take_before b a, drop_before b a, shift r b a)
step_lem [] a deletes_back = refl
step_lem (x ∷ b) a deletes_back =
    ground (arith, shift x b a, take_before b (x ∷ a), drop_before (x ∷ b) a)
step_lem b [] deletes_forward = ground (arith, length_text b [])
step_lem b (x ∷ a) deletes_forward =
    ground (arith, length_text b (x ∷ a), take_before b (x ∷ a), drop_after x b a)
step_lem [] a moves_left = refl
step_lem (x ∷ b) a moves_left = ground (arith, shift x b a)
step_lem b [] moves_right = ground (arith, length_text b [])
step_lem b (x ∷ a) moves_right = ground (arith, length_text b (x ∷ a), shift x b a)
step_lem b a moves_home = refl
step_lem b a moves_end = ground (
  arith,
  reverse-reverse (reverse b ++ a),
  append-nil (reverse (reverse (reverse b ++ a))),
  length-reverse (reverse b ++ a),
)
step_lem b a clears = refl
step_lem b a (sets text) =
    ground (arith, reverse-reverse text, append-nil (reverse (reverse text)), length-reverse text)

-- The gap of a line whose cursor stands in its text
abbrev pub before_of : InputLine → List ℕ
before_of il = reverse (take il.cursor il.text)

abbrev pub after_of : InputLine → List ℕ
after_of il = drop il.cursor il.text

line_lem :
    (il : InputLine) → il.cursor ≤ length il.text → il ≡ line_of (gap (before_of il) (after_of il))
line_lem il h = ground (
  arith,
  reverse-reverse (take il.cursor il.text),
  take-append-drop il.cursor il.text,
  length-reverse (take il.cursor il.text),
  length-take il.cursor il.text,
)

cursor-line_of : (z : Zipper) → (line_of z).cursor ≤ length (line_of z).text
cursor-line_of z = omega (arith, length_text z.before z.after)

-- A method on a line whose cursor stands in its text does what it means for the runes on the two
-- sides of the cursor, and leaves the cursor in the text.
pub step-refines :
    (il : InputLine) (c : Call)
    → il.cursor ≤ length il.text
    → let (z, flag) = meaning (before_of il) (after_of il) c in
      (step il c ≡ (line_of z, flag)) × ((step il c).0.cursor ≤ length (step il c).0.text)
step-refines il c h =
    let (z, flag) = meaning (before_of il) (after_of il) c in
    let e : step il c ≡ (line_of z, flag) =
      ap (λ l. step l c) (line_lem il h) ∙ step_lem (before_of il) (after_of il) c in
    (e, subst (λ (r : InputLine × Bool). r.0.cursor ≤ length r.0.text) (sym e) (cursor-line_of z))

cursor_text-gap : (b a : List ℕ) → cursor_text (line_of (gap b a)) ≡ reverse b
unfolding cursor_text
cursor_text-gap [] a = refl
cursor_text-gap (x ∷ b) [] = ground (arith, length_text (x ∷ b) [], append-nil (reverse (x ∷ b)))
cursor_text-gap (x ∷ b) (y ∷ a) =
    ground (arith, length_text (x ∷ b) (y ∷ a), take_before (x ∷ b) (y ∷ a))

-- What is shown before the cursor is the left part of the gap.
pub cursor_text_lem : (z : Zipper) → cursor_text (line_of z) ≡ reverse z.before
cursor_text_lem z = cursor_text-gap z.before z.after

-- A typed rune is taken back by one backspace, wherever the cursor stands in the text.
pub insert-delete_back :
    (il : InputLine) (r : ℕ)
    → il.cursor ≤ length il.text
    → step (step il (inserts r)).0 deletes_back ≡ (il, true)
insert-delete_back il r h =
    let typed = (step-refines il (inserts r) h).0 in
    ap (λ (p : InputLine × Bool). step p.0 deletes_back) typed
    ∙ step_lem (r ∷ before_of il) (after_of il) deletes_back
    ∙ ap (λ l. (l, true)) (sym (line_lem il h))
