-- ===== src/Patch/Anchor.antt =====
-- The anchor of a hunk and the whole search of internal/tool/apply_patch_match.go.
use mathlib.Core.Path.{subst}
use lightcode.Prelude.{
  ℕ, zero, suc, ◌+◌, ◌-◌, ◌≤◌, ◌<◌, ◌≡◌, refl, Bool, true, false, ◌&&◌, Option, none, some, List,
  [], ◌∷◌, Text, is_empty, length, leb, ltb, arith, if_cases,
}
use lightcode.Patch.{
  HunkLine, Hunk, HunkLocation, Result, fails, gives, no_context, test_line, locate_line,
  line_result, min_of, locate_seq, pattern_from_hunk, locate_hunk, start_of, locate, locate_pattern,
  after_anchor,
}
use lightcode.Patch.Locate.{IsFirst, first_from-IsFirst, Located, LocatedAt, locate_seq_lem}

-- The anchor's line, the first that matches from the cursor on, or no such line
abbrev pub LineFound : List Text → Text → ℕ → Result ℕ → Type 0
LineFound lines target c (gives i) =
    (test_line lines target i ≡ true)
    × (c ≤ i)
    × (i < length lines)
    × ((j : ℕ) → (test_line lines target j && leb c j && ltb j i) ≡ false)
LineFound lines target c (fails e) =
    (e ≡ no_context target) × ((j : ℕ) → (test_line lines target j && leb c j) ≡ false)

test_line_below :
    (lines : List Text) (target : Text) (i : ℕ) → test_line lines target i ≡ true → i < length lines
test_line_below [] target i h = cc
test_line_below (x ∷ lines) target zero h = omega arith
test_line_below (x ∷ lines) target (suc i) h = omega (arith, test_line_below lines target i h)

line_result-LineFound :
    (lines : List Text) (target : Text) (c : ℕ) (o : Option ℕ)
    → c ≤ length lines
    → IsFirst (test_line lines target) c (length lines - c) o
    → LineFound lines target c (line_result target o)
line_result-LineFound lines target c none b f =
    (refl, λ j. ground (arith, f j, test_line_below lines target j))
line_result-LineFound lines target c (some r) b (passes, low, high, before) =
    (passes, low, test_line_below lines target r passes, before)

-- For a non-empty anchor and a cursor inside the file, the anchor's search gives the first line at
-- or after the cursor that matches at some level, and it fails only when no line there matches.
pub locate_line_lem :
    (lines : List Text) (target : Text) (c : ℕ)
    → is_empty target ≡ false
    → c ≤ length lines
    → LineFound lines target c (locate_line lines target c)
unfolding locate_line
locate_line_lem lines target c h b =
    rw h
      (line_result-LineFound lines target c _ b (first_from-IsFirst (test_line lines target) c _))

-- A place between two bounds
abbrev pub Between : ℕ → ℕ → Result ℕ → Type 0
Between low high (fails e) = Unit {0}
Between low high (gives i) = (low ≤ i) × (i ≤ high)

LocatedAt-Between :
    (lines : List Text) (p : HunkLine) (ps : List HunkLine) (c : ℕ) (l : HunkLocation) (b : Bool)
    → LocatedAt lines p ps c l b
    → Between c (length lines) (gives l.start)
LocatedAt-Between lines p ps c l false (m, low, high, len, before) = (low, omega (arith, high))
LocatedAt-Between lines p ps c l true (b, m, low, high, len, before) = (low, omega (arith, high))

Located-Between :
    (lines : List Text) (p : HunkLine) (ps : List HunkLine) (c : ℕ) (r : Result HunkLocation)
    → Located lines p ps c r
    → Between c (length lines) (start_of r)
Located-Between lines p ps c (fails e) l = tt
Located-Between lines p ps c (gives l) k =
    LocatedAt-Between lines p ps c l l.synthetic_trailing_empty k

min_of_le : (a b : ℕ) → min_of a b ≤ b
min_of_le a b = ground arith

min_of_same : (a b : ℕ) → a ≤ b → min_of a b ≡ a
min_of_same a b h = ground (arith, h)

locate_pattern-Between :
    (lines : List Text) (pattern : List HunkLine) (c : ℕ)
    → c ≤ length lines
    → Between c (length lines) (start_of (locate_pattern lines pattern c))
locate_pattern-Between lines [] c h = (omega arith, h)
locate_pattern-Between lines (p ∷ ps) c h =
    let at : Between (min_of c (length lines)) (length lines)
        (start_of (locate_seq lines (p ∷ ps) c)) =
      Located-Between lines p ps _ (locate_seq lines (p ∷ ps) c) (locate_seq_lem lines p ps c) in
    subst (λ x. Between x (length lines) (start_of (locate_seq lines (p ∷ ps) c)))
      (min_of_same c (length lines) h) at

Between-weaken :
    (low mid high : ℕ) (r : Result ℕ) → low ≤ mid → Between mid high r → Between low high r
Between-weaken low mid high (fails e) h k = tt
Between-weaken low mid high (gives i) h k = ground (arith, h, k)

after_anchor-Between :
    (lines : List Text) (h : Hunk) (c : ℕ) (r : Result ℕ)
    → LineFound lines h.anchor c r
    → Between c (length lines) (start_of (after_anchor lines h r))
after_anchor-Between lines h c (fails e) f = tt
after_anchor-Between lines h c (gives i) (m, low, high, before) =
    Between-weaken c (1 + i) (length lines) _ (omega (arith, low))
      (locate_pattern-Between lines (pattern_from_hunk h.lines) (1 + i) (omega (arith, high)))

-- A hunk is located at or after the cursor, cut at the file's length, and never past the end of
-- the file.
pub locate_lem :
    (lines : List Text) (h : Hunk) (cursor : ℕ)
    → Between (min_of cursor (length lines)) (length lines) (locate lines h cursor)
unfolding locate locate_hunk
locate_lem lines h cursor =
    let c : ℕ = min_of cursor (length lines) in
    let inside : c ≤ length lines = min_of_le cursor (length lines) in
    if_cases (λ r. Between c (length lines) (start_of r)) (is_empty h.anchor) _ _
      (λ e. locate_pattern-Between lines (pattern_from_hunk h.lines) c inside)
      (λ e. after_anchor-Between lines h c _ (locate_line_lem lines h.anchor c e inside))
