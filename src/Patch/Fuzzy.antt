-- ===== src/Patch/Fuzzy.antt =====
-- The ladder of match levels of internal/tool/apply_patch_match.go: each level accepts what the one before accepts.
use lightcode.Prelude.{
  ℕ, ◌<◌, zero, suc, ◌+◌, ◌≡◌, refl, Bool, true, Option, none, some, List, [], ◌∷◌, map, Text, same,
  same_iff, is_empty, is_space, trim_left, trim_right, trim_space, get_elem?, arith, ap, ◌∙◌, sym,
}
use lightcode.Patch.{
  HunkLine, is_blank, ascii_of, normalize_fuzzy, match_at_level, match_line, match_lines_at,
  match_pattern_at,
}

-- Normalizing a rune changes nothing about its being a space.
is_space-ascii_of : (c : ℕ) → is_space (ascii_of c) ≡ is_space c
unfolding is_space ascii_of
is_space-ascii_of c = ground arith

is_empty-map : (f : ℕ → ℕ) (s : Text) → is_empty (map f s) ≡ is_empty s
is_empty-map f [] = refl
is_empty-map f (c ∷ s) = refl

trim_left-map :
    (f : ℕ → ℕ) (cut : ℕ → Bool) (s : Text)
    → ((c : ℕ) → cut (f c) ≡ cut c)
    → trim_left cut (map f s) ≡ map f (trim_left cut s)
unfolding trim_left
trim_left-map f cut [] h = refl
trim_left-map f cut (c ∷ s) h = ground (arith, h c, trim_left-map f cut s h)

trim_right-map :
    (f : ℕ → ℕ) (cut : ℕ → Bool) (s : Text)
    → ((c : ℕ) → cut (f c) ≡ cut c)
    → trim_right cut (map f s) ≡ map f (trim_right cut s)
unfolding trim_right
trim_right-map f cut [] h = refl
trim_right-map f cut (c ∷ s) h =
    ground (arith, h c, trim_right-map f cut s h, is_empty-map f (trim_right cut s))

trim_space-map :
    (f : ℕ → ℕ) (s : Text)
    → ((c : ℕ) → is_space (f c) ≡ is_space c)
    → trim_space (map f s) ≡ map f (trim_space s)
unfolding trim_space
trim_space-map f s h =
    ap (trim_right is_space) (trim_left-map f is_space s h)
    ∙ trim_right-map f is_space (trim_left is_space s) h

normalize_fuzzy_lem : (s : Text) → normalize_fuzzy s ≡ map ascii_of (trim_space s)
unfolding normalize_fuzzy
normalize_fuzzy_lem s = trim_space-map ascii_of s is_space-ascii_of

is_blank-space : (c : ℕ) → is_blank c ≡ true → is_space c ≡ true
unfolding is_space
is_blank-space c h = ground arith

-- Trimming blanks before all white space changes nothing.
trim_right-blank : (s : Text) → trim_right is_space (trim_right is_blank s) ≡ trim_right is_space s
unfolding trim_right
trim_right-blank [] = refl
trim_right-blank (c ∷ s) = ground (arith, is_blank-space c, trim_right-blank s)

trim_left-trim_right :
    (cut blank : ℕ → Bool) (s : Text)
    → ((c : ℕ) → blank c ≡ true → cut c ≡ true)
    → trim_left cut (trim_right blank s) ≡ trim_right blank (trim_left cut s)
unfolding trim_left trim_right
trim_left-trim_right cut blank [] h = refl
trim_left-trim_right cut blank (c ∷ s) h = ground (arith, h c, trim_left-trim_right cut blank s h)

trim_space-blank : (s : Text) → trim_space (trim_right is_blank s) ≡ trim_space s
unfolding trim_space
trim_space-blank s =
    ap (trim_right is_space) (trim_left-trim_right is_space is_blank s is_blank-space)
    ∙ trim_right-blank (trim_left is_space s)

same_ap : (f : Text → Text) (s t : Text) → same s t ≡ true → same (f s) (f t) ≡ true
same_ap f s t h = (same_iff (f s) (f t)).1 (ap f ((same_iff s t).0 h))

level_two : (s t : Text) → match_at_level s t 1 ≡ true → match_at_level s t 2 ≡ true
unfolding match_at_level
level_two s t h = same_ap (trim_right is_blank) s t h

level_three : (s t : Text) → match_at_level s t 2 ≡ true → match_at_level s t 3 ≡ true
unfolding match_at_level
level_three s t h = (same_iff (trim_space s) (trim_space t)).1 (
    sym (trim_space-blank s)
    ∙ ap trim_space ((same_iff (trim_right is_blank s) (trim_right is_blank t)).0 h)
    ∙ trim_space-blank t)

level_four : (s t : Text) → match_at_level s t 3 ≡ true → match_at_level s t 4 ≡ true
unfolding match_at_level
level_four s t h = (same_iff (normalize_fuzzy s) (normalize_fuzzy t)).1 (
    normalize_fuzzy_lem s
    ∙ ap (map ascii_of) ((same_iff (trim_space s) (trim_space t)).0 h)
    ∙ sym (normalize_fuzzy_lem t))

no_level : (s t : Text) → match_at_level s t 0 ≡ true → match_at_level s t 1 ≡ true
unfolding match_at_level
no_level s t h = cc

past_four : (n : ℕ) → suc (suc (suc (suc n))) < 4 → ⊥
past_four n h = omega (arith, h)

-- A line that matches at a level of the ladder below 4 matches at the next one.
pub match_at_level_suc :
    (line target : Text) (level : ℕ)
    → level < 4
    → match_at_level line target level ≡ true
    → match_at_level line target (1 + level) ≡ true
match_at_level_suc line target zero h k = no_level line target k
match_at_level_suc line target (suc zero) h k = level_two line target k
match_at_level_suc line target (suc (suc zero)) h k = level_three line target k
match_at_level_suc line target (suc (suc (suc zero))) h k = level_four line target k
match_at_level_suc line target (suc (suc (suc (suc n)))) h k = elim (past_four n h) [ ]

match_line_suc :
    (o : Option Text) (target : Text) (level : ℕ)
    → level < 4
    → match_line o target level ≡ true
    → match_line o target (1 + level) ≡ true
match_line_suc none target level h k = k
match_line_suc (some line) target level h k = match_at_level_suc line target level h k

match_lines_at_suc :
    (lines : List Text) (pattern : List HunkLine) (start level : ℕ)
    → level < 4
    → match_lines_at lines pattern start level ≡ true
    → match_lines_at lines pattern start (1 + level) ≡ true
unfolding match_lines_at
match_lines_at_suc lines [] start level h k = refl
match_lines_at_suc lines (p ∷ ps) start level h k = ground (
  arith,
  match_lines_at_suc lines ps (1 + start) level h,
  match_line_suc (get_elem? lines start) p.text level h,
)

-- The ladder decides as its last level does: a pattern matches at a position at some level exactly
-- when all of its lines match there after normalizing and trimming.
pub match_pattern_at_lem :
    (lines : List Text) (pattern : List HunkLine) (start : ℕ)
    → match_pattern_at lines pattern start ≡ match_lines_at lines pattern start 4
unfolding match_pattern_at
match_pattern_at_lem lines pattern start = ground (
  arith,
  match_lines_at_suc lines pattern start 1 (omega arith),
  match_lines_at_suc lines pattern start 2 (omega arith),
  match_lines_at_suc lines pattern start 3 (omega arith),
)
