-- ===== src/Patch.antt =====
-- internal/tool/apply_patch_parse.go and apply_patch_match.go: the parts of a patch, and where the
-- lines that a hunk expects stand in a file. A text is the list of its runes.
pub mod Fuzzy
pub mod Locate
pub mod Anchor
pub mod Parse
pub mod Total
pub mod Distinct
mod Examples
use lightcode.Prelude.{
  ℕ, zero, suc, ◌+◌, ◌-◌, Bool, true, false, ◌&&◌, ◌||◌, Option, none, some, List, [], ◌∷◌, map,
  Text, same, is_empty, length, get_elem?, ltb, ◌==◌, if◌then◌else◌, trim_right, trim_space,
}

pub data LineKind : Type 0 where
  context add remove : LineKind

abbrev pub is_context : LineKind → Bool
is_context context = true
is_context add = false
is_context remove = false

-- The lines that a hunk expects: context and removed ones
abbrev pub is_pattern : LineKind → Bool
is_pattern context = true
is_pattern remove = true
is_pattern add = false

pub record HunkLine : Type 0 where
  pub kind : LineKind
  pub text : Text

pub record Hunk : Type 0 where
  pub anchor : Text
  pub lines : List HunkLine

pub record HunkLocation : Type 0 where
  pub start : ℕ
  pub real_matched_len : ℕ
  pub synthetic_trailing_empty : Bool

pub data Error : Type 0 where
  no_context : Text → Error
  no_expected_lines : List Text → Error

pub data Result {ℓ} (A : Type ℓ) : Type ℓ where
  fails : Error → Result A
  gives : A → Result A

-- ' ' and '\t', the cutset of level 2
abbrev pub is_blank : ℕ → Bool
is_blank c = (c == 32) || (c == 9)

abbrev one_of : List ℕ → ℕ → Bool
one_of [] c = false
one_of (x ∷ xs) c = (c == x) || one_of xs c

abbrev pub dashes : List ℕ
dashes = 0x2014 ∷ 0x2013 ∷ 0x2012 ∷ 0x2010 ∷ 0x2212 ∷ []

abbrev pub quotes : List ℕ
quotes = 0x2018 ∷ 0x2019 ∷ 0x201A ∷ 0x201B ∷ 0x0060 ∷ 0x00B4 ∷ []

abbrev pub double_quotes : List ℕ
double_quotes = 0x201C ∷ 0x201D ∷ 0x201E ∷ 0x201F ∷ 0x00AB ∷ 0x00BB ∷ []

abbrev pub spaces : List ℕ
spaces =
    32 ∷ 9 ∷ 0x00A0 ∷ 0x2000 ∷ 0x2001 ∷ 0x2002 ∷ 0x2003 ∷ 0x2004 ∷ 0x2005 ∷ 0x2006 ∷ 0x2007 ∷ 0x2008
    ∷ 0x2009 ∷ 0x200A ∷ 0x202F ∷ 0x205F ∷ 0x3000 ∷ []

unfoldable pub ascii_of : ℕ → ℕ
ascii_of c =
    if one_of dashes c
    then 45
    else if one_of quotes c
    then 39
    else if one_of double_quotes c
    then 34
    else if one_of spaces c
    then 32
    else c

unfoldable pub normalize_fuzzy : Text → Text
normalize_fuzzy s = trim_space (map ascii_of s)

unfoldable pub match_at_level : Text → Text → ℕ → Bool
match_at_level line target level =
    if level == 1
    then same line target
    else if level == 2
    then same (trim_right is_blank line) (trim_right is_blank target)
    else if level == 3
    then same (trim_space line) (trim_space target)
    else if level == 4
    then same (normalize_fuzzy line) (normalize_fuzzy target)
    else false

-- A line of the file against a line of the pattern; an index out of range does not occur.
abbrev pub match_line : Option Text → Text → ℕ → Bool
match_line none target level = false
match_line (some line) target level = match_at_level line target level

unfoldable pub match_lines_at : List Text → List HunkLine → ℕ → ℕ → Bool
match_lines_at lines [] start level = true
match_lines_at lines (p ∷ pattern) start level =
    match_line (get_elem? lines start) p.text level
    && match_lines_at lines pattern (1 + start) level

unfoldable pub match_pattern_at : List Text → List HunkLine → ℕ → Bool
match_pattern_at lines pattern start =
    match_lines_at lines pattern start 1
    || match_lines_at lines pattern start 2
    || match_lines_at lines pattern start 3
    || match_lines_at lines pattern start 4

-- `for i := from; i < from + count; i++ { if test(i) { return i } }`
unfoldable pub first_from : (ℕ → Bool) → ℕ → ℕ → Option ℕ
first_from test from zero = none
first_from test from (suc n) =
    let rest = first_from test (1 + from) n in if test from then some from else rest

abbrev pub pattern_from_hunk : List HunkLine → List HunkLine
pattern_from_hunk [] = []
pattern_from_hunk (l ∷ ls) =
    let rest = pattern_from_hunk ls in if is_pattern l.kind then l ∷ rest else rest

abbrev pub pattern_texts : List HunkLine → List Text
pattern_texts [] = []
pattern_texts (p ∷ ps) = p.text ∷ pattern_texts ps

abbrev pub min_of : ℕ → ℕ → ℕ
min_of a b = if ltb b a then b else a

-- A line at any of the four levels
unfoldable pub matches_line : Text → Text → Bool
unfolding match_at_level
matches_line line target =
    match_at_level line target 1
    || match_at_level line target 2
    || match_at_level line target 3
    || match_at_level line target 4

abbrev pub test_line : List Text → Text → ℕ → Bool
test_line lines target i = elim (get_elem? lines i) [
  | none ↦ false
  | some line ↦ matches_line line target
]

abbrev pub line_result : Text → Option ℕ → Result ℕ
line_result target none = fails (no_context target)
line_result target (some i) = gives i

unfoldable pub locate_line : List Text → Text → ℕ → Result ℕ
locate_line lines target cursor =
    if is_empty target
    then gives cursor
    else line_result target (first_from (test_line lines target) cursor (length lines - cursor))

-- The last line of a pattern, and the lines before it
abbrev pub last_line : HunkLine → List HunkLine → HunkLine
last_line p [] = p
last_line p (q ∷ ps) = last_line q ps

abbrev pub init_lines : HunkLine → List HunkLine → List HunkLine
init_lines p [] = []
init_lines p (q ∷ ps) = p ∷ init_lines q ps

abbrev pub is_blank_context : HunkLine → Bool
is_blank_context l = is_context l.kind && is_empty l.text

abbrev pub location : ℕ → ℕ → Bool → HunkLocation
location start len synthetic = record {
  start = start;
  real_matched_len = len;
  synthetic_trailing_empty = synthetic;
}

-- Where the pattern without its blank last line ends the file
abbrev pub ends_at : List Text → List HunkLine → ℕ → Bool
ends_at lines trimmed start =
    match_pattern_at lines trimmed start && (start + length trimmed == length lines)

abbrev pub retry : List HunkLine → List HunkLine → Option ℕ → Result HunkLocation
retry pattern trimmed none = fails (no_expected_lines (pattern_texts pattern))
retry pattern trimmed (some start) = gives (location start (length trimmed) true)

-- `maxStart - c + 1` starts, none when maxStart < c
abbrev pub starts_left : List Text → List HunkLine → ℕ → ℕ
starts_left lines pattern c = 1 + length lines - (length pattern + c)

abbrev pub locate_end : List Text → HunkLine → List HunkLine → ℕ → Result HunkLocation
locate_end lines p ps c =
    let trimmed = init_lines p ps in
    if is_blank_context (last_line p ps)
    then retry (p ∷ ps) trimmed (first_from (ends_at lines trimmed) c (starts_left lines trimmed c))
    else fails (no_expected_lines (pattern_texts (p ∷ ps)))

abbrev pub seq_result : List Text → HunkLine → List HunkLine → ℕ → Option ℕ → Result HunkLocation
seq_result lines p ps c (some start) = gives (location start (length (p ∷ ps)) false)
seq_result lines p ps c none = locate_end lines p ps c

-- The cursors that reach these functions are not negative.
unfoldable pub locate_seq : List Text → List HunkLine → ℕ → Result HunkLocation
locate_seq lines [] cursor = gives (location cursor 0 false)
locate_seq lines (p ∷ ps) cursor =
    let c = min_of cursor (length lines) in
    seq_result lines p ps c
      (first_from (match_pattern_at lines (p ∷ ps)) c (starts_left lines (p ∷ ps) c))

abbrev pub locate_pattern : List Text → List HunkLine → ℕ → Result HunkLocation
locate_pattern lines [] c = gives (location c 0 false)
locate_pattern lines (p ∷ ps) c = locate_seq lines (p ∷ ps) c

abbrev pub after_anchor : List Text → Hunk → Result ℕ → Result HunkLocation
after_anchor lines h (fails e) = fails e
after_anchor lines h (gives i) = locate_pattern lines (pattern_from_hunk h.lines) (1 + i)

unfoldable pub locate_hunk : List Text → Hunk → ℕ → Result HunkLocation
locate_hunk lines h cursor =
    let c = min_of cursor (length lines) in
    if is_empty h.anchor
    then locate_pattern lines (pattern_from_hunk h.lines) c
    else after_anchor lines h (locate_line lines h.anchor c)

abbrev pub start_of : Result HunkLocation → Result ℕ
start_of (fails e) = fails e
start_of (gives l) = gives l.start

unfoldable pub locate : List Text → Hunk → ℕ → Result ℕ
locate lines h cursor = start_of (locate_hunk lines h cursor)
