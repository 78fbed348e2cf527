-- ===== src/Permission.antt =====
-- harness/permission.go: requests, globs, and the levels of a policy.
-- A text is the list of its runes.
pub mod Builtin
pub mod Pattern
pub mod Glob
pub mod Policy
pub mod Parse
mod Examples
use lightcode.Prelude.{
  ℕ, Bool, true, false, not, ◌&&◌, ◌||◌, Option, none, some, List, [], ◌∷◌, ◌++◌, Text, same,
  is_empty, codes, ◌==◌, if◌then◌else◌,
}

pub record PermissionRequest : Type 0 where
  pub permission : Text
  pub target : Text

abbrev pub file_read : Text
file_read = codes "file.read"

abbrev pub file_write : Text
file_write = codes "file.write"

abbrev pub command_run : Text
command_run = codes "command.run"

abbrev pub sleep : Text
sleep = codes "sleep"

abbrev pub child_launch : Text
child_launch = codes "child.launch"

abbrev pub process_own : Text
process_own = codes "process.own"

-- The pieces of the expression that compileGlob writes: `(?s)`, `\A`, `\z`, `.*`, `.` and a rune that
-- regexp.QuoteMeta has quoted
pub data Piece : Type 0 where
  dot_all begin_text end_text stars one : Piece
  literal : ℕ → Piece

abbrev pub cons_piece : Piece → Option (List Piece) → Option (List Piece)
cons_piece p none = none
cons_piece p (some g) = some (p ∷ g)

-- A backslash quotes the rune that follows; `quoted` is whether one has been read.
unfoldable pub compile_from : Bool → Text → Option (List Piece)
compile_from true [] = none
compile_from true (c ∷ s) = cons_piece (literal c) (compile_from false s)
compile_from false [] = some []
compile_from false (c ∷ s) =
    let plain = compile_from false s in
    let quoted = compile_from true s in
    if c == 42
    then cons_piece stars plain
    else if c == 63
    then cons_piece one plain
    else if c == 92
    then quoted
    else cons_piece (literal c) plain

abbrev pub anchored : List Piece → List Piece
anchored g = dot_all ∷ begin_text ∷ (g ++ end_text ∷ [])

abbrev pub expression_of : Option (List Piece) → Option (List Piece)
expression_of none = none
expression_of (some g) = some (anchored g)

unfoldable pub compile_glob : Text → Option (List Piece)
unfolding compile_from
compile_glob pattern = expression_of (compile_from false pattern)

-- Package regexp on these expressions. `at` is whether no rune of the text is before this place, and `dots`
-- whether `.` takes a newline.
abbrev takes_rune : Bool → ℕ → Bool
takes_rune dots c = dots || not (c == 10)

-- A run of runes that `.` takes, which may be empty, and then the test
unfoldable pub after_run : Bool → (Bool → Text → Bool) → Bool → Text → Bool
after_run dots test at [] = test at []
after_run dots test at (c ∷ s) =
    test at (c ∷ s) || (takes_rune dots c && after_run dots test false s)

abbrev pub after_rune : Bool → (Text → Bool) → Text → Bool
after_rune dots test [] = false
after_rune dots test (c ∷ s) = takes_rune dots c && test s

abbrev pub after_literal : ℕ → (Text → Bool) → Text → Bool
after_literal c test [] = false
after_literal c test (d ∷ s) = d == c && test s

unfoldable pub match_here : List Piece → Bool → Bool → Text → Bool
unfolding after_run
match_here [] dots at s = true
match_here (dot_all ∷ g) dots at s = match_here g true at s
match_here (begin_text ∷ g) dots at s = at && match_here g dots at s
match_here (end_text ∷ g) dots at s = is_empty s && match_here g dots at s
match_here (stars ∷ g) dots at s = after_run dots (match_here g dots) at s
match_here (one ∷ g) dots at s = after_rune dots (match_here g dots false) s
match_here (literal c ∷ g) dots at s = after_literal c (match_here g dots false) s

-- A match at some place of the text
unfoldable pub match_from : List Piece → Bool → Text → Bool
unfolding match_here
match_from g at [] = match_here g false at []
match_from g at (c ∷ s) = match_here g false at (c ∷ s) || match_from g false s

unfoldable pub match_string : List Piece → Text → Bool
unfolding match_from
match_string g s = match_from g true s

pub record PermissionRule : Type 0 where
  pub permission : Text
  pub glob : List Piece
  pub allow : Bool

pub record PermissionLevel : Type 0 where
  pub rules : List PermissionRule
  pub default_allow : Option Bool

pub record PermissionPolicy : Type 0 where
  pub global : PermissionLevel
  pub workspace : PermissionLevel

abbrev pub no_level : PermissionLevel
no_level = record { rules = []; default_allow = none }

abbrev pub applies : PermissionRule → PermissionRequest → Bool
applies rule req = same rule.permission req.permission && match_string rule.glob req.target

-- The loop of decide: a later match overrides the answer so far.
unfoldable pub decide_from : Option Bool → List PermissionRule → PermissionRequest → Option Bool
decide_from answer [] req = answer
decide_from answer (rule ∷ rules) req =
    decide_from (if applies rule req then some rule.allow else answer) rules req

abbrev pub or_else : Option Bool → Option Bool → Option Bool
or_else (some a) other = some a
or_else none other = other

unfoldable pub decide : PermissionLevel → PermissionRequest → Option Bool
unfolding decide_from
decide level req = or_else (decide_from none level.rules req) level.default_allow
