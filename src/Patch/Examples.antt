-- ===== src/Patch/Examples.antt =====
-- A search of internal/tool/apply_patch_match.go in a small file, and the theorems at it.
use lightcode.Prelude.{
  has_prefix, ◌≡◌, refl, true, List, [], ◌∷◌, Text, codes, same, is_space, trim_left, trim_right,
  trim_space, length,
}
use lightcode.Patch.{
  add, HunkLine, Hunk, context, remove, gives, location, match_at_level, match_pattern_at,
  match_lines_at, locate_seq, locate_line, locate_hunk, min_of, first_from, normalize_fuzzy,
  ascii_of, matches_line,
}
use lightcode.Patch.Parse.{
  parsed, refused, duplicate_path, add_lines, file_op, op_update, parse_patch, parse_ops, section,
  split_lines, trim_lines, hunks_from, hunk_lines, kind_of, is_seen,
}
use lightcode.Patch.Total.{Enough, parse_patch-Enough}
use lightcode.Patch.Distinct.{Gives, IsPatch, parse_patch-IsPatch}
use lightcode.Patch.Fuzzy.{match_pattern_at_lem}
use lightcode.Patch.Locate.{Located, locate_seq_lem}

abbrev file : List Text
file = codes "func a" ∷ codes "x  " ∷ codes "func b" ∷ codes "x" ∷ []

abbrev blank : HunkLine
blank = record { kind = context; text = [] }

abbrev expected : HunkLine
expected = record { kind = remove; text = codes "x" }

abbrev change : Hunk
change = record { anchor = codes "func b"; lines = expected ∷ blank ∷ [] }

-- The anchor passes over the first `x`; the blank last line stands past the end of the file.
found : locate_hunk file change 0 ≡ gives (location 3 1 true)
unfolding locate_hunk locate_line locate_seq first_from match_pattern_at match_lines_at
    match_at_level matches_line normalize_fuzzy ascii_of same is_space trim_left trim_right
    trim_space
found = refl

match_pattern_at_lem_example :
    match_pattern_at file (expected ∷ []) 1 ≡ match_lines_at file (expected ∷ []) 1 4
match_pattern_at_lem_example = match_pattern_at_lem file (expected ∷ []) 1

locate_seq_lem_example :
    Located file expected
      (blank ∷ [])
      (min_of 0 (length file))
      (locate_seq file (expected ∷ blank ∷ []) 0)
locate_seq_lem_example = locate_seq_lem file expected (blank ∷ []) 0

-- A patch of one update, with a move
abbrev input : Text
input =
    codes
      "*** Begin Patch\n*** Update File: a.go\n*** Move to: b.go\n@@ func b\n-x\n+y\n*** End Patch\n"

-- A file that another one is moved to cannot be added.
moved_and_added :
    parse_patch (
      codes
        "*** Begin Patch\n*** Update File: a\n*** Move to: b\n*** Add File: b\n+x\n*** End Patch")
    ≡ refused (duplicate_path (codes "b"))
unfolding parse_patch parse_ops section split_lines trim_lines hunks_from hunk_lines kind_of is_seen
    same has_prefix trim_space trim_left trim_right is_space add_lines
moved_and_added = refl

read :
    parse_patch input
    ≡ parsed (
        file_op op_update (codes "a.go") (codes "b.go") (
          record {
            anchor = codes "func b";
            lines =
                record { kind = remove; text = codes "x" }
                ∷ record { kind = add; text = codes "y" }
                ∷ [];
          }
          ∷ [])
        ∷ [])
unfolding parse_patch parse_ops section split_lines trim_lines hunks_from hunk_lines kind_of is_seen
    has_prefix same trim_space trim_left trim_right is_space
read = refl

parse_patch-Enough_example : Enough (parse_patch input)
parse_patch-Enough_example = parse_patch-Enough input

parse_patch-IsPatch_example : Gives IsPatch (parse_patch input)
parse_patch-IsPatch_example = parse_patch-IsPatch input
