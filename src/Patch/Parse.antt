-- ===== src/Patch/Parse.antt =====
-- parsePatch of internal/tool/apply_patch_parse.go. The loop over the body runs on fuel, one for
-- each line, and so does the loop over the hunks of a file.
use lightcode.Prelude.{
  ℕ, zero, suc, Bool, true, false, not, ◌&&◌, ◌||◌, Option, none, some, List, [], ◌∷◌, Text, same,
  codes, is_empty, has_prefix, trim_space, length, drop, ◌==◌, if◌then◌else◌,
}
use lightcode.Patch.{LineKind, context, add, remove, HunkLine, Hunk}

pub data OpKind : Type 0 where
  op_add op_update op_delete : OpKind

pub record FileOp : Type 0 where
  pub kind : OpKind
  pub path : Text
  pub move_path : Text
  pub hunks : List Hunk

pub data ParseError : Type 0 where
  empty_input no_begin no_end no_ops unknown_head add_body hunk_line expected_section : ParseError
  empty_path no_content no_hunks no_body expected_hunk out_of_fuel : ParseError
  duplicate_path : Text → ParseError

pub data Parsed {ℓ} (A : Type ℓ) : Type ℓ where
  refused : ParseError → Parsed A
  parsed : A → Parsed A

infixl 20 ◌>>=◌
abbrev pub ◌>>=◌ {ℓ κ} : {A : Type ℓ} {B : Type κ} → Parsed A → (A → Parsed B) → Parsed B
refused e >>= f = refused e
parsed a >>= f = f a

abbrev pub begins_section : Text → Bool
begins_section line = has_prefix line (codes "*** ")

abbrev pub begins_hunk : Text → Bool
begins_hunk line = has_prefix line (codes "@@")

-- The trimmed rest of a line behind a prefix
abbrev pub after_prefix : Text → Text → Text
after_prefix line prefix = trim_space (drop (length prefix) line)

abbrev pub added : Text → Hunk
added text = record { anchor = []; lines = record { kind = add; text = text } ∷ [] }

-- The lines of a new file, and the lines behind them
unfoldable pub add_lines : List Text → Parsed (List Hunk × List Text)
add_lines [] = parsed ([], [])
add_lines (b ∷ bs) =
    let rest = add_lines bs in
    if begins_section b
    then parsed ([], b ∷ bs)
    else if not (has_prefix b (codes "+"))
    then refused add_body
    else (rest >>= λ r. parsed (added (drop 1 b) ∷ r.0, r.1))

unfoldable pub kind_of : Text → Option LineKind
kind_of [] = none
kind_of (c ∷ s) =
    if c == 32
    then some context
    else if c == 45
    then some remove
    else if c == 43
    then some add
    else none

abbrev pub hunk_step :
    Option LineKind → Text → Parsed (List HunkLine × List Text) → Parsed (List HunkLine × List Text)
hunk_step none text rest = refused hunk_line
hunk_step (some kind) text rest =
    rest >>= λ r. parsed (record { kind = kind; text = text } ∷ r.0, r.1)

-- The lines of a hunk, and the lines behind them
unfoldable pub hunk_lines : List Text → Parsed (List HunkLine × List Text)
unfolding kind_of
hunk_lines [] = parsed ([], [])
hunk_lines (b ∷ bs) =
    let rest = hunk_lines bs in
    if begins_section b || begins_hunk b
    then parsed ([], b ∷ bs)
    else hunk_step (kind_of b) (drop 1 b) rest

abbrev pub begins_any : List Text → Bool
begins_any [] = false
begins_any (b ∷ bs) = begins_section b || begins_hunk b

abbrev pub is_nil {ℓ} : {A : Type ℓ} → List A → Bool
is_nil [] = true
is_nil (x ∷ xs) = false

-- The hunks of a file that is updated, and the lines behind them
unfoldable pub hunks_from : ℕ → List Text → Parsed (List Hunk × List Text)
unfolding hunk_lines
hunks_from fuel [] = parsed ([], [])
hunks_from zero (b ∷ bs) = refused out_of_fuel
hunks_from (suc n) (b ∷ bs) =
    if begins_section b
    then parsed ([], b ∷ bs)
    else if not (begins_hunk b)
    then refused expected_hunk
    else if begins_any bs
    then refused no_body
    else (hunk_lines bs >>= λ r.
        if is_nil r.0
        then refused no_body
        else (hunks_from n r.1 >>= λ s.
            parsed (record { anchor = after_prefix b (codes "@@"); lines = r.0 } ∷ s.0, s.1)))

unfoldable pub is_seen : Text → List Text → Bool
is_seen p [] = false
is_seen p (q ∷ seen) = same q p || is_seen p seen

-- A path that is named by a header: not empty, and not seen before
abbrev pub new_path : Text → List Text → Parsed Text
new_path p seen =
    if is_empty p
    then refused empty_path
    else if is_seen p seen
    then refused (duplicate_path p)
    else parsed p

-- The move of an update, if the next line names one: the new path (empty for none), and the lines
-- behind it
abbrev pub move_of : List Text → List Text → Parsed (Text × List Text)
move_of seen [] = parsed ([], [])
move_of seen (b ∷ bs) =
    if has_prefix b (codes "*** Move to: ")
    then (new_path (after_prefix b (codes "*** Move to: ")) seen >>= λ p. parsed (p, bs))
    else parsed ([], b ∷ bs)

-- The paths that are seen once a move has been read
abbrev pub see_move : Text → List Text → List Text
see_move [] seen = seen
see_move (c ∷ p) seen = (c ∷ p) ∷ seen

abbrev pub file_op : OpKind → Text → Text → List Hunk → FileOp
file_op kind path move_path hunks = record {
  kind = kind;
  path = path;
  move_path = move_path;
  hunks = hunks;
}

-- One section: its operation, the paths seen then, and the lines behind it
pub record Section : Type 0 where
  pub op : FileOp
  pub seen : List Text
  pub rest : List Text

abbrev pub add_section : Text → List Text → List Text → Parsed Section
add_section line seen bs = new_path (after_prefix line (codes "*** Add File: ")) seen >>= λ p.
    add_lines bs >>= λ r.
    if is_nil r.0
    then refused no_content
    else parsed (record { op = file_op op_add p [] r.0; seen = p ∷ seen; rest = r.1 })

abbrev pub update_section : Text → List Text → List Text → Parsed Section
update_section line seen bs = new_path (after_prefix line (codes "*** Update File: ")) seen >>= λ p.
    move_of seen bs >>= λ m. hunks_from (length m.1) m.1 >>= λ r.
    if is_nil r.0 && is_empty m.0
    then refused no_hunks
    else parsed
        (record { op = file_op op_update p m.0 r.0; seen = p ∷ see_move m.0 seen; rest = r.1 })

abbrev pub delete_section : Text → List Text → List Text → Parsed Section
delete_section line seen bs = new_path (after_prefix line (codes "*** Delete File: ")) seen >>= λ p.
    parsed (record { op = file_op op_delete p [] []; seen = p ∷ seen; rest = bs })

unfoldable pub section : Text → List Text → List Text → Parsed Section
unfolding hunks_from add_lines
section line seen bs =
    if has_prefix line (codes "*** Add File: ")
    then add_section line seen bs
    else if has_prefix line (codes "*** Update File: ")
    then update_section line seen bs
    else if has_prefix line (codes "*** Delete File: ")
    then delete_section line seen bs
    else if begins_section line
    then refused unknown_head
    else refused expected_section

unfoldable pub parse_ops : ℕ → List Text → List Text → Parsed (List FileOp)
unfolding section
parse_ops fuel seen [] = parsed []
parse_ops zero seen (line ∷ body) = refused out_of_fuel
parse_ops (suc n) seen (line ∷ body) =
    section line seen body >>= λ r. parse_ops n r.seen r.rest >>= λ ops. parsed (r.op ∷ ops)

-- strings.Split(input, "\n"), less the empty lines at its end
abbrev pub cons_rune : ℕ → List Text → List Text
cons_rune c [] = (c ∷ []) ∷ []
cons_rune c (line ∷ lines) = (c ∷ line) ∷ lines

unfoldable pub split_lines : Text → List Text
split_lines [] = [] ∷ []
split_lines (c ∷ s) = let rest = split_lines s in if c == 10 then [] ∷ rest else cons_rune c rest

unfoldable pub trim_lines : List Text → List Text
trim_lines [] = []
trim_lines (l ∷ ls) = let rest = trim_lines ls in if is_nil rest && is_empty l then [] else l ∷ rest

-- The lines between the first and the last, and the last
abbrev pub inner : Text → List Text → List Text
inner l [] = []
inner l (m ∷ ls) = l ∷ inner m ls

abbrev pub last_of : Text → List Text → Text
last_of l [] = l
last_of l (m ∷ ls) = last_of m ls

abbrev pub some_ops : List FileOp → Parsed (List FileOp)
some_ops [] = refused no_ops
some_ops (op ∷ ops) = parsed (op ∷ ops)

abbrev pub parse_lines : List Text → Parsed (List FileOp)
parse_lines [] = refused no_end
parse_lines (first ∷ []) = refused no_end
parse_lines (first ∷ second ∷ rest) =
    let body = inner second rest in
    if not (same first (codes "*** Begin Patch"))
    then refused no_begin
    else if not (same (last_of second rest) (codes "*** End Patch"))
    then refused no_end
    else (parse_ops (length body) [] body >>= some_ops)

unfoldable pub parse_patch : Text → Parsed (List FileOp)
unfolding split_lines trim_lines parse_ops
parse_patch input =
    if is_empty (trim_space input)
    then refused empty_input
    else parse_lines (trim_lines (split_lines input))
