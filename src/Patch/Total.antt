-- ===== src/Patch/Total.antt =====
-- The fuel of parsePatch's model is enough, and what it gives is well formed.
use lightcode.Prelude.{
  ℕ, zero, suc, ◌≤◌, ◌≡◌, ◌≢◌, refl, not, ◌&&◌, List, [], ◌∷◌, Text, same, codes, is_empty,
  has_prefix, trim_space, length, arith, if_cases,
}
use lightcode.Patch.Parse.{
  FileOp, Parsed, refused, parsed, out_of_fuel, add_lines, hunk_lines, hunks_from, begins_any,
  begins_section, begins_hunk, is_nil, ◌>>=◌, section, Section, add_section, update_section,
  delete_section, new_path, move_of, is_seen, after_prefix, duplicate_path, no_content, no_hunks,
  unknown_head, expected_section, empty_input, some_ops, inner, last_of, trim_lines, split_lines,
  parse_ops, parse_lines, parse_patch,
}

-- A result whose rest has at most so many lines, and that did not run out of fuel
abbrev pub Leaves : {A : Type 0} → ℕ → Parsed (A × List Text) → Type 0
Leaves n (refused e) = e ≢ out_of_fuel
Leaves n (parsed r) = length r.1 ≤ n

add_lines-Leaves : (bs : List Text) → Leaves (length bs) (add_lines bs)
unfolding add_lines
add_lines-Leaves [] = omega arith
add_lines-Leaves (b ∷ bs) = ground (arith, add_lines-Leaves bs)

hunk_lines-Leaves : (bs : List Text) → Leaves (length bs) (hunk_lines bs)
unfolding hunk_lines
hunk_lines-Leaves [] = omega arith
hunk_lines-Leaves (b ∷ bs) = ground (arith, hunk_lines-Leaves bs)

-- A chain of steps that are never out of fuel
abbrev pub Enough : {A : Type 0} → Parsed A → Type 0
Enough (refused e) = e ≢ out_of_fuel
Enough (parsed a) = Unit {0}

bind-Enough :
    {A B : Type 0} (x : Parsed A) (f : A → Parsed B)
    → Enough x
    → ((a : A) → x ≡ parsed a → Enough (f a))
    → Enough (x >>= f)
bind-Enough (refused e) f h k = h
bind-Enough (parsed a) f h k = k a refl

bind-Leaves :
    {A B : Type 0} (n m : ℕ) (x : Parsed (A × List Text))
    (f : A × List Text → Parsed (B × List Text))
    → Leaves n x
    → ((r : A × List Text) → length r.1 ≤ n → Leaves m (f r))
    → Leaves m (x >>= f)
bind-Leaves n m (refused e) f h k = h
bind-Leaves n m (parsed r) f h k = k r h

Leaves-weaken :
    {A : Type 0} (n m : ℕ) (x : Parsed (A × List Text)) → n ≤ m → Leaves n x → Leaves m x
Leaves-weaken n m (refused e) h k = k
Leaves-weaken n m (parsed r) h k = omega (arith, h, k)

no_lines : (bs : List Text) → suc (length bs) ≤ 0 → ⊥
no_lines bs h = omega (arith, h)

hunks_from-Leaves : (n : ℕ) (bs : List Text) → length bs ≤ n → Leaves (length bs) (hunks_from n bs)
unfolding hunks_from
hunks_from-Leaves n [] h = omega arith
hunks_from-Leaves zero (b ∷ bs) h = λ e. no_lines bs h
hunks_from-Leaves (suc n) (b ∷ bs) h =
    if_cases (Leaves (suc (length bs))) (begins_section b) _ _ (λ _. omega arith)
      (λ _.
        if_cases (Leaves (suc (length bs))) (not (begins_hunk b)) _ _ (λ _ e. cc)
          (λ _.
            if_cases (Leaves (suc (length bs))) (begins_any bs) _ _ (λ _ e. cc)
              (λ _.
                bind-Leaves (length bs) (suc (length bs)) (hunk_lines bs) _ (hunk_lines-Leaves bs)
                  (λ r l.
                    if_cases (Leaves (suc (length bs))) (is_nil r.0) _ _ (λ _ e. cc)
                      (λ _.
                        bind-Leaves (length r.1) (suc (length bs)) (hunks_from n r.1) _
                          (hunks_from-Leaves n r.1 (omega (arith, l, h)))
                          (λ s k. omega (arith, k, l)))))))

-- A section takes at least its header's line.
abbrev LeavesSection : ℕ → Parsed Section → Type 0
LeavesSection n (refused e) = e ≢ out_of_fuel
LeavesSection n (parsed r) = length r.rest ≤ n

new_path-Enough : (p : Text) (seen : List Text) → Enough (new_path p seen)
new_path-Enough p seen =
    if_cases Enough (is_empty p) _ _ (λ _ e. cc)
      (λ _.
        if_cases Enough (is_seen p seen) (refused (duplicate_path p)) (parsed p) (λ _ e. cc)
          (λ _. tt))

bind-LeavesSection :
    {A : Type 0} (n : ℕ) (x : Parsed A) (f : A → Parsed Section)
    → Enough x
    → ((a : A) → LeavesSection n (f a))
    → LeavesSection n (x >>= f)
bind-LeavesSection n (refused e) f h k = h
bind-LeavesSection n (parsed a) f h k = k a

bind_rest-LeavesSection :
    {A : Type 0} (n m : ℕ) (x : Parsed (A × List Text)) (f : A × List Text → Parsed Section)
    → Leaves n x
    → ((a : A × List Text) → length a.1 ≤ n → LeavesSection m (f a))
    → LeavesSection m (x >>= f)
bind_rest-LeavesSection n m (refused e) f h k = h
bind_rest-LeavesSection n m (parsed a) f h k = k a h

add_section-LeavesSection :
    (line : Text) (seen bs : List Text) → LeavesSection (length bs) (add_section line seen bs)
add_section-LeavesSection line seen bs =
    bind-LeavesSection (length bs) (new_path (after_prefix line (codes "*** Add File: ")) seen) _
      (new_path-Enough _ seen)
      (λ p.
        bind_rest-LeavesSection (length bs) (length bs) (add_lines bs) _ (add_lines-Leaves bs)
          (λ r l.
            if_cases (LeavesSection (length bs)) (is_nil r.0) (refused no_content) _ (λ _ e. cc)
              (λ _. l)))

bind_path-Leaves :
    {A B : Type 0} (m : ℕ) (x : Parsed A) (f : A → Parsed (B × List Text))
    → Enough x
    → ((a : A) → Leaves m (f a))
    → Leaves m (x >>= f)
bind_path-Leaves m (refused e) f h k = h
bind_path-Leaves m (parsed a) f h k = k a

move_of-Leaves : (seen bs : List Text) → Leaves (length bs) (move_of seen bs)
move_of-Leaves seen [] = omega arith
move_of-Leaves seen (b ∷ bs) =
    if_cases (Leaves (suc (length bs))) (has_prefix b (codes "*** Move to: ")) _ _
      (λ _.
        bind_path-Leaves (suc (length bs)) (new_path (after_prefix b (codes "*** Move to: ")) seen)
          _ (new_path-Enough _ seen) (λ p. omega arith))
      (λ _. omega arith)

update_section-LeavesSection :
    (line : Text) (seen bs : List Text) → LeavesSection (length bs) (update_section line seen bs)
update_section-LeavesSection line seen bs =
    bind-LeavesSection (length bs) (new_path (after_prefix line (codes "*** Update File: ")) seen) _
      (new_path-Enough _ seen)
      (λ p.
        bind_rest-LeavesSection (length bs) (length bs) (move_of seen bs) _ (move_of-Leaves seen bs)
          (λ m l.
            bind_rest-LeavesSection (length m.1) (length bs) (hunks_from (length m.1) m.1) _
              (hunks_from-Leaves (length m.1) m.1 (omega arith))
              (λ r k.
                if_cases (LeavesSection (length bs)) (is_nil r.0 && is_empty m.0) (refused no_hunks)
                  _ (λ _ e. cc) (λ _. omega (arith, k, l)))))

delete_section-LeavesSection :
    (line : Text) (seen bs : List Text) → LeavesSection (length bs) (delete_section line seen bs)
delete_section-LeavesSection line seen bs =
    bind-LeavesSection (length bs) (new_path (after_prefix line (codes "*** Delete File: ")) seen) _
      (new_path-Enough _ seen) (λ p. omega arith)

section-LeavesSection :
    (line : Text) (seen bs : List Text) → LeavesSection (length bs) (section line seen bs)
unfolding section
section-LeavesSection line seen bs =
    if_cases (LeavesSection (length bs)) (has_prefix line (codes "*** Add File: ")) _ _
      (λ _. add_section-LeavesSection line seen bs)
      (λ _.
        if_cases (LeavesSection (length bs)) (has_prefix line (codes "*** Update File: ")) _ _
          (λ _. update_section-LeavesSection line seen bs)
          (λ _.
            if_cases (LeavesSection (length bs)) (has_prefix line (codes "*** Delete File: ")) _ _
              (λ _. delete_section-LeavesSection line seen bs)
              (λ _.
                if_cases (LeavesSection (length bs)) (begins_section line) (refused unknown_head)
                  (refused expected_section) (λ _ e. cc) (λ _ e. cc))))

bind_section-Enough :
    {B : Type 0} (n : ℕ) (x : Parsed Section) (f : Section → Parsed B)
    → LeavesSection n x
    → ((r : Section) → length r.rest ≤ n → Enough (f r))
    → Enough (x >>= f)
bind_section-Enough n (refused e) f h k = h
bind_section-Enough n (parsed r) f h k = k r h

parse_ops-Enough :
    (n : ℕ) (seen body : List Text) → length body ≤ n → Enough (parse_ops n seen body)
unfolding parse_ops
parse_ops-Enough n seen [] h = tt
parse_ops-Enough zero seen (line ∷ body) h = λ e. no_lines body h
parse_ops-Enough (suc n) seen (line ∷ body) h =
    bind_section-Enough (length body) (section line seen body) _
      (section-LeavesSection line seen body)
      (λ r l.
        bind-Enough (parse_ops n r.seen r.rest) _
          (parse_ops-Enough n r.seen r.rest (omega (arith, h, l))) (λ ops e. tt))

some_ops-Enough : (ops : List FileOp) → Enough (some_ops ops)
some_ops-Enough [] = λ e. cc
some_ops-Enough (op ∷ ops) = tt

parse_lines-Enough : (lines : List Text) → Enough (parse_lines lines)
parse_lines-Enough [] = λ e. cc
parse_lines-Enough (first ∷ []) = λ e. cc
parse_lines-Enough (first ∷ second ∷ rest) =
    if_cases Enough (not (same first (codes "*** Begin Patch"))) _ _ (λ _ e. cc)
      (λ _.
        if_cases Enough (not (same (last_of second rest) (codes "*** End Patch"))) _ _ (λ _ e. cc)
          (λ _.
            bind-Enough (parse_ops (length (inner second rest)) [] (inner second rest)) some_ops
              (parse_ops-Enough (length (inner second rest)) [] (inner second rest) (omega arith))
              (λ ops e. some_ops-Enough ops)))

-- Reading a patch always ends: for no input does the model run out of its fuel, so each answer is
-- operations or one of the code's errors.
pub parse_patch-Enough : (input : Text) → Enough (parse_patch input)
unfolding parse_patch
parse_patch-Enough input =
    if_cases Enough (is_empty (trim_space input)) (refused empty_input) _ (λ _ e. cc)
      (λ _. parse_lines-Enough (trim_lines (split_lines input)))
