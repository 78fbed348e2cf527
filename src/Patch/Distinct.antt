-- ===== src/Patch/Distinct.antt =====
-- The operations that parsePatch of internal/tool/apply_patch_parse.go gives name different files, their moves
-- included.
use lightcode.Prelude.{
  ℕ, zero, suc, ◌≡◌, refl, Bool, true, false, not, ◌&&◌, ◌||◌, List, [], ◌∷◌, ◌++◌, Text, same,
  codes, is_empty, has_prefix, trim_space, length, arith, if_cases,
}
use lightcode.Patch.Parse.{
  FileOp, Parsed, refused, parsed, ◌>>=◌, add_lines, hunks_from, is_nil, begins_section, section,
  Section, add_section, update_section, delete_section, new_path, move_of, see_move, is_seen,
  after_prefix, duplicate_path, empty_path, no_content, no_hunks, unknown_head, expected_section,
  empty_input, some_ops, no_begin, no_end, inner, last_of, trim_lines, split_lines, parse_ops,
  parse_lines, parse_patch,
}

-- The paths that an operation names: its own, and the one it moves to
abbrev pub moved_to : Text → List Text
moved_to [] = []
moved_to (c ∷ p) = (c ∷ p) ∷ []

abbrev pub named : FileOp → List Text
named op = op.path ∷ moved_to op.move_path

unfoldable pub none_seen : List Text → List Text → Bool
none_seen [] seen = true
none_seen (p ∷ ps) seen = not (is_seen p seen) && none_seen ps seen

-- Each operation's path is not empty, and no path that it names is one of the given ones or is named by an
-- operation before.
abbrev pub is_fresh : List Text → List FileOp → Bool
is_fresh seen [] = true
is_fresh seen (op ∷ ops) =
    not (is_empty op.path) && none_seen (named op) seen && is_fresh (named op ++ seen) ops

is_seen-append :
    (p : Text) (ns seen : List Text) → is_seen p (ns ++ seen) ≡ (is_seen p ns || is_seen p seen)
unfolding is_seen
is_seen-append p [] seen = refl
is_seen-append p (n ∷ ns) seen = ground (arith, is_seen-append p ns seen)

none_seen-fewer :
    (ps few many : List Text)
    → ((p : Text) → is_seen p few ≡ true → is_seen p many ≡ true)
    → none_seen ps many ≡ true
    → none_seen ps few ≡ true
unfolding none_seen
none_seen-fewer [] few many h k = refl
none_seen-fewer (p ∷ ps) few many h k = ground (arith, h p, k, none_seen-fewer ps few many h)

-- Fewer given paths ask for less.
is_fresh-fewer :
    (few many : List Text) (ops : List FileOp)
    → ((p : Text) → is_seen p few ≡ true → is_seen p many ≡ true)
    → is_fresh many ops ≡ true
    → is_fresh few ops ≡ true
is_fresh-fewer few many [] h k = refl
is_fresh-fewer few many (op ∷ ops) h k = ground (
  arith,
  k,
  none_seen-fewer (named op) few many h,
  is_fresh-fewer (named op ++ few) (named op ++ many) ops (λ p e.
      ground (arith, h p, e, is_seen-append p (named op) few, is_seen-append p (named op) many)),
)

-- What a result gives has a property, if it gives anything.
abbrev pub Gives : {A : Type 0} → (A → Type 0) → Parsed A → Type 0
Gives P (refused e) = Unit {0}
Gives P (parsed a) = P a

bind-Gives :
    {A B : Type 0} (Q : A → Type 0) (P : B → Type 0) (x : Parsed A) (f : A → Parsed B)
    → Gives Q x
    → ((a : A) → Q a → Gives P (f a))
    → Gives P (x >>= f)
bind-Gives Q P (refused e) f h k = tt
bind-Gives Q P (parsed a) f h k = k a h

any-Gives : {A : Type 0} (x : Parsed A) → Gives (λ (a : A). Unit {0}) x
any-Gives (refused e) = tt
any-Gives (parsed a) = tt

-- What a section names is new, and it is among the paths that are seen behind it, with all before.
abbrev IsNew : List Text → Section → Type 0
IsNew seen r =
    (is_empty r.op.path ≡ false)
    × (none_seen (named r.op) seen ≡ true)
    × ((p : Text) → is_seen p (named r.op ++ seen) ≡ true → is_seen p r.seen ≡ true)

abbrev NewPath : List Text → Text → Type 0
NewPath seen p = (is_empty p ≡ false) × (is_seen p seen ≡ false)

new_path-Gives : (p : Text) (seen : List Text) → Gives (NewPath seen) (new_path p seen)
new_path-Gives p seen =
    if_cases (Gives (NewPath seen)) (is_empty p) (refused empty_path) _ (λ _. tt)
      (λ h.
        if_cases (Gives (NewPath seen)) (is_seen p seen) (refused (duplicate_path p)) (parsed p)
          (λ _. tt) (λ k. (h, k)))

-- The path of a move is empty, where there is none, or new.
abbrev NewMove : List Text → (Text × List Text) → Type 0
NewMove seen m = none_seen (moved_to m.0) seen ≡ true

NewPath-moved_to :
    (seen : List Text) (p : Text) → NewPath seen p → none_seen (moved_to p) seen ≡ true
unfolding none_seen
NewPath-moved_to seen [] h = refl
NewPath-moved_to seen (c ∷ p) h = ground (arith, h.1)

move_of-Gives : (seen bs : List Text) → Gives (NewMove seen) (move_of seen bs)
unfolding none_seen
move_of-Gives seen [] = refl
move_of-Gives seen (b ∷ bs) =
    let p = after_prefix b (codes "*** Move to: ") in
    if_cases (Gives (NewMove seen)) (has_prefix b (codes "*** Move to: ")) _ (parsed ([], b ∷ bs))
      (λ _.
        bind-Gives (NewPath seen) (NewMove seen) (new_path p seen) _ (new_path-Gives p seen)
          (λ q h. NewPath-moved_to seen q h))
      (λ _. refl)

see_move_lem : (m : Text) (seen : List Text) → see_move m seen ≡ moved_to m ++ seen
see_move_lem [] seen = refl
see_move_lem (c ∷ m) seen = refl

module _ (line : Text) (seen bs : List Text) where
  add_section-IsNew : Gives (IsNew seen) (add_section line seen bs)
  unfolding none_seen is_seen
  add_section-IsNew =
      bind-Gives (NewPath seen) (IsNew seen)
        (new_path (after_prefix line (codes "*** Add File: ")) seen) _ (new_path-Gives _ seen)
        (λ p (a, b). bind-Gives _ (IsNew seen) (add_lines bs) _ (any-Gives (add_lines bs)) (λ r _.
          if_cases (Gives (IsNew seen)) (is_nil r.0) (refused no_content) _ (λ _. tt)
            (λ _. (a, ground (arith, b), λ q e. e))))

  update_section-IsNew : Gives (IsNew seen) (update_section line seen bs)
  unfolding none_seen is_seen
  update_section-IsNew =
      bind-Gives (NewPath seen) (IsNew seen)
        (new_path (after_prefix line (codes "*** Update File: ")) seen) _ (new_path-Gives _ seen)
        (λ p (a, b).
          bind-Gives (NewMove seen) (IsNew seen) (move_of seen bs) _ (move_of-Gives seen bs) (λ m n.
            bind-Gives _ (IsNew seen) (hunks_from (length m.1) m.1) _
              (any-Gives (hunks_from (length m.1) m.1))
              (λ r _.
                if_cases (Gives (IsNew seen)) (is_nil r.0 && is_empty m.0) (refused no_hunks) _
                  (λ _. tt) (λ _. (a, ground (arith, b, n), λ q e. rw (see_move_lem m.0 seen) e)))))

  delete_section-IsNew : Gives (IsNew seen) (delete_section line seen bs)
  unfolding none_seen is_seen
  delete_section-IsNew =
      bind-Gives (NewPath seen) (IsNew seen)
        (new_path (after_prefix line (codes "*** Delete File: ")) seen) _ (new_path-Gives _ seen)
        (λ p (a, b). (a, ground (arith, b), λ q e. e))

  section-IsNew : Gives (IsNew seen) (section line seen bs)
  unfolding section
  section-IsNew =
      if_cases (Gives (IsNew seen)) (has_prefix line (codes "*** Add File: ")) _ _
        (λ _. add_section-IsNew)
        (λ _.
          if_cases (Gives (IsNew seen)) (has_prefix line (codes "*** Update File: ")) _ _
            (λ _. update_section-IsNew)
            (λ _.
              if_cases (Gives (IsNew seen)) (has_prefix line (codes "*** Delete File: ")) _ _
                (λ _. delete_section-IsNew)
                (λ _.
                  if_cases (Gives (IsNew seen)) (begins_section line) (refused unknown_head)
                    (refused expected_section) (λ _. tt) (λ _. tt))))

abbrev AreFresh : List Text → List FileOp → Type 0
AreFresh seen ops = is_fresh seen ops ≡ true

parse_ops-AreFresh : (n : ℕ) (seen body : List Text) → Gives (AreFresh seen) (parse_ops n seen body)
unfolding parse_ops
parse_ops-AreFresh n seen [] = refl
parse_ops-AreFresh zero seen (line ∷ body) = tt
parse_ops-AreFresh (suc n) seen (line ∷ body) =
    bind-Gives (IsNew seen) (AreFresh seen) (section line seen body) _
      (section-IsNew line seen body)
      (λ r (a, b, c).
        bind-Gives (AreFresh r.seen) (AreFresh seen) (parse_ops n r.seen r.rest) _
          (parse_ops-AreFresh n r.seen r.rest)
          (λ ops k. ground (arith, a, b, is_fresh-fewer (named r.op ++ seen) r.seen ops c k)))

-- A patch has an operation, no operation's path is empty, and no path is named by two operations.
abbrev pub IsPatch : List FileOp → Type 0
IsPatch ops = (is_nil ops ≡ false) × (is_fresh [] ops ≡ true)

some_ops-IsPatch : (ops : List FileOp) → AreFresh [] ops → Gives IsPatch (some_ops ops)
some_ops-IsPatch [] h = tt
some_ops-IsPatch (op ∷ ops) h = (refl, h)

parse_lines-IsPatch : (lines : List Text) → Gives IsPatch (parse_lines lines)
parse_lines-IsPatch [] = tt
parse_lines-IsPatch (first ∷ []) = tt
parse_lines-IsPatch (first ∷ second ∷ rest) =
    let body = inner second rest in
    if_cases (Gives IsPatch) (not (same first (codes "*** Begin Patch"))) (refused no_begin) _
      (λ _. tt)
      (λ _.
        if_cases (Gives IsPatch) (not (same (last_of second rest) (codes "*** End Patch")))
          (refused no_end) _ (λ _. tt)
          (λ _.
            bind-Gives (AreFresh []) IsPatch (parse_ops (length body) [] body) some_ops
              (parse_ops-AreFresh (length body) [] body) some_ops-IsPatch))

-- Whatever text is accepted as a patch gives at least one operation, and each operation names a
-- path that is not empty; no path that an operation names, as its own or as the one it moves to, is
-- named by another operation in either way.
pub parse_patch-IsPatch : (input : Text) → Gives IsPatch (parse_patch input)
unfolding parse_patch
parse_patch-IsPatch input =
    if_cases (Gives IsPatch) (is_empty (trim_space input)) (refused empty_input) _ (λ _. tt)
      (λ _. parse_lines-IsPatch (trim_lines (split_lines input)))
