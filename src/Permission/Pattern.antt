-- ===== src/Permission/Pattern.antt =====
-- The patterns of harness/permission.go: an independent description of what a pattern matches, and what
-- compileGlob writes for each beginning of one.
use lightcode.Prelude.{
  ℕ, ◌≡◌, inl, inr, refl, Bool, true, false, not, ◌&&◌, Option, none, some, List, [], ◌∷◌, Text,
  ==_iff, ◌==◌, arith, Bool-cases, if◌then◌else◌,
}
use lightcode.Permission.{Piece, stars, one, literal, cons_piece, compile_from}

-- `*` is 42, `?` 63 and the backslash 92.
abbrev pub is_plain : ℕ → Bool
is_plain c = not (c == 42) && not (c == 63) && not (c == 92)

-- A text matches a pattern: `*` takes any runes, `?` takes one, a quoted rune and every other take themselves.
pub data Matches : Text → Text → Type 0 where
  ends : Matches [] []
  star_stops : {c : ℕ} {p s : Text} → c ≡ 42 → Matches p s → Matches (c ∷ p) s
  star_takes : {c d : ℕ} {p s : Text} → c ≡ 42 → Matches (c ∷ p) s → Matches (c ∷ p) (d ∷ s)
  any_rune : {c d : ℕ} {p s : Text} → c ≡ 63 → Matches p s → Matches (c ∷ p) (d ∷ s)
  quoted : {b c : ℕ} {p s : Text} → b ≡ 92 → Matches p s → Matches (b ∷ c ∷ p) (c ∷ s)
  plain : {c : ℕ} {p s : Text} → is_plain c ≡ true → Matches p s → Matches (c ∷ p) (c ∷ s)

-- A backslash that quotes nothing
abbrev pub is_unfinished : Text → Bool
is_unfinished [] = false
is_unfinished (c ∷ []) = c == 92
is_unfinished (c ∷ d ∷ p) = if c == 92 then is_unfinished p else is_unfinished (d ∷ p)

-- What a compiled rest begins with
abbrev pub Begins : Piece → Option (List Piece) → List Piece → Type 0
Begins x rest g = (g' : List Piece) × (rest ≡ some g') × (g ≡ x ∷ g')

begin_with :
    (x : Piece) (rest : Option (List Piece)) {g : List Piece}
    → cons_piece x rest ≡ some g
    → Begins x rest g
begin_with x none h = cc
begin_with x (some g') h = (g', refl, ground (arith, h))

pub compile-star :
    (c : ℕ) (p : Text) {g : List Piece}
    → c ≡ 42
    → compile_from false (c ∷ p) ≡ some g
    → Begins stars (compile_from false p) g
unfolding compile_from
compile-star c p e h = begin_with stars (compile_from false p) (ground (arith, e, h))

pub compile-any :
    (c : ℕ) (p : Text) {g : List Piece}
    → c ≡ 63
    → compile_from false (c ∷ p) ≡ some g
    → Begins one (compile_from false p) g
unfolding compile_from
compile-any c p e h = begin_with one (compile_from false p) (ground (arith, e, h))

pub compile-quoted :
    (b c : ℕ) (p : Text) {g : List Piece}
    → b ≡ 92
    → compile_from false (b ∷ c ∷ p) ≡ some g
    → Begins (literal c) (compile_from false p) g
unfolding compile_from
compile-quoted b c p e h = begin_with (literal c) (compile_from false p) (ground (arith, e, h))

pub compile-plain :
    (c : ℕ) (p : Text) {g : List Piece}
    → is_plain c ≡ true
    → compile_from false (c ∷ p) ≡ some g
    → Begins (literal c) (compile_from false p) g
unfolding compile_from
compile-plain c p e h = begin_with (literal c) (compile_from false p) (ground (arith, e, h))

pub begins_nil : {g : List Piece} → compile_from false [] ≡ some g → [] ≡ g
unfolding compile_from
begins_nil h = ground (arith, h)

abbrev pub is_none : Option (List Piece) → Bool
is_none none = true
is_none (some g) = false

is_none-cons_piece : (x : Piece) (o : Option (List Piece)) → is_none (cons_piece x o) ≡ is_none o
is_none-cons_piece x none = refl
is_none-cons_piece x (some g) = refl

is_none-other :
    (c : ℕ) (p : Text)
    → (c == 92) ≡ false
    → is_none (compile_from false (c ∷ p)) ≡ is_none (compile_from false p)
unfolding compile_from
is_none-other c p e =
    let o = compile_from false p in
    ground (
      arith,
      e,
      is_none-cons_piece stars o,
      is_none-cons_piece one o,
      is_none-cons_piece (literal c) o,
    )

is_none-quote :
    (b c : ℕ) (p : Text)
    → (b == 92) ≡ true
    → is_none (compile_from false (b ∷ c ∷ p)) ≡ is_none (compile_from false p)
unfolding compile_from
is_none-quote b c p e =
    rw ((==_iff b 92).0 e) (is_none-cons_piece (literal c) (compile_from false p))

pub unfinished_lem : (pattern : Text) → is_unfinished pattern ≡ is_none (compile_from false pattern)
unfinished_lem [] = unfold compile_from in refl
unfinished_lem (c ∷ []) = unfold compile_from in ground arith
unfinished_lem (c ∷ d ∷ p) = elim (Bool-cases (c == 92)) [
  | inl e ↦ ground (arith, e, unfinished_lem p, is_none-quote c d p e)
  | inr e ↦ ground (arith, e, unfinished_lem (d ∷ p), is_none-other c (d ∷ p) e)
]
