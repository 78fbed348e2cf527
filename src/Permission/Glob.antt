-- ===== src/Permission/Glob.antt =====
-- compileGlob of harness/permission.go against the description of its patterns.
use mathlib.Core.Path.{subst}
use lightcode.Prelude.{
  ℕ, ◌≡◌, ◌↔◌, inl, inr, refl, Bool, true, false, Option, none, some, List, [], ◌∷◌, ◌++◌, Text,
  ==_iff, ==_refl, ◌==◌, arith, ap, sym, ◌∙◌, Bool-cases,
}
use lightcode.Permission.Pattern.{
  Matches, ends, star_stops, star_takes, any_rune, quoted, plain, is_plain, is_unfinished, is_none,
  compile-star, compile-any, compile-quoted, compile-plain, begins_nil, unfinished_lem,
}
use lightcode.Permission.{
  Piece, end_text, stars, one, literal, compile_from, anchored, expression_of, compile_glob,
  after_run, match_here, match_from, match_string,
}

-- What is between the anchors
abbrev match_body : Bool → List Piece → Text → Bool
match_body at g s = match_here (g ++ end_text ∷ []) true at s

body_as :
    (at : Bool) (s : Text) {g g' : List Piece}
    → g ≡ g'
    → match_body at g s ≡ true
    → match_body at g' s ≡ true
body_as at s e h = subst (λ x. match_body at x s ≡ true) e h

-- A star matches where its rest does, and where it does behind one more rune.
stop_here :
    (g : List Piece) (s : Text) (at : Bool)
    → match_body at g s ≡ true
    → match_body at (stars ∷ g) s ≡ true
unfolding match_here after_run
stop_here g [] at h = h
stop_here g (c ∷ s) at h = ground (arith, h)

take_here :
    (g : List Piece) (c : ℕ) (s : Text) (at : Bool)
    → match_body false (stars ∷ g) s ≡ true
    → match_body at (stars ∷ g) (c ∷ s) ≡ true
unfolding match_here after_run
take_here g c s at h = ground (arith, h)

body_complete :
    (pattern s : Text) (g : List Piece) (at : Bool)
    → Matches pattern s
    → compile_from false pattern ≡ some g
    → match_body at g s ≡ true
unfolding match_here after_run
body_complete [] [] g at ends h = rw (sym (begins_nil h)) refl
body_complete [] (d ∷ s) g at f h = elim f [ ]
body_complete (c ∷ p) s g at (star_stops e f) h =
    let (g', k, q) = compile-star c p e h in rw q (stop_here g' s at (body_complete p s g' at f k))
body_complete (c ∷ p) (d ∷ s) g at (star_takes e f) h =
    let (g', k, q) = compile-star c p e h in
    rw q (take_here g' d s at (body_as false s q (body_complete (c ∷ p) s g false f h)))
body_complete (c ∷ p) (d ∷ s) g at (any_rune e f) h =
    let (g', k, q) = compile-any c p e h in rw q (body_complete p s g' false f k)
body_complete (b ∷ c ∷ p) (_ ∷ s) g at (quoted e f) h =
    let (g', k, q) = compile-quoted b c p e h in
    rw q (ground (arith, ==_refl c, body_complete p s g' false f k))
body_complete (c ∷ p) (_ ∷ s) g at (plain e f) h =
    let (g', k, q) = compile-plain c p e h in
    rw q (ground (arith, ==_refl c, body_complete p s g' false f k))

-- What a run of stars lets through
star_sound :
    (p : Text) (c : ℕ) (g : List Piece)
    → c ≡ 42
    → ((at : Bool) (s : Text) → match_body at g s ≡ true → Matches p s)
    → (at : Bool) (s : Text) → match_body at (stars ∷ g) s ≡ true
    → Matches (c ∷ p) s
unfolding match_here after_run
star_sound p c g e ih at [] h = star_stops e (ih at [] h)
star_sound p c g e ih at (d ∷ s) h = elim (Bool-cases (match_body at g (d ∷ s))) [
  | inl k ↦ star_stops e (ih at (d ∷ s) k)
  | inr k ↦ star_takes e (star_sound p c g e ih false s (ground (arith, h, k)))
]

literal_sound :
    (p p' : Text) (c : ℕ) (g : List Piece)
    → ((s : Text) → Matches p s → Matches p' (c ∷ s))
    → ((s : Text) → match_body false g s ≡ true → Matches p s)
    → (at : Bool) (s : Text) → match_body at (literal c ∷ g) s ≡ true
    → Matches p' s
unfolding match_here
literal_sound p p' c g build ih at [] h = cc
literal_sound p p' c g build ih at (d ∷ s) h =
    let equal : d ≡ c = (==_iff d c).0 (ground (arith, h)) in
    rw equal (build s (ih s (ground (arith, h))))

one_sound :
    (p : Text) (c : ℕ) (g : List Piece)
    → c ≡ 63
    → ((s : Text) → match_body false g s ≡ true → Matches p s)
    → (at : Bool) (s : Text) → match_body at (one ∷ g) s ≡ true
    → Matches (c ∷ p) s
unfolding match_here
one_sound p c g e ih at [] h = cc
one_sound p c g e ih at (d ∷ s) h = any_rune e (ih s h)

abbrev Sound : Text → Type 0
Sound p =
    (g : List Piece) (at : Bool) (s : Text)
    → compile_from false p ≡ some g
    → match_body at g s ≡ true
    → Matches p s

nil_ends : (at : Bool) (c : ℕ) (s : Text) → match_body at [] (c ∷ s) ≡ true → ⊥
unfolding match_here
nil_ends at c s h = ground (arith, h)

nil-Sound : Sound []
unfolding match_here
nil-Sound g at [] h k = ends
nil-Sound g at (c ∷ s) h k = absurd (nil_ends at c s (body_as at (c ∷ s) (sym (begins_nil h)) k))

-- A character that is no backslash
cons-Sound : (c : ℕ) (p : Text) → (c == 92) ≡ false → Sound p → Sound (c ∷ p)
cons-Sound c p n ih g at s h k = elim (Bool-cases (c == 42)) [
  | inl e ↦
      let e' : c ≡ 42 = (==_iff c 42).0 e in
      let (g', b, q) = compile-star c p e' h in
      star_sound p c g' e' (λ a t. ih g' a t b) at s (body_as at s q k)
  | inr x ↦ elim (Bool-cases (c == 63)) [
    | inl e ↦
        let e' : c ≡ 63 = (==_iff c 63).0 e in
        let (g', b, q) = compile-any c p e' h in
        one_sound p c g' e' (λ t. ih g' false t b) at s (body_as at s q k)
    | inr y ↦
        let e' : is_plain c ≡ true = ground (arith, n, x, y) in
        let (g', b, q) = compile-plain c p e' h in
        literal_sound p (c ∷ p) c g' (λ t m. plain e' m) (λ t. ih g' false t b) at s
          (body_as at s q k)
  ]
]

quote-Sound : (b c : ℕ) (p : Text) → (b == 92) ≡ true → Sound p → Sound (b ∷ c ∷ p)
quote-Sound b c p e ih g at s h k =
    let e' : b ≡ 92 = (==_iff b 92).0 e in
    let (g', r, q) = compile-quoted b c p e' h in
    literal_sound p (b ∷ c ∷ p) c g' (λ t m. quoted e' m) (λ t. ih g' false t r) at s
      (body_as at s q k)

compile-unfinished :
    (b : ℕ) {g : List Piece} → (b == 92) ≡ true → compile_from false (b ∷ []) ≡ some g → ⊥
unfolding compile_from
compile-unfinished b e h = ground (arith, (==_iff b 92).0 e, h)

body-Sound : (pattern : Text) → Sound pattern
body-Sound [] = nil-Sound
body-Sound (c ∷ []) = λ g at s h k. elim (Bool-cases (c == 92)) [
  | inl e ↦ absurd (compile-unfinished c e h)
  | inr e ↦ cons-Sound c [] e nil-Sound g at s h k
]
body-Sound (c ∷ d ∷ p) = λ g at s h k. elim (Bool-cases (c == 92)) [
  | inl e ↦ quote-Sound c d p e (body-Sound p) g at s h k
  | inr e ↦ cons-Sound c (d ∷ p) e (body-Sound (d ∷ p)) g at s h k
]

-- The anchors: a match begins nowhere but at the beginning of the text.
later_false : (g : List Piece) (s : Text) → match_from (anchored g) false s ≡ false
unfolding match_from match_here
later_false g [] = refl
later_false g (c ∷ s) = later_false g s

match_string-anchored :
    (g : List Piece) (s : Text) → match_string (anchored g) s ≡ match_body true g s
unfolding match_string match_from match_here
match_string-anchored g [] = refl
match_string-anchored g (c ∷ s) = ground (arith, later_false g s)

-- A pattern that ends in a backslash which quotes nothing is refused, and of any other the expression
-- matches exactly the texts that match the pattern.
abbrev pub Decides : Text → Option (List Piece) → Type 0
Decides pattern none = is_unfinished pattern ≡ true
Decides pattern (some g) =
    (is_unfinished pattern ≡ false) × ((s : Text) → (match_string g s ≡ true) ↔ Matches pattern s)

Decides-expression_of :
    (pattern : Text) (o : Option (List Piece))
    → compile_from false pattern ≡ o
    → Decides pattern (expression_of o)
Decides-expression_of pattern none h = unfinished_lem pattern ∙ ap is_none h
Decides-expression_of pattern (some g) h = (
  unfinished_lem pattern ∙ ap is_none h,
  λ s. (
    λ k. body-Sound pattern g true s h (sym (match_string-anchored g s) ∙ k),
    λ f. match_string-anchored g s ∙ body_complete pattern s g true f h,
  ),
)

-- Whatever the pattern: it is refused exactly when it ends in a backslash that quotes nothing, and otherwise
-- MatchString of the compiled expression accepts exactly the texts that match the pattern, where `*` takes
-- any runes, separators and newlines included, `?` takes one, and all else takes itself.
pub compile_glob-Decides : (pattern : Text) → Decides pattern (compile_glob pattern)
unfolding compile_glob
compile_glob-Decides pattern = Decides-expression_of pattern (compile_from false pattern) refl
