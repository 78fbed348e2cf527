-- ===== src/Model/Ref.antt =====
-- model/model_ref.go: the text form of a model identity, with strings.Cut at the first slash.
use lightcode.Prelude.{
  ℕ, ◌≡◌, refl, Bool, true, false, ◌||◌, Option, none, some, [], ◌∷◌, ◌++◌, Text, if◌then◌else◌,
  ◌==◌, arith, Option-cases, Bool-cases, inl, inr, ==_iff, ap, sym,
}
use mathlib.Core.Option.{some_inj}
use mathlib.Core.Path.{subst}
use lightcode.Model.{ModelRef, complete}

-- '/'
abbrev pub slash : ℕ
slash = 47

unfoldable pub print_ref : ModelRef → Text
unfolding complete
print_ref r = if complete r then r.provider ++ slash ∷ r.model else []

-- The text before the first slash, and the text behind it
unfoldable pub cut_behind : ℕ → Option ModelRef → Option ModelRef
cut_behind c none = none
cut_behind c (some r) = some (record r { provider = c ∷ r.provider })

unfoldable pub cut : Text → Option ModelRef
unfolding cut_behind
cut [] = none
cut (c ∷ s) =
    let rest = cut s in
    if c == slash then some (record { provider = []; model = s }) else cut_behind c rest

unfoldable pub if_complete : Option ModelRef → Option ModelRef
if_complete none = none
if_complete (some r) = if complete r then some r else none

-- `none` stands for ErrInvalidModelRef.
unfoldable pub parse_ref : Text → Option ModelRef
unfolding cut if_complete
parse_ref s = if_complete (cut s)

abbrev pub has_slash : Text → Bool
has_slash [] = false
has_slash (c ∷ s) = c == slash || has_slash s

cut-append :
    (p m : Text)
    → has_slash p ≡ false
    → cut (p ++ slash ∷ m) ≡ some (record { provider = p; model = m })
unfolding cut
cut-append [] m h = refl
cut-append (c ∷ p) m h = rw (cut-append p m (ground (arith, h))) (ground (arith, h))

-- A complete identity whose provider has no slash is read back from its text form.
pub parse_ref-print_ref :
    (r : ModelRef)
    → complete r ≡ true
    → has_slash r.provider ≡ false
    → parse_ref (print_ref r) ≡ some r
unfolding parse_ref print_ref if_complete
parse_ref-print_ref r h k = rw h (rw (cut-append r.provider r.model k) (rw h refl))

-- `r` is the text `s` cut at its first slash.
abbrev IsCut : Text → ModelRef → Type 0
IsCut s r = (s ≡ r.provider ++ slash ∷ r.model) × (has_slash r.provider ≡ false)

IsCut-behind :
    (c : ℕ) (s : Text) (q : ModelRef)
    → (c == slash) ≡ false
    → IsCut s q
    → IsCut (c ∷ s) (record q { provider = c ∷ q.provider })
IsCut-behind c s q e h = (ap (λ t. c ∷ t) h.0, ground (arith, e, h.1))

IsCut-here :
    (c : ℕ) (s : Text) → (c == slash) ≡ true → IsCut (c ∷ s) (record { provider = []; model = s })
IsCut-here c s e = (ap (λ (d : ℕ). d ∷ s) ((==_iff c slash).0 e), refl)

cut-IsCut : (s : Text) (r : ModelRef) → cut s ≡ some r → IsCut s r
unfolding cut
cut-IsCut [] r h = cc
cut-IsCut (c ∷ s) r h = elim (Bool-cases (c == slash)) [
  | inl e ↦ subst (IsCut (c ∷ s)) (some_inj.0 (rw e at h)) (IsCut-here c s e)
  | inr e ↦ elim (Option-cases (cut s)) [
    | inl n ↦ let m : ◌≡◌ {A = Option ModelRef} none (some r) = rw (e, n) at h in cc
    | inr (q, n) ↦
        subst (IsCut (c ∷ s)) (some_inj.0 (rw (e, n) at h)) (IsCut-behind c s q e (cut-IsCut s q n))
  ]
]

if_complete-some :
    (o : Option ModelRef) (r : ModelRef)
    → if_complete o ≡ some r
    → (o ≡ some r) × (complete r ≡ true)
unfolding if_complete
if_complete-some none r h = cc
if_complete-some (some q) r h = ground (arith, h)

-- An identity that is read is complete, its provider has no slash, and its text form is what was read.
pub print_ref-parse_ref :
    (s : Text) (r : ModelRef)
    → parse_ref s ≡ some r
    → (print_ref r ≡ s) × (complete r ≡ true) × (has_slash r.provider ≡ false)
unfolding parse_ref print_ref
print_ref-parse_ref s r h =
    let read = if_complete-some (cut s) r h in
    let parts = cut-IsCut s r read.0 in (rw (read.1) (sym parts.0), read.1, parts.1)
