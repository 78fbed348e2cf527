-- ===== src/Version/Tags.antt =====
-- The tags of internal/version/version.go: what is parsed, and the order of releases.
use mathlib.Core.Path.{subst}
use lightcode.Prelude.{
  ℕ, ◌≡◌, refl, Bool, true, false, ◌&&◌, Option, none, some, List, [], ◌∷◌, ◌++◌, Text, ◌==◌,
  ==_iff, sym, arith, ap, ◌∙◌, Bool-cases, inl, inr,
}
use lightcode.Version.{
  Tag, all_digits, is_component, split_cons, split_dots, tag_of, parse_tag, compare_tags,
  compare_versions, Order, and_then,
}
use lightcode.Version.Numeric.{component_digits, number, order, compare_component-order}

-- A tag as it is written
unfoldable pub print_tag : Tag → Text
print_tag t = 118 ∷ (t.major ++ 46 ∷ (t.minor ++ 46 ∷ t.patch))

abbrev pub is_tag : Tag → Bool
is_tag t = is_component t.major && is_component t.minor && is_component t.patch

split_dots-digits :
    (s rest : Text) → all_digits s ≡ true → split_dots (s ++ 46 ∷ rest) ≡ s ∷ split_dots rest
unfolding split_dots all_digits
split_dots-digits [] rest h = refl
split_dots-digits (c ∷ s) rest h = ground (arith, h, split_dots-digits s rest)

split_dots-last : (s : Text) → all_digits s ≡ true → split_dots s ≡ s ∷ []
unfolding split_dots all_digits
split_dots-last [] h = refl
split_dots-last (c ∷ s) h = ground (arith, h, split_dots-last s)

-- A tag with three valid components, once written, is read back as it was.
pub parse_tag-print_tag : (t : Tag) → is_tag t ≡ true → parse_tag (print_tag t) ≡ some t
unfolding parse_tag print_tag
parse_tag-print_tag t h =
    rw
      (
        split_dots-digits t.major (t.minor ++ 46 ∷ t.patch)
            (component_digits t.major (ground (arith, h))),
        split_dots-digits t.minor t.patch (component_digits t.minor (ground (arith, h))),
        split_dots-last t.patch (component_digits t.patch (ground (arith, h))),
      )
      (ground (arith, h))

-- The parts, joined again
abbrev joined : List Text → Text
joined [] = []
joined (p ∷ []) = p
joined (p ∷ q ∷ ps) = p ++ 46 ∷ joined (q ∷ ps)

joined-split_cons : (c : ℕ) (parts : List Text) → joined (split_cons c parts) ≡ c ∷ joined parts
joined-split_cons c [] = refl
joined-split_cons c (p ∷ []) = refl
joined-split_cons c (p ∷ q ∷ ps) = refl

abbrev is_nil : List Text → Bool
is_nil [] = true
is_nil (p ∷ ps) = false

split_cons-filled : (c : ℕ) (parts : List Text) → is_nil (split_cons c parts) ≡ false
split_cons-filled c [] = refl
split_cons-filled c (p ∷ ps) = refl

split_dots-filled : (s : Text) → is_nil (split_dots s) ≡ false
unfolding split_dots
split_dots-filled [] = refl
split_dots-filled (c ∷ s) = ground (arith, split_cons-filled c (split_dots s))

joined_empty : (parts : List Text) → is_nil parts ≡ false → joined ([] ∷ parts) ≡ 46 ∷ joined parts
joined_empty [] h = cc
joined_empty (p ∷ ps) h = refl

joined-split_dots : (s : Text) → joined (split_dots s) ≡ s
unfolding split_dots
joined-split_dots [] = refl
joined-split_dots (c ∷ s) = elim (Bool-cases (c == 46)) [
  | inl h ↦ rw h (
      joined_empty (split_dots s) (split_dots-filled s)
      ∙ ap (46 ∷◌) (joined-split_dots s)
      ∙ ap (λ x. x ∷ s) (sym ((==_iff c 46).0 h)))
  | inr h ↦ rw h (joined-split_cons c (split_dots s) ∙ ap (c ∷◌) (joined-split_dots s))
]

-- What is read is what was written, and each component is valid.
abbrev pub Reads : Text → Option Tag → Type 0
Reads v none = Unit {0}
Reads v (some t) = (is_tag t ≡ true) × (print_tag t ≡ v)

tag_of-Reads : (parts : List Text) (s : Text) → joined parts ≡ s → Reads (118 ∷ s) (tag_of parts)
unfolding print_tag
tag_of-Reads [] s h = tt
tag_of-Reads (a ∷ []) s h = tt
tag_of-Reads (a ∷ b ∷ []) s h = tt
tag_of-Reads (a ∷ b ∷ c ∷ []) s h =
    elim (Bool-cases (is_component a && is_component b && is_component c)) [
      | inl k ↦ rw k (k, ap (118 ∷◌) h)
      | inr k ↦ rw k tt
    ]
tag_of-Reads (a ∷ b ∷ c ∷ d ∷ parts) s h = tt

-- Whatever is accepted as a tag has three valid components, and is the text that they are written
-- as: nothing else is read.
pub parse_tag_lem : (v : Text) → Reads v (parse_tag v)
unfolding parse_tag
parse_tag_lem [] = tt
parse_tag_lem (c ∷ s) = elim (Bool-cases (c == 118)) [
  | inl h ↦
      let same : c ≡ 118 = (==_iff c 118).0 h in
      rw same (tag_of-Reads (split_dots s) s (joined-split_dots s))
  | inr h ↦ rw h tt
]

abbrev pub order_tags : Tag → Tag → Order
order_tags a b =
    and_then (order (number a.major) (number b.major))
      (and_then (order (number a.minor) (number b.minor)) (order (number a.patch) (number b.patch)))

-- Two texts that are read as tags are ordered by their major, then minor, then patch numbers, of
-- whatever size these are.
pub compare_versions-order_tags :
    (v w : Text) (a b : Tag)
    → parse_tag v ≡ some a
    → parse_tag w ≡ some b
    → compare_versions v w ≡ order_tags a b
unfolding compare_versions compare_tags
compare_versions-order_tags v w a b h k =
    let (valid_a, _) : Reads v (some a) = subst (Reads v) h (parse_tag_lem v) in
    let (valid_b, _) : Reads w (some b) = subst (Reads w) k (parse_tag_lem w) in
    rw (h, k)
      (ground (
        arith,
        compare_component-order a.major b.major,
        compare_component-order a.minor b.minor,
        compare_component-order a.patch b.patch,
        valid_a,
        valid_b,
      ))
