-- ===== src/Version.antt =====
-- internal/version/version.go: release tags and their order.
pub mod Numeric
pub mod Tags
mod Examples
use lightcode.Prelude.{
  ℕ, Bool, true, false, not, ◌&&◌, Option, none, some, List, [], ◌∷◌, ◌++◌, Text, length, ltb, leb,
  ◌==◌, if◌then◌else◌, codes,
}

pub record Tag : Type 0 where
  pub major : Text
  pub minor : Text
  pub patch : Text

abbrev pub is_digit : ℕ → Bool
is_digit c = leb 48 c && leb c 57

unfoldable pub all_digits : Text → Bool
all_digits [] = true
all_digits (c ∷ s) = is_digit c && all_digits s

-- Not empty, no leading zero, digits only
unfoldable pub is_component : Text → Bool
unfolding all_digits
is_component [] = false
is_component (c ∷ []) = all_digits (c ∷ [])
is_component (c ∷ d ∷ s) = not (c == 48) && all_digits (c ∷ d ∷ s)

-- strings.Split(s, ".")
abbrev pub split_cons : ℕ → List Text → List Text
split_cons c [] = (c ∷ []) ∷ []
split_cons c (part ∷ parts) = (c ∷ part) ∷ parts

unfoldable pub split_dots : Text → List Text
split_dots [] = [] ∷ []
split_dots (c ∷ s) = let rest = split_dots s in if c == 46 then [] ∷ rest else split_cons c rest

abbrev pub tag_of : List Text → Option Tag
tag_of (a ∷ b ∷ c ∷ []) =
    if is_component a && is_component b && is_component c
    then some (record { major = a; minor = b; patch = c })
    else none
tag_of _ = none

unfoldable pub parse_tag : Text → Option Tag
unfolding split_dots
parse_tag [] = none
parse_tag (c ∷ s) = if c == 118 then tag_of (split_dots s) else none

abbrev pub is_some {ℓ} : {A : Type ℓ} → Option A → Bool
is_some none = false
is_some (some x) = true

unfoldable pub is_release : Text → Bool
is_release v = is_some (parse_tag v)

pub data Order : Type 0 where
  less same greater : Order

abbrev pub and_then : Order → Order → Order
and_then less rest = less
and_then greater rest = greater
and_then same rest = rest

-- strings.Compare
unfoldable pub compare_text : Text → Text → Order
compare_text [] [] = same
compare_text [] (d ∷ t) = less
compare_text (c ∷ s) [] = greater
compare_text (c ∷ s) (d ∷ t) =
    let rest = compare_text s t in if ltb c d then less else if ltb d c then greater else rest

unfoldable pub compare_component : Text → Text → Order
unfolding compare_text
compare_component a b =
    if not (length a == length b)
    then (if ltb (length a) (length b) then less else greater)
    else compare_text a b

-- Compare of two tags that were parsed
unfoldable pub compare_tags : Tag → Tag → Order
unfolding compare_component
compare_tags a b =
    and_then (compare_component a.major b.major)
      (and_then (compare_component a.minor b.minor) (compare_component a.patch b.patch))

-- What an input that is no tag is parsed to
abbrev pub parts_of : Option Tag → Tag
parts_of none = record { major = []; minor = []; patch = [] }
parts_of (some t) = t

unfoldable pub compare_versions : Text → Text → Order
unfolding compare_tags
compare_versions a b = compare_tags (parts_of (parse_tag a)) (parts_of (parse_tag b))

abbrev pub identity_of : Bool → Text → Text → Text
identity_of true version commit = version
identity_of false version [] = codes "dev"
identity_of false version (c ∷ commit) = codes "dev (" ++ (c ∷ commit) ++ codes ")"

-- String, with the stamped version and commit as arguments
unfoldable pub identity : Text → Text → Text
identity version commit = identity_of (is_release version) version commit
