-- ===== src/Version/Numeric.antt =====
-- The numbers that the components of a tag of internal/version/version.go stand for.
use native.Mathlib.Nat.{mul-le-mul_right}
use lightcode.Prelude.{
  ℕ, zero, suc, ◌+◌, ◌-◌, ◌*◌, ◌≤◌, ◌<◌, ◌≡◌, refl, true, [], ◌∷◌, Text, length, ltb, if◌then◌else◌,
  arith, Bool-cases, inl, inr,
}
use lightcode.Version.{
  is_digit, all_digits, is_component, Order, less, same, greater, compare_text, compare_component,
}

-- Ten to a power
abbrev pub ten_to : ℕ → ℕ
ten_to zero = 1
ten_to (suc n) = 10 * ten_to n

-- The number that a digit string stands for
abbrev pub number : Text → ℕ
number [] = 0
number (c ∷ s) = (c - 48) * ten_to (length s) + number s

abbrev pub order : ℕ → ℕ → Order
order m n = if ltb m n then less else if ltb n m then greater else same

one_le_ten_to : (n : ℕ) → 1 ≤ ten_to n
one_le_ten_to zero = omega arith
one_le_ten_to (suc n) = omega (arith, one_le_ten_to n)

ten_to_mono : (m n : ℕ) → m ≤ n → ten_to m ≤ ten_to n
ten_to_mono zero n h = one_le_ten_to n
ten_to_mono (suc m) zero h = omega (arith, h)
ten_to_mono (suc m) (suc n) h = omega (arith, ten_to_mono m n (omega (arith, h)))

number_bound : (s : Text) → all_digits s ≡ true → number s < ten_to (length s)
unfolding all_digits
number_bound [] h = omega arith
number_bound (c ∷ s) h =
    let digit : c - 48 ≤ 9 = ground (arith, h) in
    let rest : number s < ten_to (length s) = number_bound s (ground (arith, h)) in
    omega (arith, rest, mul-le-mul_right (ten_to (length s)) digit)

-- A greater leading digit outweighs the rest.
lead : (d e p v w : ℕ) → d < e → v < p → d * p + v < e * p + w
lead d e p v w h k = omega (arith, k, mul-le-mul_right p h)

digit_order :
    (c d v w p : ℕ) (o : Order)
    → is_digit c ≡ true
    → is_digit d ≡ true
    → v < p
    → w < p
    → o ≡ order v w
    → (if ltb c d then less else if ltb d c then greater else o)
      ≡ order ((c - 48) * p + v) ((d - 48) * p + w)
digit_order c d v w p o h k low high e =
    let below = lead (c - 48) (d - 48) p v w in
    let above = lead (d - 48) (c - 48) p w v in
    elim (Bool-cases (ltb c d)) [
      | inl x ↦ ground (arith, h, k, x, below (ground (arith, h, k, x)) low)
      | inr x ↦ elim (Bool-cases (ltb d c)) [
        | inl y ↦ ground (arith, h, k, y, above (ground (arith, h, k, y)) high)
        | inr y ↦ let equal : c ≡ d = ground (arith, x, y) in rw equal (ground (arith, e))
      ]
    ]

compare_text-order :
    (s t : Text)
    → all_digits s ≡ true
    → all_digits t ≡ true
    → length s ≡ length t
    → compare_text s t ≡ order (number s) (number t)
unfolding compare_text all_digits
compare_text-order [] [] h k e = ground arith
compare_text-order [] (d ∷ t) h k e = ground (arith, e)
compare_text-order (c ∷ s) [] h k e = ground (arith, e)
compare_text-order (c ∷ s) (d ∷ t) h k e =
    let same_length : length s ≡ length t = omega (arith, e) in
    let rest : compare_text s t ≡ order (number s) (number t) =
      compare_text-order s t (ground (arith, h)) (ground (arith, k)) same_length in
    let low : number s < ten_to (length s) = number_bound s (ground (arith, h)) in
    let high : number t < ten_to (length s) = rw same_length (number_bound t (ground (arith, k))) in
    let powers : ten_to (length t) ≡ ten_to (length s) = rw same_length refl in
    rw powers (
      digit_order c d (number s) (number t) (ten_to (length s)) _ (ground (arith, h))
        (ground (arith, k)) low high rest)

pub component_digits : (s : Text) → is_component s ≡ true → all_digits s ≡ true
unfolding is_component
component_digits [] h = cc
component_digits (c ∷ []) h = h
component_digits (c ∷ d ∷ s) h = ground (arith, h)

-- A longer component without a leading zero is the greater number.
longer :
    (s t : Text)
    → is_component s ≡ true
    → is_component t ≡ true
    → length s < length t
    → number s < number t
unfolding is_component all_digits
longer s [] h k l = omega (arith, l)
longer [] (d ∷ []) h k l = cc
longer (c ∷ s) (d ∷ []) h k l = omega (arith, l)
longer s (d ∷ e ∷ t) h k l =
    let lead_digit : 1 ≤ d - 48 = ground (arith, k) in
    omega (
      arith,
      number_bound s (component_digits s h),
      ten_to_mono (length s) (suc (length t)) (omega (arith, l)),
      mul-le-mul_right (ten_to (suc (length t))) lead_digit,
    )

-- Two valid components are ordered as the numbers that they stand for, of whatever size.
pub compare_component-order :
    (s t : Text)
    → is_component s ≡ true
    → is_component t ≡ true
    → compare_component s t ≡ order (number s) (number t)
unfolding compare_component
compare_component-order s t h k = ground (
  arith,
  longer s t h k,
  longer t s k h,
  compare_text-order s t (component_digits s h) (component_digits t k),
)
