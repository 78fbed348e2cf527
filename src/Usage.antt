-- ===== src/Usage.antt =====
-- harness/usage.go: token counts per model, and their checked sums.
pub mod Counts
pub mod Totals
pub mod Sorted
mod Examples
use lightcode.Prelude.{
  ◌>>=◌, ◌≡◌, ◌↔◌, Bool, true, false, not, ◌&&◌, Option, none, some, List, [], ◌∷◌, Text, same,
  same_iff, text_leb, is_empty, if◌then◌else◌, arith,
}
use lightcode.Prelude.Int.{ℤ, pos, ltb_ℤ, eqb_ℤ, ◌+ℤ◌, ◌-ℤ◌, max_int64, min_int64}
use lightcode.Prelude.Assoc.{Key, lookup, insert}

pub record ModelRef : Type 0 where
  pub provider : Text
  pub model : Text

abbrev pub ref_eqb : ModelRef → ModelRef → Bool
ref_eqb a b = same a.provider b.provider && same a.model b.model

pub ref_eqb_iff : (a b : ModelRef) → (ref_eqb a b ≡ true) ↔ (a ≡ b)
ref_eqb_iff a b = (
  λ h. ground (arith, h, (same_iff a.provider b.provider).0, (same_iff a.model b.model).0),
  λ h. ground (arith, h, (same_iff a.provider b.provider).1, (same_iff a.model b.model).1),
)

instance abbrev pub ref_key : Key ModelRef
ref_key = record { eqb = ref_eqb; eqb_iff = ref_eqb_iff }

pub record UsageCount : Type 0 where
  pub input_tokens : ℤ
  pub cached_input_tokens : ℤ
  pub output_tokens : ℤ

-- The usage of each model, as the totals and the merged map keep it
abbrev pub ModelUsage : Type 0
ModelUsage = ModelRef × UsageCount

-- a + b; Go's differences in the tests stay in range, since b has the sign of the bound.
unfoldable pub add_int64 : ℤ → ℤ → Option ℤ
add_int64 a b =
    if ltb_ℤ (pos 0) b && ltb_ℤ (max_int64 -ℤ b) a
    then none
    else if ltb_ℤ b (pos 0) && ltb_ℤ a (min_int64 -ℤ b)
    then none
    else some (a +ℤ b)

-- None is the storage-failure class.
unfoldable pub add_usage_count : UsageCount → UsageCount → Option UsageCount
add_usage_count a b = add_int64 a.input_tokens b.input_tokens >>= λ input.
    add_int64 a.cached_input_tokens b.cached_input_tokens >>= λ cached.
    add_int64 a.output_tokens b.output_tokens >>= λ output.
    some (record { input_tokens = input; cached_input_tokens = cached; output_tokens = output })

unfoldable pub seed : List ModelUsage → List ModelUsage → List ModelUsage
seed merged [] = merged
seed merged ((ref, usage) ∷ list) = seed (insert ref usage merged) list

abbrev pub sum_with : Option UsageCount → UsageCount → Option UsageCount
sum_with none usage = some usage
sum_with (some prev) usage = add_usage_count prev usage

unfoldable pub merge : List ModelUsage → List ModelUsage → Option (List ModelUsage)
merge merged [] = some merged
merge merged ((ref, usage) ∷ list) =
    sum_with (lookup ref merged) usage >>= λ sum. merge (insert ref sum merged) list

-- The comparison of sortUsageTotals, negated: not b before a
abbrev pub ref_leb : ModelRef → ModelRef → Bool
ref_leb a b =
    if same a.provider b.provider then text_leb a.model b.model else text_leb a.provider b.provider

unfoldable pub insert_usage : ModelUsage → List ModelUsage → List ModelUsage
insert_usage u [] = u ∷ []
insert_usage u (v ∷ vs) =
    let rest = insert_usage u vs in if ref_leb u.0 v.0 then u ∷ v ∷ vs else v ∷ rest

unfoldable pub sort_usage_totals : List ModelUsage → List ModelUsage
unfolding insert_usage
sort_usage_totals [] = []
sort_usage_totals (u ∷ us) = insert_usage u (sort_usage_totals us)

unfoldable pub add_usage_totals : List ModelUsage → List ModelUsage → Option (List ModelUsage)
unfolding seed merge sort_usage_totals
add_usage_totals a b = merge (seed [] a) b >>= λ merged. some (sort_usage_totals merged)

abbrev pub is_complete : ModelRef → Bool
is_complete ref = not (is_empty ref.provider) && not (is_empty ref.model)

-- An entry against the one before it
abbrev pub follows : ModelRef → ModelRef → Bool
follows prev cur = not (ref_eqb prev cur) && ref_leb prev cur

unfoldable pub validate_after : ModelRef → List ModelUsage → Bool
validate_after prev [] = true
validate_after prev ((ref, _) ∷ list) =
    is_complete ref && follows prev ref && validate_after ref list

unfoldable pub validate_usage_totals : List ModelUsage → Bool
unfolding validate_after
validate_usage_totals [] = true
validate_usage_totals ((ref, _) ∷ list) = is_complete ref && validate_after ref list

abbrev pub count_eqb : UsageCount → UsageCount → Bool
count_eqb a b =
    eqb_ℤ a.input_tokens b.input_tokens
    && eqb_ℤ a.cached_input_tokens b.cached_input_tokens
    && eqb_ℤ a.output_tokens b.output_tokens

unfoldable pub usage_totals_equal : List ModelUsage → List ModelUsage → Bool
usage_totals_equal [] [] = true
usage_totals_equal [] (v ∷ vs) = false
usage_totals_equal (u ∷ us) [] = false
usage_totals_equal (u ∷ us) (v ∷ vs) =
    ref_eqb u.0 v.0 && count_eqb u.1 v.1 && usage_totals_equal us vs
