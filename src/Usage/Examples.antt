-- ===== src/Usage/Examples.antt =====
-- Totals of harness/usage.go, and the theorems at them.
use lightcode.Prelude.{◌≡◌, refl, none, some, List, [], ◌∷◌, codes, same, text_leb, if◌then◌else◌}
use lightcode.Prelude.Int.{pos, ◌+ℤ◌, ◌-ℤ◌, max_int64}
use lightcode.Prelude.Assoc.{lookup, insert}
use lightcode.Usage.{
  ref_key, ModelRef, UsageCount, ModelUsage, add_int64, add_usage_count, add_usage_totals, seed,
  merge, insert_usage, sort_usage_totals,
}
use lightcode.Usage.Counts.{in_range, add_int64_lem}
use lightcode.Usage.Totals.{combined, add_usage_totals-lookup}

abbrev small : ModelRef
small = record { provider = codes "b"; model = codes "m" }

abbrev large : ModelRef
large = record { provider = codes "a"; model = codes "m" }

abbrev one_call : UsageCount
one_call = record { input_tokens = pos 3; cached_input_tokens = pos 1; output_tokens = pos 2 }

abbrev two_calls : UsageCount
two_calls = record { input_tokens = pos 6; cached_input_tokens = pos 2; output_tokens = pos 4 }

abbrev first : List ModelUsage
first = (small, one_call) ∷ []

abbrev second : List ModelUsage
second = (large, one_call) ∷ (small, one_call) ∷ []

abbrev total : List ModelUsage
total = (large, one_call) ∷ (small, two_calls) ∷ []

adds : add_usage_totals first second ≡ some total
unfolding add_usage_totals seed merge insert lookup add_usage_count add_int64 ◌+ℤ◌ ◌-ℤ◌ same
    text_leb insert_usage sort_usage_totals
adds = refl

add_int64_lem_example :
    add_int64 max_int64 (pos 1)
    ≡ (if in_range (max_int64 +ℤ pos 1) then some (max_int64 +ℤ pos 1) else none)
add_int64_lem_example = add_int64_lem max_int64 (pos 1) refl refl

add_usage_totals-lookup_example :
    lookup small total ≡ combined (lookup small first) (lookup small second)
unfolding lookup same
add_usage_totals-lookup_example = add_usage_totals-lookup first second total small refl refl adds
