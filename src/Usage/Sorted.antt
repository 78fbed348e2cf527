-- ===== src/Usage/Sorted.antt =====
-- What harness/usage.go adds is in the canonical shape that it validates.
use mathlib.Core.Path.{subst}
use lightcode.Prelude.{
  ◌≡◌, refl, Bool, true, false, ◌&&◌, none, some, List, [], ◌∷◌, same_iff, arith, ◌∙◌, Bool-cases,
  inl, inr,
}
use lightcode.Prelude.Assoc.{lookup, insert}
use lightcode.Prelude.Order.{text_leb_total}
use lightcode.Usage.{
  ref_key, ModelRef, ref_eqb, ref_eqb_iff, UsageCount, ModelUsage, seed, sum_with, merge, ref_leb,
  insert_usage, sort_usage_totals, add_usage_totals, is_complete, follows, validate_after,
  validate_usage_totals,
}
use lightcode.Usage.Totals.{
  is_unique, absent_none, bind_some, some_inj, is_unique-seed, is_unique-merge,
  sort_usage_totals-lookup,
}

abbrev pub all_complete : List ModelUsage → Bool
all_complete [] = true
all_complete (u ∷ us) = is_complete u.0 && all_complete us

ref_leb_total : (a b : ModelRef) → ref_leb a b ≡ false → ref_leb b a ≡ true
ref_leb_total a b h = ground (
  arith,
  h,
  text_leb_total a.provider b.provider,
  text_leb_total a.model b.model,
  same_iff a.provider b.provider,
  same_iff b.provider a.provider,
)

ref_eqb_sym : (a b : ModelRef) → ref_eqb a b ≡ false → ref_eqb b a ≡ false
ref_eqb_sym a b h = ground (arith, h, ref_eqb_iff a b, ref_eqb_iff b a)

validate_after-insert_usage :
    (prev : ModelRef) (u : ModelUsage) (list : List ModelUsage)
    → validate_after prev list ≡ true
    → is_complete u.0 ≡ true
    → follows prev u.0 ≡ true
    → lookup u.0 list ≡ none
    → validate_after prev (insert_usage u list) ≡ true
unfolding validate_after insert_usage lookup
validate_after-insert_usage prev u [] h c f a = ground (arith, c, f)
validate_after-insert_usage prev u (v ∷ vs) h c f a =
    let differs : ref_eqb v.0 u.0 ≡ false = ground (arith, a) in
    let absent : lookup u.0 vs ≡ none = ground (arith, a) in
    let after : validate_after v.0 vs ≡ true = ground (arith, h) in
    elim (Bool-cases (ref_leb u.0 v.0)) [
      | inl e ↦ rw e (ground (arith, h, c, f, e, ref_eqb_sym v.0 u.0 differs))
      | inr e ↦ rw e (
          ground (
            arith,
            h,
            validate_after-insert_usage v.0 u vs after c
                (ground (arith, differs, ref_leb_total u.0 v.0 e)) absent,
          ))
    ]

validate-insert_usage :
    (u : ModelUsage) (list : List ModelUsage)
    → validate_usage_totals list ≡ true
    → is_complete u.0 ≡ true
    → lookup u.0 list ≡ none
    → validate_usage_totals (insert_usage u list) ≡ true
unfolding validate_usage_totals validate_after insert_usage lookup
validate-insert_usage u [] h c a = ground (arith, c)
validate-insert_usage u (v ∷ vs) h c a =
    let differs : ref_eqb v.0 u.0 ≡ false = ground (arith, a) in
    let absent : lookup u.0 vs ≡ none = ground (arith, a) in
    let after : validate_after v.0 vs ≡ true = ground (arith, h) in
    elim (Bool-cases (ref_leb u.0 v.0)) [
      | inl e ↦ rw e (ground (arith, h, c, e, ref_eqb_sym v.0 u.0 differs))
      | inr e ↦ rw e (
          ground (
            arith,
            h,
            validate_after-insert_usage v.0 u vs after c
                (ground (arith, differs, ref_leb_total u.0 v.0 e)) absent,
          ))
    ]

validate-sort_usage_totals :
    (list : List ModelUsage)
    → is_unique list ≡ true
    → all_complete list ≡ true
    → validate_usage_totals (sort_usage_totals list) ≡ true
unfolding sort_usage_totals validate_usage_totals
validate-sort_usage_totals [] h c = refl
validate-sort_usage_totals (u ∷ us) h c =
    let rest : is_unique us ≡ true = ground (arith, h) in
    let alone : lookup u.0 us ≡ none = absent_none (lookup u.0 us) (ground (arith, h)) in
    validate-insert_usage u (sort_usage_totals us)
      (validate-sort_usage_totals us rest (ground (arith, c))) (ground (arith, c))
      (sort_usage_totals-lookup u.0 us rest ∙ alone)

all_complete-insert :
    (r : ModelRef) (s : UsageCount) (m : List ModelUsage)
    → is_complete r ≡ true
    → all_complete m ≡ true
    → all_complete (insert r s m) ≡ true
unfolding insert
all_complete-insert r s [] c h = ground (arith, c)
all_complete-insert r s ((j, w) ∷ m) c h = ground (arith, c, h, all_complete-insert r s m c)

all_complete-seed :
    (merged list : List ModelUsage)
    → all_complete merged ≡ true
    → all_complete list ≡ true
    → all_complete (seed merged list) ≡ true
unfolding seed
all_complete-seed merged [] h k = h
all_complete-seed merged ((r, u) ∷ list) h k =
    all_complete-seed (insert r u merged) list
      (all_complete-insert r u merged (ground (arith, k)) h) (ground (arith, k))

all_complete-merge :
    (merged list out : List ModelUsage)
    → all_complete merged ≡ true
    → all_complete list ≡ true
    → merge merged list ≡ some out
    → all_complete out ≡ true
unfolding merge
all_complete-merge merged [] out h c k =
    subst (λ x. all_complete x ≡ true) (some_inj merged out k) h
all_complete-merge merged ((r, u) ∷ list) out h c k =
    let (s, e, rest) =
      bind_some (sum_with (lookup r merged) u) (λ x. merge (insert r x merged) list) out k in
    all_complete-merge (insert r s merged) list out
      (all_complete-insert r s merged (ground (arith, c)) h) (ground (arith, c)) rest

-- The sum of two totals whose model identities are complete is in the canonical shape: unique
-- models, sorted by provider and then model, each identity complete.
pub add_usage_totals-valid :
    (a b out : List ModelUsage)
    → all_complete a ≡ true
    → all_complete b ≡ true
    → add_usage_totals a b ≡ some out
    → validate_usage_totals out ≡ true
unfolding add_usage_totals
add_usage_totals-valid a b out h k e =
    let (merged, m, sorted) =
      bind_some (merge (seed [] a) b) (λ x. some (sort_usage_totals x)) out e in
    subst (λ x. validate_usage_totals x ≡ true) (some_inj (sort_usage_totals merged) out sorted)
      (validate-sort_usage_totals merged
        (is_unique-merge (seed [] a) b merged (is_unique-seed [] a refl) m)
        (all_complete-merge (seed [] a) b merged (all_complete-seed [] a refl h) k m))
