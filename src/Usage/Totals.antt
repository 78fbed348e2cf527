-- ===== src/Usage/Totals.antt =====
-- The merge of two totals in harness/usage.go, model by model.
use mathlib.Core.Path.{subst}
use lightcode.Prelude.{
  ◌>>=◌, ◌≡◌, refl, Bool, true, false, ◌&&◌, Option, none, some, List, [], ◌∷◌, if◌then◌else◌,
  arith, ap, ◌∙◌, sym, Bool-cases, inl, inr,
}
use lightcode.Prelude.Assoc.{lookup, insert, lookup-insert}
use lightcode.Usage.{
  ref_key, ModelRef, ref_eqb, ref_eqb_iff, UsageCount, ModelUsage, add_usage_count, seed, sum_with,
  merge, insert_usage, sort_usage_totals, add_usage_totals,
}

abbrev pub is_absent : Option UsageCount → Bool
is_absent none = true
is_absent (some u) = false

-- No model stands twice.
abbrev pub is_unique : List ModelUsage → Bool
is_unique [] = true
is_unique ((ref, usage) ∷ list) = is_absent (lookup ref list) && is_unique list

-- What two totals give for one model
abbrev pub combined : Option UsageCount → Option UsageCount → Option UsageCount
combined none new = new
combined (some old) none = some old
combined (some old) (some new) = add_usage_count old new

abbrev pub or_else : Option UsageCount → Option UsageCount → Option UsageCount
or_else none old = old
or_else (some new) old = some new

or_else_none : (o : Option UsageCount) → or_else o none ≡ o
or_else_none none = refl
or_else_none (some u) = refl

seed-lookup :
    (ref : ModelRef) (merged list : List ModelUsage)
    → is_unique list ≡ true
    → lookup ref (seed merged list) ≡ or_else (lookup ref list) (lookup ref merged)
unfolding seed lookup
seed-lookup ref merged [] h = refl
seed-lookup ref merged ((r, u) ∷ list) h = ground (
  arith,
  h,
  seed-lookup ref (insert r u merged) list,
  lookup-insert r ref u merged,
  ref_eqb_iff r ref,
)

pub absent_none : (o : Option UsageCount) → is_absent o ≡ true → o ≡ none
absent_none none h = refl
absent_none (some u) h = cc

combined_none : (old : Option UsageCount) → combined old none ≡ old
combined_none none = refl
combined_none (some u) = refl

combined-sum_with :
    (old : Option UsageCount) (u : UsageCount) → combined old (some u) ≡ sum_with old u
combined-sum_with none u = refl
combined-sum_with (some v) u = refl

-- A chain that gives a result has one at its first step.
pub bind_some {ℓ κ} :
    {A : Type ℓ} {B : Type κ} (o : Option A) (f : A → Option B) (b : B)
    → (o >>= f) ≡ some b
    → (a : A) × (o ≡ some a) × (f a ≡ some b)
bind_some none f b h = cc
bind_some (some a) f b h = (a, refl, h)

pub some_inj : (a b : List ModelUsage) → some a ≡ some b → a ≡ b
some_inj a b h = ground (arith, h)

seed_start :
    (ref : ModelRef) (a : List ModelUsage)
    → is_unique a ≡ true
    → lookup ref (seed [] a) ≡ lookup ref a
unfolding lookup
seed_start ref a h = seed-lookup ref [] a h ∙ or_else_none (lookup ref a)

combined-insert :
    (r ref : ModelRef) (s u : UsageCount) (merged list : List ModelUsage)
    → lookup r list ≡ none
    → sum_with (lookup r merged) u ≡ some s
    → combined (lookup ref (insert r s merged)) (lookup ref list)
      ≡ combined (lookup ref merged) (if ref_eqb r ref then some u else lookup ref list)
combined-insert r ref s u merged list h k =
    rw (lookup-insert r ref s merged) (elim (Bool-cases (ref_eqb r ref)) [
      | inl e ↦
          let equal : r ≡ ref = (ref_eqb_iff r ref).0 e in
          let alone : lookup ref list ≡ none = subst (λ x. lookup x list ≡ none) equal h in
          let summed : sum_with (lookup ref merged) u ≡ some s =
            subst (λ x. sum_with (lookup x merged) u ≡ some s) equal k in
          rw (e, alone) (sym (combined-sum_with (lookup ref merged) u ∙ summed))
      | inr e ↦ rw e refl
    ])

merge-lookup :
    (ref : ModelRef) (merged list out : List ModelUsage)
    → is_unique list ≡ true
    → merge merged list ≡ some out
    → lookup ref out ≡ combined (lookup ref merged) (lookup ref list)
unfolding merge lookup
merge-lookup ref merged [] out h k =
    rw (combined_none (lookup ref merged)) (ap (lookup ref) (sym (some_inj merged out k)))
merge-lookup ref merged ((r, u) ∷ list) out h k =
    let (s, e, rest) =
      bind_some (sum_with (lookup r merged) u) (λ x. merge (insert r x merged) list) out k in
    merge-lookup ref (insert r s merged) list out (ground (arith, h)) rest
    ∙ combined-insert r ref s u merged list (absent_none (lookup r list) (ground (arith, h))) e

-- Where a model is absent, its place in the order does not matter.
insert_usage-lookup :
    (ref : ModelRef) (u : ModelUsage) (list : List ModelUsage)
    → lookup u.0 list ≡ none
    → lookup ref (insert_usage u list) ≡ (if ref_eqb u.0 ref then some u.1 else lookup ref list)
unfolding insert_usage lookup
insert_usage-lookup ref u [] h = refl
insert_usage-lookup ref u (v ∷ vs) h = ground (
  arith,
  h,
  insert_usage-lookup ref u vs,
  ref_eqb_iff u.0 ref,
  ref_eqb_iff v.0 ref,
  ref_eqb_iff v.0 u.0,
)

pub sort_usage_totals-lookup :
    (ref : ModelRef) (list : List ModelUsage)
    → is_unique list ≡ true
    → lookup ref (sort_usage_totals list) ≡ lookup ref list
unfolding sort_usage_totals lookup
sort_usage_totals-lookup ref [] h = refl
sort_usage_totals-lookup ref (u ∷ us) h =
    let rest : is_unique us ≡ true = ground (arith, h) in
    let alone : lookup u.0 us ≡ none = absent_none (lookup u.0 us) (ground (arith, h)) in
    insert_usage-lookup ref u (sort_usage_totals us) (sort_usage_totals-lookup u.0 us rest ∙ alone)
    ∙ ap (λ o. if ref_eqb u.0 ref then some u.1 else o) (sort_usage_totals-lookup ref us rest)

is_unique-insert :
    (r : ModelRef) (s : UsageCount) (m : List ModelUsage)
    → is_unique m ≡ true
    → is_unique (insert r s m) ≡ true
unfolding insert lookup
is_unique-insert r s [] h = refl
is_unique-insert r s ((j, w) ∷ m) h = ground (
  arith,
  h,
  is_unique-insert r s m,
  lookup-insert r j s m,
  ref_eqb_iff j r,
  ref_eqb_iff r j,
  ap (λ x. lookup x m),
)

pub is_unique-seed :
    (merged list : List ModelUsage) → is_unique merged ≡ true → is_unique (seed merged list) ≡ true
unfolding seed
is_unique-seed merged [] h = h
is_unique-seed merged ((r, u) ∷ list) h =
    is_unique-seed (insert r u merged) list (is_unique-insert r u merged h)

pub is_unique-merge :
    (merged list out : List ModelUsage)
    → is_unique merged ≡ true
    → merge merged list ≡ some out
    → is_unique out ≡ true
unfolding merge
is_unique-merge merged [] out h k = subst (λ x. is_unique x ≡ true) (some_inj merged out k) h
is_unique-merge merged ((r, u) ∷ list) out h k =
    let (s, e, rest) =
      bind_some (sum_with (lookup r merged) u) (λ x. merge (insert r x merged) list) out k in
    is_unique-merge (insert r s merged) list out (is_unique-insert r s merged h) rest

-- If no model stands twice in either of two totals and their sum is not refused, it has for every
-- model the checked sum of what the two have, or what one of them has alone, and nothing else.
pub add_usage_totals-lookup :
    (a b out : List ModelUsage) (ref : ModelRef)
    → is_unique a ≡ true
    → is_unique b ≡ true
    → add_usage_totals a b ≡ some out
    → lookup ref out ≡ combined (lookup ref a) (lookup ref b)
unfolding add_usage_totals
add_usage_totals-lookup a b out ref h k e =
    let (merged, m, sorted) =
      bind_some (merge (seed [] a) b) (λ x. some (sort_usage_totals x)) out e in
    let unique : is_unique merged ≡ true =
      is_unique-merge (seed [] a) b merged (is_unique-seed [] a refl) m in
    ap (lookup ref) (sym (some_inj (sort_usage_totals merged) out sorted))
    ∙ sort_usage_totals-lookup ref merged unique
    ∙ merge-lookup ref (seed [] a) b merged k m
    ∙ ap (λ x. combined x (lookup ref b)) (seed_start ref a h)
