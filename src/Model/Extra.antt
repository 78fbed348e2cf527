-- ===== src/Model/Extra.antt =====
-- model/extra.go: provider-specific fields, and their accumulator over a stream.
use lightcode.Prelude.{
  ◌≡◌, refl, Bool, true, false, not, ◌&&◌, ◌||◌, Option, none, some, List, [], ◌∷◌, ◌++◌, Text,
  same, codes, is_empty, trim_space, if◌then◌else◌, Option-cases, arith, inl, inr, if_cases, ◌⊎◌,
}
use lightcode.Prelude.Assoc.{lookup, insert, text_key}
use lightcode.Model.{Json, Extra}

unfoldable pub is_json_null : Text → Bool
is_json_null raw = same (trim_space raw) (codes "null")

unfoldable pub has_values : Extra → Bool
has_values [] = false
has_values ((_, value) ∷ e) = not (is_json_null value) || has_values e

unfoldable pub finalize : Extra → Extra
finalize [] = []
finalize ((key, value) ∷ e) =
    let rest = finalize e in if is_json_null value then rest else (key, value) ∷ rest

pub data ExtraKind : Type 0 where
  null_kind string_kind array_kind object_kind other_json : ExtraKind

unfoldable pub extra_kind_eqb : ExtraKind → ExtraKind → Bool
extra_kind_eqb ExtraKind.null_kind ExtraKind.null_kind = true
extra_kind_eqb ExtraKind.string_kind ExtraKind.string_kind = true
extra_kind_eqb ExtraKind.array_kind ExtraKind.array_kind = true
extra_kind_eqb ExtraKind.object_kind ExtraKind.object_kind = true
extra_kind_eqb ExtraKind.other_json ExtraKind.other_json = true
extra_kind_eqb _ _ = false

unfoldable pub kind_by_head : Text → ExtraKind
kind_by_head [] = ExtraKind.other_json
kind_by_head (c ∷ s) =
    if same (c ∷ s) (codes "null")
    then ExtraKind.null_kind
    else if same (c ∷ []) (codes "\"")
    then ExtraKind.string_kind
    else if same (c ∷ []) (codes "[")
    then ExtraKind.array_kind
    else if same (c ∷ []) (codes "{")
    then ExtraKind.object_kind
    else ExtraKind.other_json

unfoldable pub classify_json : Text → ExtraKind
unfolding kind_by_head
classify_json raw = kind_by_head (trim_space raw)

-- Both maps have the same keys.
pub record ExtraAccumulator : Type 0 where
  pub values : Extra
  pub kinds : List (Text × ExtraKind)

abbrev pub new_extra_accumulator : ExtraAccumulator
new_extra_accumulator = record { values = []; kinds = [] }

pub record Added : Type 0 where
  pub extra : ExtraAccumulator
  pub failed : Bool

-- `a.values[key]` of a present key
unfoldable pub value_at : Text → Extra → Text
unfolding lookup
value_at key values = elim (lookup key values) [ some v ↦ v | none ↦ [] ]

abbrev pub put_value : Text → Text → ExtraAccumulator → ExtraAccumulator
put_value key value a = record a { values = insert key value a.values }

abbrev pub put_kind : Text → ExtraKind → ExtraAccumulator → ExtraAccumulator
put_kind key kind a = record a { kinds = insert key kind a.kinds }

module _ ⦃json : Json⦄ where
  unfoldable pub join_strings : Option Text → Option Text → Option Text
  join_strings (some s) (some t) = some (json.marshal_string (s ++ t))
  join_strings (some s) none = none
  join_strings none _ = none

  unfoldable pub join_arrays : Option (List Text) → Option (List Text) → Option Text
  join_arrays (some xs) (some ys) = json.marshal_array (xs ++ ys)
  join_arrays (some xs) none = none
  join_arrays none _ = none

  unfoldable pub accumulate_same_kind : ExtraKind → Text → Text → Option Text
  accumulate_same_kind ExtraKind.string_kind previous next =
      join_strings (json.unmarshal_string previous) (json.unmarshal_string next)
  accumulate_same_kind ExtraKind.array_kind previous next =
      join_arrays (json.unmarshal_array previous) (json.unmarshal_array next)
  accumulate_same_kind _ previous next = some next

  unfoldable pub keep_merged : Text → Text → ExtraAccumulator → Option Text → Added
  keep_merged key value a none = record { extra = put_value key value a; failed = true }
  keep_merged key value a (some merged) = record { extra = put_value key merged a; failed = false }

  unfoldable pub add_known : Text → Text → ExtraKind → ExtraKind → ExtraAccumulator → Added
  unfolding extra_kind_eqb keep_merged accumulate_same_kind value_at
  add_known key value kind prev a =
      if not (extra_kind_eqb prev kind)
      then record { extra = put_value key value (put_kind key kind a); failed = true }
      else keep_merged key value a (accumulate_same_kind prev (value_at key a.values) value)

  unfoldable pub add_kind : Text → Text → ExtraKind → ExtraAccumulator → Option ExtraKind → Added
  unfolding add_known
  add_kind key value kind a none = record {
    extra = put_value key value (put_kind key kind a);
    failed = false;
  }
  add_kind key value kind a (some prev) = add_known key value kind prev a

  unfoldable pub add : Text → Text → ExtraAccumulator → Added
  unfolding add_kind classify_json lookup
  add key value a =
      if is_empty key || is_empty value
      then record { extra = a; failed = false }
      else add_kind key value (classify_json value) a (lookup key a.kinds)

  -- The loops over the fields of one delta ignore the errors.
  unfoldable pub add_all : Extra → ExtraAccumulator → ExtraAccumulator
  unfolding add
  add_all [] a = a
  add_all ((key, value) ∷ e) a = add_all e (add key value a).extra

  -- Every value is valid JSON.
  unfoldable pub validate_extra_values : Extra → Bool
  validate_extra_values [] = true
  validate_extra_values ((_, value) ∷ e) = json.valid value && validate_extra_values e

  pub validate-insert :
      (key value : Text) (e : Extra)
      → json.valid value ≡ true
      → validate_extra_values e ≡ true
      → validate_extra_values (insert key value e) ≡ true
  unfolding validate_extra_values insert
  validate-insert key value [] h k = ground (arith, h)
  validate-insert key value ((j, w) ∷ e) h k = ground (arith, h, k, validate-insert key value e)

  pub validate-finalize :
      (e : Extra) → validate_extra_values e ≡ true → validate_extra_values (finalize e) ≡ true
  unfolding validate_extra_values finalize
  validate-finalize [] h = refl
  validate-finalize ((j, w) ∷ e) h = ground (arith, h, validate-finalize e)

  pub accumulate-valid :
      (kind : ExtraKind) (previous next merged : Text)
      → json.valid next ≡ true
      → accumulate_same_kind kind previous next ≡ some merged
      → json.valid merged ≡ true
  unfolding accumulate_same_kind join_strings join_arrays
  accumulate-valid ExtraKind.null_kind previous next merged h e = ground (arith, h, e)
  accumulate-valid ExtraKind.object_kind previous next merged h e = ground (arith, h, e)
  accumulate-valid ExtraKind.other_json previous next merged h e = ground (arith, h, e)
  accumulate-valid ExtraKind.string_kind previous next merged h e =
      strings (json.unmarshal_string previous) (json.unmarshal_string next) e
    where
      strings : (o p : Option Text) → join_strings o p ≡ some merged → json.valid merged ≡ true
      strings (some s) (some t) q = ground (arith, q, json.valid-marshal_string (s ++ t))
      strings (some s) none q = cc
      strings none o q = cc
  accumulate-valid ExtraKind.array_kind previous next merged h e =
      arrays (json.unmarshal_array previous) (json.unmarshal_array next) e
    where
      arrays : (o p : Option (List Text)) → join_arrays o p ≡ some merged → json.valid merged ≡ true
      arrays (some s) (some t) q = json.valid-marshal_array (s ++ t) merged q
      arrays (some s) none q = cc
      arrays none o q = cc

  -- What is accumulated stays valid JSON.
  pub add_kind-valid :
      (key value : Text) (kind : ExtraKind) (a : ExtraAccumulator) (o : Option ExtraKind)
      → json.valid value ≡ true
      → validate_extra_values a.values ≡ true
      → validate_extra_values (add_kind key value kind a o).extra.values ≡ true
  unfolding add_kind add_known keep_merged
  add_kind-valid key value kind a none h k = validate-insert key value a.values h k
  add_kind-valid key value kind a (some prev) h k =
      if_cases (λ (r : Added). validate_extra_values r.extra.values ≡ true)
        (not (extra_kind_eqb prev kind)) _ _ (λ _. validate-insert key value a.values h k)
        λ _. merge (Option-cases (accumulate_same_kind prev (value_at key a.values) value))
    where
      merge :
          ((accumulate_same_kind prev (value_at key a.values) value ≡ none)
            ⊎ ((m : Text) × (accumulate_same_kind prev (value_at key a.values) value ≡ some m)))
          → validate_extra_values
              (keep_merged key value a
                (accumulate_same_kind prev (value_at key a.values) value)).extra.values
            ≡ true
      merge (inl e) = rw e (validate-insert key value a.values h k)
      merge (inr (m, e)) = rw e (
          validate-insert key m a.values (accumulate-valid prev (value_at key a.values) value m h e)
            k)

  pub add_all-valid :
      (e : Extra) (a : ExtraAccumulator)
      → validate_extra_values e ≡ true
      → validate_extra_values a.values ≡ true
      → validate_extra_values (add_all e a).values ≡ true
  unfolding add_all add validate_extra_values
  add_all-valid [] a h k = k
  add_all-valid ((key, value) ∷ e) a h k =
      add_all-valid e (add key value a).extra (ground (arith, h)) (
        if_cases (λ (r : Added). validate_extra_values r.extra.values ≡ true)
          (is_empty key || is_empty value) _ _ (λ _. k)
          λ _.
            add_kind-valid key value (classify_json value) a (lookup key a.kinds)
              (ground (arith, h)) k)
