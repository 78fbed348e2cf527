-- ===== src/Agent/Parts.antt =====
-- The content parts of agent/content_acc.go while they grow: each has the fields of its kind only.
use mathlib.Core.Path.{subst}
use lightcode.Prelude.{
  ℕ, ◌≡◌, refl, Bool, true, false, not, ◌&&◌, ◌||◌, Option, none, some, List, [], ◌∷◌, same,
  is_empty, if◌then◌else◌, arith, if_cases, sym,
}
use lightcode.Prelude.Assoc.{lookup, AllPairs, AllPairs-insert, AllPairs-lookup}
use lightcode.Model.{Json, PartKind, text_part, image_url, opaque, other_kind, kind_eqb}
use lightcode.Model.Extra.{has_values, validate_extra_values, validate-finalize, add_all-valid}
use lightcode.Model.Validate.{kind_fields, validate_content_part, validate_parts}
use lightcode.Model.Stream.{
  ContentFragment, fragment_fields, validate_content_fragment, validate_content_fragments,
}
use lightcode.Agent.State.{position_key, PartAcc, AssemblyState, note_conflict, part_non_empty}
use lightcode.Agent.Correlate.{natural}
use lightcode.Agent.Content.{
  undecided, part_or_fresh, kind_conflict, apply_content, apply_contents, part_at, is_misfit,
  known_part_kind, disagrees, with_extra, fill_kind, fill_part, sort_positions,
  is_incomplete_opaque, finished_part, emit_parts,
}
use lightcode.Agent.Sorting.{AllPairs-sort_positions}

-- The fields that a kind does not own are empty; an undecided part has nothing.
unfoldable pub fields_ok : PartKind → PartAcc → Bool
unfolding has_values
fields_ok text_part acc = is_empty acc.url && is_empty acc.opaque
fields_ok image_url acc = is_empty acc.text && is_empty acc.opaque
fields_ok opaque acc = is_empty acc.text && is_empty acc.url
fields_ok (other_kind s) acc =
    is_empty s
    && is_empty acc.text
    && is_empty acc.url
    && is_empty acc.opaque
    && not (has_values acc.extra.values)

module _ ⦃json : Json⦄ where
  abbrev pub IsPart : PartAcc → Type 0
  IsPart acc = (fields_ok acc.kind acc ≡ true) × (validate_extra_values acc.extra.values ≡ true)

  abbrev pub ArePairs : List (ℕ × PartAcc) → Type 0
  ArePairs parts = AllPairs (λ _ acc. IsPart acc) parts

  kind_fields-finished :
      (k : PartKind) (acc : PartAcc)
      → fields_ok k acc ≡ true
      → part_non_empty acc ≡ true
      → (kind_eqb k opaque && is_empty acc.opaque) ≡ false
      → kind_fields (finished_part acc) k ≡ none
  unfolding kind_fields finished_part fields_ok part_non_empty kind_eqb
  kind_fields-finished text_part acc h n i = ground (arith, h)
  kind_fields-finished image_url acc h n i = ground (arith, h)
  kind_fields-finished opaque acc h n i = ground (arith, h, i)
  kind_fields-finished (other_kind s) acc h n i = ground (arith, h, n)

  -- A part that is emitted is valid.
  finished_part-valid :
      (acc : PartAcc)
      → IsPart acc
      → part_non_empty acc ≡ true
      → is_incomplete_opaque acc ≡ false
      → validate_content_part (finished_part acc) ≡ none
  unfolding validate_content_part finished_part is_incomplete_opaque
  finished_part-valid acc h n i =
      rw (kind_fields-finished acc.kind acc h.0 n i)
        (rw (validate-finalize acc.extra.values h.1) refl)

  emit_parts-valid :
      (parts : List (ℕ × PartAcc)) → ArePairs parts → validate_parts (emit_parts parts) ≡ none
  unfolding emit_parts validate_parts
  emit_parts-valid [] h = refl
  emit_parts-valid ((p, acc) ∷ parts) h =
      ground (arith, finished_part-valid acc h.0, emit_parts-valid parts h.1)

  pub built_parts-valid :
      (parts : List (ℕ × PartAcc))
      → ArePairs parts
      → validate_parts (emit_parts (sort_positions parts)) ≡ none
  built_parts-valid parts h =
      emit_parts-valid (sort_positions parts)
        (AllPairs-sort_positions (λ (_ : ℕ) acc. IsPart acc) parts h)

  fill_kind-fields :
      (f : ContentFragment) (acc : PartAcc) (k j : PartKind)
      → (not (known_part_kind k) || not (kind_eqb j undecided) && not (kind_eqb j k)) ≡ false
      → fields_ok j acc ≡ true
      → fragment_fields f k ≡ none
      → let filled = fill_kind f (record acc { kind = if kind_eqb j undecided then k else j }) k in
        fields_ok filled.kind filled ≡ true
  unfolding fill_kind with_extra fields_ok fragment_fields kind_eqb known_part_kind disagrees same
  fill_kind-fields f acc text_part text_part m h v = ground (arith, h)
  fill_kind-fields f acc text_part image_url m h v = cc
  fill_kind-fields f acc text_part opaque m h v = cc
  fill_kind-fields f acc text_part (other_kind []) m h v = ground (arith, h, v)
  fill_kind-fields f acc text_part (other_kind (_ ∷ _)) m h v = cc
  fill_kind-fields f acc image_url text_part m h v = cc
  fill_kind-fields f acc image_url image_url m h v = ground (arith, h)
  fill_kind-fields f acc image_url opaque m h v = cc
  fill_kind-fields f acc image_url (other_kind []) m h v = ground (arith, h, v)
  fill_kind-fields f acc image_url (other_kind (_ ∷ _)) m h v = cc
  fill_kind-fields f acc opaque text_part m h v = cc
  fill_kind-fields f acc opaque image_url m h v = cc
  fill_kind-fields f acc opaque opaque m h v = ground (arith, h)
  fill_kind-fields f acc opaque (other_kind []) m h v = ground (arith, h, v)
  fill_kind-fields f acc opaque (other_kind (_ ∷ _)) m h v = cc
  fill_kind-fields f acc (other_kind _) j m h v = cc

  fill_kind-extra :
      (f : ContentFragment) (acc : PartAcc) (k : PartKind)
      → validate_extra_values f.extra ≡ true
      → validate_extra_values acc.extra.values ≡ true
      → validate_extra_values (fill_kind f acc k).extra.values ≡ true
  unfolding fill_kind with_extra
  fill_kind-extra f acc text_part v h = add_all-valid f.extra acc.extra v h
  fill_kind-extra f acc image_url v h = add_all-valid f.extra acc.extra v h
  fill_kind-extra f acc opaque v h =
      if_cases (λ (p : PartAcc). validate_extra_values p.extra.values ≡ true)
        (disagrees acc.opaque f.opaque_wire_type) _ _ (λ _. h)
        λ _. add_all-valid f.extra acc.extra v h
  fill_kind-extra f acc (other_kind _) v h = h

  -- A checked fragment that fits its part leaves a part.
  pub fill_part-IsPart :
      (f : ContentFragment) (acc : PartAcc)
      → validate_content_fragment f ≡ none
      → is_misfit f acc ≡ false
      → IsPart acc
      → IsPart (fill_part f acc)
  unfolding fill_part is_misfit validate_content_fragment
  fill_part-IsPart f acc v m h = (
    fill_kind-fields f acc f.kind acc.kind m h.0 (ground (arith, v)),
    fill_kind-extra f _ f.kind (ground (arith, v)) h.1,
  )

  part_at-IsPart : (p : ℕ) (parts : List (ℕ × PartAcc)) → ArePairs parts → IsPart (part_at p parts)
  unfolding part_at fields_ok has_values validate_extra_values
  part_at-IsPart p parts h = found (lookup p parts) refl
    where
      found : (o : Option PartAcc) → lookup p parts ≡ o → IsPart (part_or_fresh o)
      found none e = (refl, refl)
      found (some acc) e = AllPairs-lookup (λ (_ : ℕ) a. IsPart a) p parts e h

  kind_conflict_content :
      (f : ContentFragment) (acc : PartAcc) (k : PartKind) (st : AssemblyState)
      → (kind_conflict f acc k st).content ≡ st.content
  unfolding kind_conflict note_conflict
  kind_conflict_content f acc text_part st = refl
  kind_conflict_content f acc image_url st = ground arith
  kind_conflict_content f acc opaque st = ground arith
  kind_conflict_content f acc (other_kind _) st = refl

  apply_content-ArePairs :
      (f : ContentFragment) (st : AssemblyState)
      → validate_content_fragment f ≡ none
      → ArePairs st.content
      → ArePairs (apply_content f st).content
  unfolding apply_content note_conflict
  apply_content-ArePairs f st v h =
      if_cases (λ (s : AssemblyState). ArePairs s.content) (is_misfit f acc) _ _
        (λ _. AllPairs-insert (λ (_ : ℕ) a. IsPart a) p acc st.content part h)
        λ e. subst ArePairs (sym (kind_conflict_content f acc f.kind _)) (
          AllPairs-insert (λ (_ : ℕ) a. IsPart a) p (fill_part f acc) st.content
            (fill_part-IsPart f acc v e part) h)
    where
      p : ℕ
      p = natural f.position

      acc : PartAcc
      acc = part_at p st.content

      part : IsPart acc
      part = part_at-IsPart p st.content h

  -- Checked fragments keep the parts well formed.
  pub apply_contents-ArePairs :
      (fs : List ContentFragment) (st : AssemblyState)
      → validate_content_fragments fs ≡ none
      → ArePairs st.content
      → ArePairs (apply_contents fs st).content
  unfolding apply_contents validate_content_fragments
  apply_contents-ArePairs [] st v h = h
  apply_contents-ArePairs (f ∷ fs) st v h =
      apply_contents-ArePairs fs (apply_content f st) (ground (arith, v))
        (apply_content-ArePairs f st (ground (arith, v)) h)
