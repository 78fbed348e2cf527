-- ===== src/Agent/Content.antt =====
-- agent/content_acc.go: the content parts that the fragments of a stream build.
use lightcode.Prelude.{
  ℕ, Bool, true, false, not, ◌&&◌, ◌||◌, Option, none, some, List, [], ◌∷◌, ◌++◌, Text, same, codes,
  is_empty, if◌then◌else◌, leb,
}
use lightcode.Prelude.Assoc.{lookup, insert}
use lightcode.Model.{
  Json, PartKind, text_part, image_url, opaque, other_kind, kind_eqb, ContentPart,
}
use lightcode.Model.Extra.{new_extra_accumulator, add_all, finalize}
use lightcode.Model.Stream.{ContentFragment}
use lightcode.Agent.State.{position_key, PartAcc, AssemblyState, note_conflict, part_non_empty}
use lightcode.Agent.Correlate.{natural}

abbrev pub undecided : PartKind
undecided = other_kind []

abbrev pub fresh_part : PartAcc
fresh_part = record {
  kind = undecided;
  opaque = [];
  text = [];
  url = [];
  extra = new_extra_accumulator;
}

abbrev pub part_or_fresh : Option PartAcc → PartAcc
part_or_fresh none = fresh_part
part_or_fresh (some acc) = acc

unfoldable pub part_at : ℕ → List (ℕ × PartAcc) → PartAcc
unfolding lookup
part_at p parts = part_or_fresh (lookup p parts)

unfoldable pub known_part_kind : PartKind → Bool
known_part_kind (other_kind _) = false
known_part_kind _ = true

-- The fragment's kind is not the kind of its position.
unfoldable pub is_misfit : ContentFragment → PartAcc → Bool
unfolding known_part_kind kind_eqb
is_misfit f acc =
    not (known_part_kind f.kind)
    || not (kind_eqb acc.kind undecided) && not (kind_eqb acc.kind f.kind)

-- Both values are there and differ.
unfoldable pub disagrees : Text → Text → Bool
disagrees old new = not (is_empty old) && not (is_empty new) && not (same old new)

abbrev pub first_of : Text → Text → Text
first_of old new = if is_empty old then new else old

module _ ⦃json : Json⦄ where
  unfoldable pub with_extra : ContentFragment → PartAcc → PartAcc
  unfolding add_all
  with_extra f acc = record acc { extra = add_all f.extra acc.extra }

  -- What a fragment of a position's own kind leaves; a wire type that disagrees ends it early.
  unfoldable pub fill_kind : ContentFragment → PartAcc → PartKind → PartAcc
  unfolding with_extra disagrees
  fill_kind f acc text_part = with_extra f (record acc { text = acc.text ++ f.text })
  fill_kind f acc image_url = with_extra f (record acc { url = first_of acc.url f.url })
  fill_kind f acc opaque =
      if disagrees acc.opaque f.opaque_wire_type
      then acc
      else with_extra f (record acc { opaque = first_of acc.opaque f.opaque_wire_type })
  fill_kind f acc (other_kind _) = acc

  unfoldable pub fill_part : ContentFragment → PartAcc → PartAcc
  unfolding fill_kind kind_eqb
  fill_part f acc =
      fill_kind f (record acc { kind = if kind_eqb acc.kind undecided then f.kind else acc.kind })
        f.kind

  unfoldable pub kind_conflict :
      ContentFragment → PartAcc → PartKind → AssemblyState → AssemblyState
  unfolding disagrees note_conflict
  kind_conflict f acc image_url st =
      if disagrees acc.url f.url
      then note_conflict (codes "content carries conflicting image urls") st
      else st
  kind_conflict f acc opaque st =
      if disagrees acc.opaque f.opaque_wire_type
      then note_conflict (codes "content carries conflicting opaque wire types") st
      else st
  kind_conflict f acc _ st = st

  -- A misfit leaves its position's part as it is, which a new position has then as an undecided one.
  unfoldable pub apply_content : ContentFragment → AssemblyState → AssemblyState
  unfolding part_at is_misfit insert fill_part kind_conflict note_conflict
  apply_content f st =
      let p = natural f.position in
      let acc = part_at p st.content in
      let seen = record st { content = insert p acc st.content } in
      if is_misfit f acc
      then note_conflict (codes "content carries conflicting content kinds") seen
      else kind_conflict f acc f.kind
          (record st { content = insert p (fill_part f acc) st.content })

  unfoldable pub apply_contents : List ContentFragment → AssemblyState → AssemblyState
  unfolding apply_content
  apply_contents [] st = st
  apply_contents (f ∷ fs) st = apply_contents fs (apply_content f st)

-- sort.Ints on the positions, which are distinct
module _ {ℓ} {V : Type ℓ} where
  unfoldable pub insert_position : ℕ × V → List (ℕ × V) → List (ℕ × V)
  insert_position x [] = x ∷ []
  insert_position x (y ∷ ys) =
      let rest = insert_position x ys in if leb x.0 y.0 then x ∷ y ∷ ys else y ∷ rest

  unfoldable pub sort_positions : List (ℕ × V) → List (ℕ × V)
  unfolding insert_position
  sort_positions [] = []
  sort_positions (x ∷ xs) = insert_position x (sort_positions xs)

unfoldable pub is_incomplete_opaque : PartAcc → Bool
unfolding kind_eqb
is_incomplete_opaque acc = kind_eqb acc.kind opaque && is_empty acc.opaque

unfoldable pub finished_part : PartAcc → ContentPart
unfolding finalize
finished_part acc = record {
  kind = acc.kind;
  text = acc.text;
  url = acc.url;
  opaque_wire_type = acc.opaque;
  extra = finalize acc.extra.values;
}

unfoldable pub emit_parts : List (ℕ × PartAcc) → List ContentPart
unfolding part_non_empty is_incomplete_opaque finished_part
emit_parts [] = []
emit_parts ((_, acc) ∷ parts) =
    let rest = emit_parts parts in
    if not (part_non_empty acc) || is_incomplete_opaque acc then rest else finished_part acc ∷ rest

unfoldable pub build_parts : AssemblyState → List ContentPart
unfolding emit_parts sort_positions
build_parts st = emit_parts (sort_positions st.content)
