-- ===== src/Model/Stream.antt =====
-- model/stream.go: the deltas of a stream, and the check of one delta.
use lightcode.Prelude.{Bool, true, false, ◌&&◌, Option, none, some, List, [], ◌∷◌, Text, is_empty}
use lightcode.Prelude.Int.{ℤ, pos, negsuc}
use lightcode.Model.{
  Json, Extra, PartKind, text_part, image_url, opaque, other_kind, TokenCounts, forbidden_field,
  invalid_position,
}
use lightcode.Model.Validate.{Check, ◌then_check◌, require, check_extra}

pub record ContentFragment : Type 0 where
  pub position : ℤ
  pub kind : PartKind
  pub text : Text
  pub url : Text
  pub opaque_wire_type : Text
  pub extra : Extra

pub record ToolCallFragment : Type 0 where
  pub position : Option ℤ
  pub id : Text
  pub wire_type : Text
  pub name : Text
  pub argument_fragment : Text
  pub extra : Extra

pub record StreamDelta : Type 0 where
  pub has_choice : Bool
  pub role : Text
  pub refusal_fragment : Text
  pub content_fragments : List ContentFragment
  pub tool_fragments : List ToolCallFragment
  pub finish_reason : Text
  pub usage : Option TokenCounts
  pub message_extra : Extra

abbrev pub is_natural : ℤ → Bool
is_natural (pos n) = true
is_natural (negsuc n) = false

abbrev pub is_position : Option ℤ → Bool
is_position none = true
is_position (some z) = is_natural z

module _ ⦃json : Json⦄ where
  unfoldable pub fragment_fields : ContentFragment → PartKind → Check
  fragment_fields f text_part =
      require (is_empty f.url && is_empty f.opaque_wire_type) forbidden_field
  fragment_fields f image_url =
      require (is_empty f.text && is_empty f.opaque_wire_type) forbidden_field
  fragment_fields f opaque = require (is_empty f.text && is_empty f.url) forbidden_field
  fragment_fields f (other_kind _) = some forbidden_field

  unfoldable pub validate_content_fragment : ContentFragment → Check
  unfolding fragment_fields
  validate_content_fragment f = fragment_fields f f.kind then_check check_extra f.extra

  unfoldable pub validate_content_fragments : List ContentFragment → Check
  unfolding validate_content_fragment
  validate_content_fragments [] = none
  validate_content_fragments (f ∷ fs) =
      require (is_natural f.position) invalid_position
      then_check validate_content_fragment f
      then_check validate_content_fragments fs

  unfoldable pub validate_tool_fragments : List ToolCallFragment → Check
  validate_tool_fragments [] = none
  validate_tool_fragments (f ∷ fs) =
      require (is_position f.position) invalid_position
      then_check check_extra f.extra
      then_check validate_tool_fragments fs

  unfoldable pub validate_stream_delta : StreamDelta → Check
  unfolding validate_content_fragments validate_tool_fragments
  validate_stream_delta d =
      validate_content_fragments d.content_fragments
      then_check validate_tool_fragments d.tool_fragments
      then_check check_extra d.message_extra
