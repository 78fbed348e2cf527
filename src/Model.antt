-- ===== src/Model.antt =====
-- model/: the provider-neutral values of a conversation. A closed string kind is a data type with
-- one more constructor for any other string, and an error is its sentinel.
pub mod Extra
pub mod Validate
pub mod Stream
pub mod Ref
mod Examples
use lightcode.Prelude.{◌≡◌, Bool, true, false, not, ◌&&◌, Option, some, List, Text, same, is_empty}
use lightcode.Prelude.Int.{ℤ}

-- What the code uses of encoding/json: the check of a raw value, and strings and arrays read and
-- written again. What is written is valid.
pub record Json : Type 0 where
  pub valid : Text → Bool
  pub unmarshal_string : Text → Option Text
  pub marshal_string : Text → Text
  pub unmarshal_array : Text → Option (List Text)
  pub marshal_array : List Text → Option Text
  pub valid-marshal_string : (s : Text) → valid (marshal_string s) ≡ true
  pub valid-marshal_array :
      (ts : List Text) (raw : Text) → marshal_array ts ≡ some raw → valid raw ≡ true

-- A map from field names to raw JSON values
abbrev pub Extra : Type 0
Extra = List (Text × Text)

pub record ModelRef : Type 0 where
  pub provider : Text
  pub model : Text

unfoldable pub complete : ModelRef → Bool
complete r = not (is_empty r.provider) && not (is_empty r.model)

unfoldable pub is_zero : ModelRef → Bool
is_zero r = is_empty r.provider && is_empty r.model

-- Both fields are compared.
unfoldable pub ref_eqb : ModelRef → ModelRef → Bool
ref_eqb a b = same a.provider b.provider && same a.model b.model

pub data Role : Type 0 where
  system user assistant tool : Role
  other_role : Text → Role

pub data PartKind : Type 0 where
  text_part image_url opaque : PartKind
  other_kind : Text → PartKind

unfoldable pub kind_eqb : PartKind → PartKind → Bool
kind_eqb text_part text_part = true
kind_eqb image_url image_url = true
kind_eqb opaque opaque = true
kind_eqb (other_kind s) (other_kind t) = same s t
kind_eqb _ _ = false

pub record ContentPart : Type 0 where
  pub kind : PartKind
  pub text : Text
  pub url : Text
  pub opaque_wire_type : Text
  pub extra : Extra

pub record ToolCall : Type 0 where
  pub id : Text
  pub name : Text
  pub arguments : Text
  pub extra : Extra

pub record Message : Type 0 where
  pub role : Role
  pub content : List ContentPart
  pub refusal : Text
  pub tool_calls : List ToolCall
  pub tool_call_id : Text
  pub name : Text
  pub extra : Extra
  pub source : ModelRef

pub record ToolDefinition : Type 0 where
  pub name : Text
  pub description : Text
  pub parameters : Text

pub record Request : Type 0 where
  pub messages : List Message
  pub tools : List ToolDefinition

pub record TokenCounts : Type 0 where
  pub input_tokens : ℤ
  pub cached_input_tokens : ℤ
  pub output_tokens : ℤ

pub data OutputStatus : Type 0 where
  completed errored interrupted : OutputStatus
  other_output : Text → OutputStatus

pub record Output : Type 0 where
  pub status : OutputStatus
  pub source : ModelRef
  pub message : Option Message
  pub usage : Option TokenCounts
  pub detail : Text

pub data ResultStatus : Type 0 where
  result_success result_error result_denied result_interrupted : ResultStatus
  other_result : Text → ResultStatus

pub record ToolResult : Type 0 where
  pub call_id : Text
  pub status : ResultStatus
  pub content : Text

-- The sentinels, and one class for each error without one
pub data Error : Type 0 where
  invalid_model_ref invalid_role missing_source unexpected_source forbidden_field : Error
  missing_field invalid_status source_mismatch invalid_parameters duplicate_tool_name : Error
  invalid_position invalid_json no_payload partial_with_calls : Error
