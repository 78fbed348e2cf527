-- ===== src/Model/Validate.antt =====
-- The validators of model/message.go, model/tool.go and model/output.go. The ownership copies of the
-- constructors have no counterpart: values are not shared.
use lightcode.Prelude.{
  Bool, true, false, not, ◌&&◌, ◌||◌, Option, none, some, List, [], ◌∷◌, Text, same, codes,
  is_empty, trim_space, has_prefix, if◌then◌else◌,
}
use lightcode.Model.{
  Json, Extra, ModelRef, complete, is_zero, ref_eqb, Role, PartKind, text_part, image_url, opaque,
  other_kind, ContentPart, ToolCall, Message, ToolDefinition, Request, OutputStatus, completed,
  errored, interrupted, other_output, Output, ResultStatus, result_success, other_result,
  ToolResult, Error, invalid_role, missing_source, unexpected_source, forbidden_field,
  missing_field, invalid_status, source_mismatch, invalid_parameters, duplicate_tool_name,
  invalid_json, no_payload, partial_with_calls,
}
use lightcode.Model.Extra.{has_values, validate_extra_values}

-- The first violation, if there is one
abbrev pub Check : Type 0
Check = Option Error

infixr 15 ◌then_check◌
-- The next check runs when there is no violation before it.
abbrev pub ◌then_check◌ : Check → Check → Check
none then_check next = next
some e then_check next = some e

abbrev pub require : Bool → Error → Check
require b e = if b then none else some e

abbrev pub no_calls : List ToolCall → Bool
no_calls [] = true
no_calls (_ ∷ _) = false

unfoldable pub is_assistant : Role → Bool
is_assistant Role.assistant = true
is_assistant _ = false

unfoldable pub valid_role : Role → Bool
valid_role (Role.other_role _) = false
valid_role _ = true

unfoldable pub is_tool : Role → Bool
is_tool Role.tool = true
is_tool _ = false

unfoldable pub part_has_payload : ContentPart → Bool
part_has_payload p =
    not (is_empty p.text)
    || not (is_empty p.url)
    || not (is_empty p.opaque_wire_type)
    || has_values p.extra

unfoldable pub any_payload : List ContentPart → Bool
any_payload [] = false
any_payload (p ∷ ps) = part_has_payload p || any_payload ps

unfoldable pub message_has_content : Message → Bool
message_has_content m = not (is_empty m.refusal) || any_payload m.content || has_values m.extra

unfoldable pub has_assistant_content : Option Message → Bool
unfolding message_has_content
has_assistant_content none = false
has_assistant_content (some m) = message_has_content m

unfoldable pub has_assistant_payload : Option Message → Bool
unfolding has_assistant_content
has_assistant_payload none = false
has_assistant_payload (some m) = has_assistant_content (some m) || not (no_calls m.tool_calls)

unfoldable pub check_source : Role → ModelRef → Check
check_source role source =
    if is_assistant role
    then require (complete source) missing_source
    else require (is_zero source) unexpected_source

unfoldable pub check_answer : Role → Text → Check
check_answer role call_id =
    if is_tool role
    then require (not (is_empty call_id)) missing_field
    else require (is_empty call_id) forbidden_field

unfoldable pub is_named : Text → List Text → Bool
is_named name [] = false
is_named name (n ∷ ns) = same n name || is_named name ns

unfoldable pub valid_output_status : OutputStatus → Bool
valid_output_status (other_output _) = false
valid_output_status _ = true

module _ ⦃json : Json⦄ where
  abbrev pub check_extra : Extra → Check
  check_extra e = require (validate_extra_values e) invalid_json

  unfoldable pub kind_fields : ContentPart → PartKind → Check
  kind_fields p text_part = require (is_empty p.url && is_empty p.opaque_wire_type) forbidden_field
  kind_fields p image_url = require (is_empty p.text && is_empty p.opaque_wire_type) forbidden_field
  kind_fields p opaque =
      require (is_empty p.text && is_empty p.url) forbidden_field
      then_check require (not (is_empty p.opaque_wire_type)) missing_field
  kind_fields p (other_kind _) = some forbidden_field

  unfoldable pub validate_content_part : ContentPart → Check
  unfolding kind_fields
  validate_content_part p = kind_fields p p.kind then_check check_extra p.extra

  unfoldable pub validate_tool_call : ToolCall → Check
  validate_tool_call c =
      require (not (is_empty c.id) && not (is_empty c.name)) missing_field
      then_check check_extra c.extra

  unfoldable pub validate_parts : List ContentPart → Check
  validate_parts [] = none
  validate_parts (p ∷ ps) = validate_content_part p then_check validate_parts ps

  unfoldable pub validate_calls : List ToolCall → Check
  validate_calls [] = none
  validate_calls (c ∷ cs) = validate_tool_call c then_check validate_calls cs

  unfoldable pub validate_message : Message → Check
  unfolding check_source check_answer validate_parts validate_calls
  validate_message m =
      require (valid_role m.role) invalid_role
      then_check check_source m.role m.source
      then_check require (is_empty m.refusal && no_calls m.tool_calls || is_assistant m.role)
          forbidden_field
      then_check check_answer m.role m.tool_call_id
      then_check validate_parts m.content
      then_check validate_calls m.tool_calls
      then_check check_extra m.extra

  unfoldable pub validate_output_message : Message → ModelRef → Check
  unfolding validate_message
  validate_output_message m source =
      validate_message m
      then_check require (is_assistant m.role) invalid_role
      then_check require (complete m.source && ref_eqb m.source source) source_mismatch

  unfoldable pub completed_message : Option Message → ModelRef → Check
  unfolding validate_output_message
  completed_message none source = some missing_field
  completed_message (some m) source =
      validate_output_message m source
      then_check require (has_assistant_payload (some m)) no_payload

  unfoldable pub partial_message : Option Message → ModelRef → Check
  unfolding validate_output_message
  partial_message none source = none
  partial_message (some m) source =
      validate_output_message m source then_check require (no_calls m.tool_calls) partial_with_calls

  unfoldable pub status_rules : Output → OutputStatus → Check
  unfolding completed_message partial_message
  status_rules o completed =
      completed_message o.message o.source then_check require (is_empty o.detail) forbidden_field
  status_rules o errored =
      partial_message o.message o.source then_check require (not (is_empty o.detail)) missing_field
  status_rules o interrupted =
      partial_message o.message o.source then_check require (not (is_empty o.detail)) missing_field
  status_rules o (other_output _) = some invalid_status

  unfoldable pub validate_output : Output → Check
  unfolding status_rules valid_output_status
  validate_output o =
      require (valid_output_status o.status) invalid_status
      then_check require (complete o.source) missing_source
      then_check status_rules o o.status

  unfoldable pub validate_messages : List Message → Check
  unfolding validate_message
  validate_messages [] = none
  validate_messages (m ∷ ms) = validate_message m then_check validate_messages ms

  unfoldable pub validate_tool_definition : ToolDefinition → Check
  validate_tool_definition d =
      require (not (is_empty d.name)) missing_field
      then_check require (has_prefix (trim_space d.parameters) (codes "{")) invalid_parameters
      then_check require (json.valid d.parameters) invalid_parameters

  unfoldable pub validate_definitions : List Text → List ToolDefinition → Check
  unfolding validate_tool_definition is_named
  validate_definitions seen [] = none
  validate_definitions seen (d ∷ ds) =
      validate_tool_definition d
      then_check require (not (is_named d.name seen)) duplicate_tool_name
      then_check validate_definitions (d.name ∷ seen) ds

  unfoldable pub validate_request : Request → Check
  unfolding validate_messages validate_definitions
  validate_request r = validate_messages r.messages then_check validate_definitions [] r.tools

unfoldable pub valid_result_status : ResultStatus → Bool
valid_result_status (other_result _) = false
valid_result_status _ = true

unfoldable pub is_success : ResultStatus → Bool
is_success result_success = true
is_success _ = false

unfoldable pub validate_tool_result : ToolResult → Check
unfolding valid_result_status is_success
validate_tool_result r =
    require (not (is_empty r.call_id)) missing_field
    then_check require (valid_result_status r.status) invalid_status
    then_check require (not (is_empty r.content) || is_success r.status) missing_field
