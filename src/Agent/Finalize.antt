-- ===== src/Agent/Finalize.antt =====
-- agent/finalize.go and agent/message_build.go: how a response ends, and the output that is built.
use lightcode.Prelude.{
  ℕ, Bool, true, false, not, ◌&&◌, ◌||◌, Option, none, some, List, [], ◌∷◌, Text, same, codes,
  is_empty, if◌then◌else◌, ltb,
}
use lightcode.Model.{
  Json, Role, ToolCall, Message, OutputStatus, completed, errored, interrupted, Output, Error,
}
use lightcode.Model.Extra.{finalize}
use lightcode.Model.Validate.{validate_output, message_has_content}
use lightcode.Agent.State.{
  CallAcc, PartAcc, AssemblyState, note_conflict, has_payload, is_complete, no_slots,
  any_incomplete, complete_call_count,
}
use lightcode.Agent.Content.{build_parts, sort_positions, is_incomplete_opaque}

abbrev pub finish_stop : Text
finish_stop = codes "stop"

abbrev pub finish_tool_calls : Text
finish_tool_calls = codes "tool_calls"

unfoldable pub check_establishment : AssemblyState → AssemblyState
unfolding no_slots has_payload any_incomplete
check_establishment st =
    if st.established
    then st
    else if same st.finish_reason finish_stop
    then record st { established = no_slots st.tool_deltas && has_payload st }
    else if same st.finish_reason finish_tool_calls
    then record st {
      established = not (no_slots st.tool_deltas) && not (any_incomplete st.tool_deltas);
    }
    else st

unfoldable pub any_incomplete_opaque : List (ℕ × PartAcc) → Bool
unfolding is_incomplete_opaque
any_incomplete_opaque [] = false
any_incomplete_opaque ((_, acc) ∷ parts) = is_incomplete_opaque acc || any_incomplete_opaque parts

unfoldable pub pin_incomplete_opaque : AssemblyState → AssemblyState
unfolding any_incomplete_opaque note_conflict
pin_incomplete_opaque st =
    if any_incomplete_opaque st.content
    then note_conflict (codes "content is an incomplete opaque part: no wire type arrived") st
    else st

unfoldable pub pin_incomplete_tool_call : AssemblyState → AssemblyState
unfolding any_incomplete note_conflict
pin_incomplete_tool_call st =
    if any_incomplete st.tool_deltas
    then note_conflict (codes "tool call is incomplete: missing id or name") st
    else st

unfoldable pub pin_role : AssemblyState → AssemblyState
unfolding note_conflict
pin_role st =
    if not (is_empty st.role) && not (same st.role (codes "assistant"))
    then note_conflict (codes "response role is not assistant") st
    else st

-- The matrix of finish reasons and payloads: the detail of its refusal, and nothing when it accepts.
unfoldable pub finish_state_verdict : AssemblyState → Text
unfolding has_payload complete_call_count
finish_state_verdict st =
    let calls = ltb 0 (complete_call_count st.tool_deltas) in
    if is_empty st.finish_reason
    then if calls || has_payload st
      then []
      else codes "empty response: no eligible content, refusal or tool calls"
    else if same st.finish_reason finish_stop
    then if not calls && has_payload st
      then []
      else if calls
      then codes "finish reason stop with present tool calls is a payload mismatch"
      else codes
          "finish reason stop requires payload through content, refusal or finalized message extras"
    else if same st.finish_reason finish_tool_calls
    then if calls
      then []
      else codes "finish reason tool_calls requires one or more valid tool calls"
    else codes "unsupported finish reason"

unfoldable pub emit_calls : List (ℕ × CallAcc) → List ToolCall
unfolding is_complete finalize
emit_calls [] = []
emit_calls ((_, c) ∷ cs) =
    let rest = emit_calls cs in
    if is_complete c
    then record { id = c.id; name = c.name; arguments = c.args; extra = finalize c.extra.values }
      ∷ rest
    else rest

unfoldable pub build_calls : AssemblyState → List ToolCall
unfolding emit_calls sort_positions
build_calls st = emit_calls (sort_positions st.tool_deltas)

unfoldable pub assemble_message : Bool → AssemblyState → Message
unfolding build_parts build_calls finalize
assemble_message include_calls st = record {
  role = Role.assistant;
  content = build_parts st;
  refusal = st.refusal;
  tool_calls = if include_calls then build_calls st else [];
  tool_call_id = [];
  name = [];
  extra = finalize st.msg_extra.values;
  source = st.source;
}

-- An output, or the panic of an output that its own constructor refuses
pub data Finished : Type 0 where
  finished : Output → Finished
  panicked : Finished

abbrev pub completed_value : AssemblyState → Output
completed_value st = record {
  status = completed;
  source = st.source;
  message = some (assemble_message true st);
  usage = st.usage;
  detail = [];
}

abbrev pub content_or_none : Message → Option Message
content_or_none msg = if message_has_content msg then some msg else none

abbrev pub non_completed_value : OutputStatus → Text → AssemblyState → Output
non_completed_value status detail st = record {
  status = status;
  source = st.source;
  message = content_or_none (assemble_message false st);
  usage = st.usage;
  detail = detail;
}

abbrev pub accepted : Output → Option Error → Finished
accepted o none = finished o
accepted o (some _) = panicked

module _ ⦃json : Json⦄ where
  unfoldable pub constructed : Output → Finished
  unfolding validate_output
  constructed o = accepted o (validate_output o)

  unfoldable pub completed_output : AssemblyState → Finished
  unfolding constructed assemble_message
  completed_output st = constructed (completed_value st)

  unfoldable pub non_completed_output : OutputStatus → Text → AssemblyState → Finished
  unfolding constructed assemble_message message_has_content
  non_completed_output status detail st = constructed (non_completed_value status detail st)

  abbrev pub if_verdict : Text → AssemblyState → Finished
  if_verdict detail st =
      if is_empty detail then completed_output st else non_completed_output errored detail st

  -- `broken` is a read error, and `done` a done context at that instant.
  unfoldable pub conclude : Bool → AssemblyState → Finished
  unfolding completed_output non_completed_output finish_state_verdict
  conclude broken st =
      if not (is_empty st.conflict_detail)
      then non_completed_output errored st.conflict_detail st
      else if broken && not st.established
      then non_completed_output errored (codes "stream read failed") st
      else if_verdict (finish_state_verdict st) st

  unfoldable pub finalize_state : Bool → Bool → AssemblyState → Finished
  unfolding conclude pin_role pin_incomplete_opaque pin_incomplete_tool_call non_completed_output
  finalize_state broken done st =
      let pinned = pin_incomplete_opaque (pin_role st) in
      if is_empty pinned.conflict_detail && broken && not pinned.established && done
      then non_completed_output interrupted (codes "stream interrupted") pinned
      else conclude broken (pin_incomplete_tool_call pinned)
