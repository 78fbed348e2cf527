-- ===== src/Agent/Settle.antt =====
-- agent/settlement.go: what a model effect, a tool effect and the run itself may return.
use lightcode.Prelude.{
  ℕ, zero, suc, Bool, true, false, not, ◌&&◌, ◌||◌, Option, none, some, List, [], ◌∷◌, Text, same,
  is_empty, if◌then◌else◌, ltb,
}
use lightcode.Model.{
  Json, ModelRef, complete, ref_eqb, ToolCall, Message, OutputStatus, completed, errored,
  interrupted, Output, ToolResult,
}
use lightcode.Model.Validate.{
  Check, no_calls, has_assistant_content, validate_output, validate_tool_call, validate_tool_result,
  is_named,
}
use lightcode.Agent.{
  ModelDisposition, ready, continue, failure, interruption, other_disposition, ModelSettlement,
  TerminalStatus, terminal_success, terminal_failure, terminal_interruption, other_terminal,
  TerminalResult, RunError, at_agent, at_model, at_tool,
}

-- The first violation of a boundary, if there is one
abbrev pub Violation : Type 0
Violation = Option RunError

infixr 15 ◌then_rule◌
abbrev pub ◌then_rule◌ : Violation → Violation → Violation
none then_rule next = next
some e then_rule next = some e

abbrev pub rule : Bool → RunError → Violation
rule b e = if b then none else some e

-- A value's own violation, at a boundary
abbrev pub violates : Check → RunError → Violation
violates none e = none
violates (some _) e = some e

unfoldable pub is_completed : OutputStatus → Bool
is_completed completed = true
is_completed _ = false

unfoldable pub is_errored : OutputStatus → Bool
is_errored errored = true
is_errored _ = false

unfoldable pub is_interrupted : OutputStatus → Bool
is_interrupted interrupted = true
is_interrupted _ = false

unfoldable pub calls_in : Option Message → List ToolCall
calls_in none = []
calls_in (some m) = m.tool_calls

unfoldable pub calls_of : Output → List ToolCall
unfolding calls_in
calls_of o = calls_in o.message

unfoldable pub unique_from : List Text → List ToolCall → Bool
unfolding is_named
unique_from seen [] = true
unique_from seen (c ∷ cs) = not (is_named c.id seen) && unique_from (c.id ∷ seen) cs

unfoldable pub require_unique_call_ids : RunError → List ToolCall → Violation
unfolding unique_from
require_unique_call_ids boundary calls = rule (unique_from [] calls) boundary

-- The row of a disposition; the details of the two empty rows are checked in it too.
unfoldable pub continue_row : Output → OutputStatus → Violation
unfolding has_assistant_content calls_of
continue_row o errored = rule (has_assistant_content o.message) at_model
continue_row o completed = rule (no_calls (calls_of o)) at_model
continue_row o _ = some at_model

unfoldable pub disposition_row : ModelSettlement → ModelDisposition → Option Output → Violation
unfolding is_completed is_errored is_interrupted continue_row
disposition_row set ready none = some at_model
disposition_row set ready (some o) =
    rule (is_completed o.status) at_model then_rule rule (is_empty set.detail) at_model
disposition_row set continue none = some at_model
disposition_row set continue (some o) =
    continue_row o o.status then_rule rule (is_empty set.detail) at_model
disposition_row set failure none = rule (not (is_empty set.detail)) at_model
disposition_row set failure (some o) =
    rule (not (is_empty set.detail)) at_model then_rule rule (is_errored o.status) at_model
disposition_row set interruption none = rule (not (is_empty set.detail)) at_model
disposition_row set interruption (some o) =
    rule (not (is_empty set.detail)) at_model
    then_rule rule (is_interrupted o.status || is_completed o.status) at_model
disposition_row set (other_disposition _) o = some at_model

-- The first call with an id
unfoldable pub index_of : Text → List ToolCall → Option ℕ
index_of id [] = none
index_of id (c ∷ cs) =
    let rest = index_of id cs in
    if same c.id id then some zero else elim rest [ some i ↦ some (suc i) | none ↦ none ]

-- Found at `low` or behind it
abbrev pub found_from : ℕ → Option ℕ → Bool
found_from low none = false
found_from low (some i) = not (ltb i low)

abbrev pub next_low : ℕ → Option ℕ → ℕ
next_low low none = low
next_low low (some i) = suc i

module _ ⦃json : Json⦄ where
  unfoldable pub settled_output : ModelRef → Option Output → Violation
  unfolding validate_output require_unique_call_ids calls_of ref_eqb
  settled_output expected none = none
  settled_output expected (some o) =
      rule (ref_eqb o.source expected) at_model
      then_rule violates (validate_output o) at_model
      then_rule require_unique_call_ids at_model (calls_of o)

  -- validateSettlement; the owned copy of the exported form is the same value.
  unfoldable pub validate_settlement : ModelSettlement → ModelRef → Violation
  unfolding disposition_row settled_output
  validate_settlement set expected =
      disposition_row set set.disposition set.output then_rule settled_output expected set.output

  unfoldable pub validate_model_settlement : ModelRef → ModelSettlement → Violation
  unfolding validate_settlement complete
  validate_model_settlement expected set =
      rule (complete expected) at_model then_rule validate_settlement set expected

  -- `low` is one more than the index of the call before.
  unfoldable pub correlate_unstarted : ℕ → List ToolCall → List ToolCall → Violation
  unfolding validate_tool_call index_of
  correlate_unstarted low [] produced = none
  correlate_unstarted low (c ∷ cs) produced =
      let idx = index_of c.id produced in
      violates (validate_tool_call c) at_agent
      then_rule rule (found_from low idx) at_agent
      then_rule correlate_unstarted (next_low low idx) cs produced

  unfoldable pub correlate_with : List ToolCall → Option Output → Violation
  unfolding correlate_unstarted is_completed calls_of
  correlate_with calls none = some at_agent
  correlate_with calls (some o) =
      rule (is_completed o.status) at_agent then_rule correlate_unstarted 0 calls (calls_of o)

  unfoldable pub validate_unstarted_calls : List ToolCall → Option Output → Violation
  unfolding correlate_with
  validate_unstarted_calls [] out = none
  validate_unstarted_calls (c ∷ cs) out = correlate_with (c ∷ cs) out

  unfoldable pub terminal_output : Option Output → Violation
  unfolding validate_output require_unique_call_ids calls_of
  terminal_output none = none
  terminal_output (some o) =
      violates (validate_output o) at_agent then_rule require_unique_call_ids at_agent (calls_of o)

  unfoldable pub success_output : Option Output → Violation
  unfolding is_completed calls_of
  success_output none = some at_agent
  success_output (some o) =
      rule (is_completed o.status) at_agent then_rule rule (no_calls (calls_of o)) at_agent

  abbrev pub one_status : (OutputStatus → Bool) → Option Output → Violation
  one_status ok none = none
  one_status ok (some o) = rule (ok o.status) at_agent

  unfoldable pub terminal_row : TerminalResult → TerminalStatus → Violation
  unfolding success_output is_completed is_errored is_interrupted validate_unstarted_calls
  terminal_row res terminal_success =
      rule (is_empty res.detail) at_agent
      then_rule rule (no_calls res.unstarted_calls) at_agent
      then_rule success_output res.last_output
  terminal_row res terminal_failure =
      rule (not (is_empty res.detail)) at_agent
      then_rule rule (no_calls res.unstarted_calls) at_agent
      then_rule one_status (λ s. is_completed s || is_errored s) res.last_output
  terminal_row res terminal_interruption =
      rule (not (is_empty res.detail)) at_agent
      then_rule one_status (λ s. is_completed s || is_interrupted s) res.last_output
      then_rule validate_unstarted_calls res.unstarted_calls res.last_output
  terminal_row res (other_terminal _) = some at_agent

  unfoldable pub validate_terminal_result : TerminalResult → Violation
  unfolding terminal_output terminal_row
  validate_terminal_result res =
      terminal_output res.last_output then_rule terminal_row res res.status

unfoldable pub validate_settled_result : ToolResult → Text → Violation
unfolding validate_tool_result
validate_settled_result res call_id =
    violates (validate_tool_result res) at_tool then_rule rule (same res.call_id call_id) at_tool
