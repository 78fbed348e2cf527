-- ===== src/Agent/Run.antt =====
-- agent/run.go: the loop over request, model and tool effects. The caller's functions act on a world
-- `W`; a model effect is a tree of its calls of the assembly callback.
use lightcode.Prelude.{
  ℕ, zero, suc, Bool, true, false, not, Option, none, some, List, [], ◌∷◌, Text, codes,
  if◌then◌else◌, ◌==◌, map,
}
use lightcode.Model.{
  Json, ModelRef, complete, ref_eqb, ToolCall, Request, ToolDefinition, Output, ResultStatus,
  result_interrupted, ToolResult,
}
use lightcode.Model.Validate.{validate_request}
use lightcode.Agent.{
  Stream, Reply, answered, refused, RunError, at_agent, at_model, RequestResult, ModelDisposition,
  ready, continue, failure, interruption, other_disposition, ModelSettlement, terminal_success,
  terminal_failure, terminal_interruption, TerminalResult,
}
use lightcode.Agent.Finalize.{Finished, finished, panicked}
use lightcode.Agent.Assemble.{assemble}
use lightcode.Agent.Settle.{
  Violation, ◌then_rule◌, rule, violates, is_completed, calls_of, validate_settlement,
  validate_terminal_result, validate_settled_result,
}

pub data Effect (W : Type 0) : Type 0 where
  settles : Reply ModelSettlement → W → Effect W
  assembles : ModelRef → Option Stream → (Reply Output → Effect W) → Effect W

-- What an effect replies, and the world behind it
pub record Answer (W A : Type 0) : Type 0 where
  pub reply : Reply A
  pub world : W

-- The context and the functions of an Invocation
pub record World (W : Type 0) : Type 0 where
  pub done : W → Bool
  pub request : W → Answer W RequestResult
  pub model_effect : W → Request → Effect W
  pub tool_effect : W → ToolCall → List Text → Answer W ToolResult

abbrev pub detail_interrupted : Text
detail_interrupted = codes "agent interrupted"

pub record Callback : Type 0 where
  pub calls : ℕ
  pub failure : Option RunError

abbrev pub new_callback : Callback
new_callback = record { calls = 0; failure = none }

abbrev pub first_failure : Option RunError → RunError → RunError
first_failure none e = e
first_failure (some f) e = f

unfoldable pub remember : RunError → Callback → Callback
remember e cb = record cb { failure = some (first_failure cb.failure e) }

pub record Called : Type 0 where
  pub reply : Reply Finished
  pub callback : Callback

abbrev pub refuse_call : RunError → Callback → Called
refuse_call e cb = record { reply = refused e; callback = remember e cb }

unfoldable pub assembled : Reply Finished → Callback → Called
unfolding remember
assembled (answered f) cb = record { reply = answered f; callback = cb }
assembled (refused e) cb = refuse_call e cb

-- The returned result and the world, or a panic
pub data End : Type 0 where
  returned : TerminalResult → End
  failed : RunError → End
  run_panicked out_of_fuel : End

pub record Ended (W : Type 0) : Type 0 where
  pub end : End
  pub world : W

pub data Next (W : Type 0) : Type 0 where
  goes_on : Option Output → W → Next W
  ends : End → W → Next W

pub data Settled (W : Type 0) : Type 0 where
  settled : Reply ModelSettlement → Callback → W → Settled W
  effect_panicked : W → Settled W

unfoldable pub is_result_interrupted : ResultStatus → Bool
is_result_interrupted result_interrupted = true
is_result_interrupted _ = false

-- The output's presence must match the callback count.
abbrev pub output_count : Option Output → ℕ
output_count none = 0
output_count (some _) = 1

unfoldable pub settlement_failure : Callback → Option Output → Violation
settlement_failure cb out = cb.failure then_rule rule (cb.calls == output_count out) at_model

unfoldable pub retained : Option Output → Option Output
unfolding is_completed
retained none = none
retained (some o) = if is_completed o.status then some o else none

unfoldable pub unstarted_of : Option Output → List ToolCall
unfolding is_completed calls_of
unstarted_of none = []
unstarted_of (some o) = if is_completed o.status then calls_of o else []

-- A refusal or a violation ends the run with its error.
abbrev pub on_reply : {W A : Type 0} → Reply A → W → (A → Next W) → Next W
on_reply (refused e) w k = ends (failed e) w
on_reply (answered a) w k = k a

abbrev pub unless_violated : {W : Type 0} → Violation → W → Next W → Next W
unless_violated none w next = next
unless_violated (some e) w next = ends (failed e) w

-- What the callback returns goes to the effect; a panic in it does not return.
abbrev pub resume : {W : Type 0} → Reply Finished → W → (Reply Output → Settled W) → Settled W
resume (answered (finished out)) w k = k (answered out)
resume (answered panicked) w k = effect_panicked w
resume (refused e) w k = k (refused e)

-- The loop goes on behind a round that does not end it.
abbrev pub continue_with : {W : Type 0} → Next W → (Option Output → W → Ended W) → Ended W
continue_with (goes_on last w) k = k last w
continue_with (ends e w) k = record { end = e; world = w }

abbrev pub interrupted_with : Text → Option Output → List ToolCall → TerminalResult
interrupted_with detail out unstarted = record {
  status = terminal_interruption;
  last_output = out;
  unstarted_calls = unstarted;
  detail = detail;
}

abbrev pub failed_with : Text → Option Output → TerminalResult
failed_with detail out = record {
  status = terminal_failure;
  last_output = out;
  unstarted_calls = [];
  detail = detail;
}

abbrev pub succeeded_with : Output → TerminalResult
succeeded_with out = record {
  status = terminal_success;
  last_output = some out;
  unstarted_calls = [];
  detail = [];
}

module _ ⦃json : Json⦄ where
  unfoldable pub call_callback : ModelRef → Callback → ModelRef → Option Stream → Called
  unfolding assembled remember assemble ref_eqb
  call_callback expected cb source stream =
      let counted = record cb { calls = suc cb.calls } in
      if not (cb.calls == 0)
      then refuse_call at_model counted
      else if not (ref_eqb source expected)
      then refuse_call at_model counted
      else assembled (assemble source stream) counted

  abbrev pub accept_terminal : TerminalResult → Violation → End
  accept_terminal res none = returned res
  accept_terminal res (some _) = run_panicked

  unfoldable pub finish_terminal : TerminalResult → End
  unfolding validate_terminal_result
  finish_terminal res = accept_terminal res (validate_terminal_result res)

  unfoldable pub interruption_terminal : Text → Option Output → List ToolCall → End
  unfolding finish_terminal
  interruption_terminal detail out unstarted =
      finish_terminal (interrupted_with detail out unstarted)

  -- Every checkpoint hands over no calls.
  unfoldable pub retained_interruption : Option Output → End
  unfolding retained interruption_terminal
  retained_interruption out = interruption_terminal detail_interrupted (retained out) []

  module _ {W : Type 0} (env : World W) (expected : ModelRef) where
    unfoldable pub run_effect : Callback → Effect W → W → Settled W
    unfolding call_callback
    run_effect cb (settles reply w) _ = settled reply cb w
    run_effect cb (assembles source stream next) w0 =
        let called = call_callback expected cb source stream in
        resume called.reply w0 (λ r. run_effect called.callback (next r) w0)

    -- The calls of one settled output, in order
    unfoldable pub dispatch : Output → List Text → List ToolCall → W → Next W
    unfolding interruption_terminal validate_settled_result is_result_interrupted
    dispatch out names [] w = goes_on (some out) w
    dispatch out names (c ∷ cs) w =
        let a = env.tool_effect w c names in
        let rest = dispatch out names cs a.world in
        if env.done w
        then ends (interruption_terminal detail_interrupted (some out) (c ∷ cs)) w
        else on_reply a.reply a.world λ res.
          unless_violated (validate_settled_result res c.id) a.world (
            if is_result_interrupted res.status
            then ends (interruption_terminal detail_interrupted (some out) cs) a.world
            else rest)

    unfoldable pub finish_ready : Output → List Text → List ToolCall → W → Next W
    unfolding dispatch finish_terminal interruption_terminal
    finish_ready out names [] w =
        if env.done w
        then ends (interruption_terminal detail_interrupted (some out) []) w
        else ends (finish_terminal (succeeded_with out)) w
    finish_ready out names (c ∷ cs) w = dispatch out names (c ∷ cs) w

    -- A ready settlement has an output.
    unfoldable pub ready_with : List Text → Option Output → W → Next W
    unfolding finish_ready calls_of
    ready_with names none w = ends run_panicked w
    ready_with names (some o) w = finish_ready o names (calls_of o) w

    unfoldable pub dispose : List Text → ModelSettlement → ModelDisposition → W → Next W
    unfolding finish_terminal interruption_terminal unstarted_of ready_with
    dispose names set failure w = ends (finish_terminal (failed_with set.detail set.output)) w
    dispose names set interruption w =
        ends (interruption_terminal set.detail set.output (unstarted_of set.output)) w
    dispose names set continue w = goes_on set.output w
    dispose names set ready w = ready_with names set.output w
    dispose names set (other_disposition _) w = ends run_panicked w

    unfoldable pub take_settlement : List Text → Settled W → Next W
    unfolding settlement_failure validate_settlement dispose
    take_settlement names (effect_panicked w) = ends run_panicked w
    take_settlement names (settled reply cb w) = on_reply reply w λ set.
        unless_violated (settlement_failure cb set.output) w (
          unless_violated (validate_settlement set expected) w
            (dispose names set set.disposition w))

    unfoldable pub model_round : Option Output → Request → W → Next W
    unfolding validate_request retained_interruption run_effect take_settlement
    model_round last req w = unless_violated (violates (validate_request req) at_agent) w (
        if env.done w
        then ends (retained_interruption last) w
        else take_settlement (map (λ (d : ToolDefinition). d.name) req.tools)
            (run_effect new_callback (env.model_effect w req) w))

    unfoldable pub request_or_not : Option Output → Bool → Option Request → W → Next W
    unfolding retained_interruption model_round
    request_or_not last true none w = ends (retained_interruption last) w
    request_or_not last false (some req) w = model_round last req w
    request_or_not last _ _ w = ends (failed at_agent) w

    unfoldable pub round : Option Output → W → Next W
    unfolding retained_interruption request_or_not
    round last w =
        let a = env.request w in
        if env.done w
        then ends (retained_interruption last) w
        else on_reply a.reply a.world (λ r. request_or_not last r.interrupted r.request a.world)

    -- `fuel` bounds the rounds.
    unfoldable pub rounds : ℕ → Option Output → W → Ended W
    unfolding round
    rounds zero last w = record { end = out_of_fuel; world = w }
    rounds (suc fuel) last w = continue_with (round last w) (λ last' w'. rounds fuel last' w')

    -- Run; its functions are not nil.
    unfoldable pub run : ℕ → W → Ended W
    unfolding rounds complete
    run fuel w =
        if complete expected
        then rounds fuel none w
        else record { end = failed at_agent; world = w }
