-- ===== src/Agent/Adapter.antt =====
-- agent/adapter.go: the ordinary tool and model effects. The transport is given.
use lightcode.Prelude.{
  Bool, true, false, ◌&&◌, Option, none, some, List, [], Text, codes, if◌then◌else◌,
}
use lightcode.Prelude.Assoc.{lookup, text_key}
use lightcode.Model.{
  ModelRef, complete, ToolCall, Request, OutputStatus, completed, errored, Output, result_error,
  ToolResult,
}
use lightcode.Model.Validate.{is_named}
use lightcode.Agent.{
  Stream, Reply, answered, refused, at_model, ready, failure, interruption, ModelSettlement,
}
use lightcode.Agent.Run.{Effect, settles, assembles, Answer, detail_interrupted}

abbrev pub ToolFunc : Type 0 → Type 0
ToolFunc W = W → ToolCall → Answer W ToolResult

unfoldable pub unavailable : ToolCall → ToolResult
unavailable call = record {
  call_id = call.id;
  status = result_error;
  content = codes "Tool is not available.";
}

unfoldable pub call_registered : {W : Type 0} → Bool → Option (Option (ToolFunc W)) → ToolFunc W
unfolding unavailable
call_registered true (some (some fn)) w call = fn w call
call_registered _ _ w call = record { reply = answered (unavailable call); world = w }

-- A name may be registered without a function.
unfoldable pub adapt_tools :
    {W : Type 0}
    → List (Text × Option (ToolFunc W))
    → W
    → ToolCall
    → List Text
    → Answer W ToolResult
unfolding call_registered lookup is_named
adapt_tools registered w call names =
    call_registered (is_named call.name names) (lookup call.name registered) w call

-- What one physical attempt of a transport gives: a stream, or an error's text and whether the error is a
-- cancellation
pub data Physical : Type 0 where
  accepted_stream : Stream → Physical
  transport_error : Text → Bool → Physical

-- The settlement of an assembled output
unfoldable pub settle_output : Output → OutputStatus → ModelSettlement
settle_output out completed = record { disposition = ready; output = some out; detail = [] }
settle_output out errored = record { disposition = failure; output = some out; detail = out.detail }
settle_output out _ = record { disposition = interruption; output = some out; detail = out.detail }

unfoldable pub settle_reply : {W : Type 0} → W → Reply Output → Effect W
unfolding settle_output
settle_reply w (answered out) = settles (answered (settle_output out out.status)) w
settle_reply w (refused e) = settles (refused e) w

unfoldable pub settle_error : Bool → Text → ModelSettlement
settle_error true text = record {
  disposition = interruption;
  output = none;
  detail = detail_interrupted;
}
settle_error false text = record { disposition = failure; output = none; detail = text }

unfoldable pub settle_physical : {W : Type 0} → Bool → ModelRef → W → Physical → Effect W
unfolding settle_reply settle_error
settle_physical done source w (accepted_stream stream) =
    assembles source (some stream) (settle_reply w)
settle_physical done source w (transport_error text cancelled) =
    settles (answered (settle_error (cancelled && done) text)) w

pub record Sent (W : Type 0) : Type 0 where
  pub result : Physical
  pub world : W

-- The transport is not nil.
unfoldable pub adapt_model_effect :
    {W : Type 0} → (W → Bool) → ModelRef → (W → Request → Sent W) → W → Request → Effect W
unfolding settle_physical complete
adapt_model_effect done source send w req =
    let sent = send w req in
    if complete source
    then settle_physical (done sent.world) source sent.world sent.result
    else settles (refused at_model) w
