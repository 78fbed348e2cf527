-- ===== src/Agent/Examples.antt =====
-- The agent's properties at concrete inputs: a run of two rounds that each ask for one tool call.
use lightcode.Prelude.{
  ℕ, suc, ◌<◌, ◌≡◌, refl, Bool, true, false, not, Option, none, some, List, [], ◌∷◌, ◌++◌, Text,
  codes, is_empty, leb, arith, same, ◌-◌, if_cases, inl, inr, ◌⊎◌,
}
use lightcode.Prelude.Int.{pos}
use lightcode.Prelude.Assoc.{lookup, text_key}
use lightcode.Model.{
  completed, Json, ModelRef, complete, ToolCall, Request, Output, ToolResult, result_success,
}
use lightcode.Model.Validate.{is_named}
use lightcode.Model.Extra.{validate_extra_values}
use lightcode.Model.Stream.{ToolCallFragment, StreamDelta}
use lightcode.Agent.{Stream, Reply, answered, refused}
use lightcode.Agent.Correlate.{fresh_call, free_slot}
use lightcode.Agent.Assemble.{receive_all, assemble_stream}
use lightcode.Agent.Run.{Answer, World, new_callback, run_effect, dispatch, run}
use lightcode.Agent.Adapter.{
  accepted_stream, Sent, ToolFunc, adapt_tools, adapt_model_effect, call_registered,
  settle_physical, settle_reply,
}
use lightcode.Agent.Terminal.{IsSettled}
use lightcode.Agent.Rounds.{run-IsSettled}
use lightcode.Agent.Dispatch.{logged, Accounts, dispatch-Accounts}
use lightcode.Agent.Callback.{LetsThrough, run_effect-LetsThrough}
use lightcode.Agent.Produced.{Produces}
use lightcode.Agent.Received.{assemble_stream-Produces}
use lightcode.Agent.Identities.{IsIdentified, assemble_stream-IsIdentified}
use lightcode.Agent.Decided.{IsErrored, assemble_stream-conflict}
use lightcode.Agent.Adapted.{IsAccepted, adapt_model_effect-IsAccepted}
use lightcode.Agent.Ending.{is_over, SettlesBelow, CountsDown, run_over}
use lightcode.Agent.Slots.{IsLowestFree, free_slot-IsLowestFree}

brackets_valid : (raw : Text) → some (codes "[]") ≡ some raw → not (is_empty raw) ≡ true
brackets_valid raw e = ground (arith, e)

-- A stand-in for encoding/json: every value that is not empty is valid.
instance abbrev raw_json : Json
raw_json = record {
  valid = λ s. not (is_empty s);
  unmarshal_string = λ s. some s;
  marshal_string = λ s. 34 ∷ s;
  unmarshal_array = λ s. some (s ∷ []);
  marshal_array = λ ts. some (codes "[]");
  valid-marshal_string = λ s. refl;
  valid-marshal_array = λ ts raw e. brackets_valid raw e;
}

abbrev small_model : ModelRef
small_model = record { provider = codes "local"; model = codes "small" }

abbrev read_call : ToolCallFragment
read_call = record {
  position = some (pos 0);
  id = codes "call-1";
  wire_type = [];
  name = codes "read";
  argument_fragment = codes "{}";
  extra = [];
}

abbrev asks_for : List ToolCallFragment → Text → StreamDelta
asks_for frags reason = record {
  has_choice = true;
  role = codes "assistant";
  refusal_fragment = [];
  content_fragments = [];
  tool_fragments = frags;
  finish_reason = reason;
  usage = none;
  message_extra = [];
}

abbrev one_call : Stream
one_call = record {
  deltas = asks_for (read_call ∷ []) (codes "tool_calls") ∷ [];
  broken = false;
  done = false;
}

abbrev read_file : ℕ → ToolCall → Answer ℕ ToolResult
read_file w c = record {
  reply = answered (record { call_id = c.id; status = result_success; content = codes "text" });
  world = w;
}

abbrev is_late : ℕ → Bool
is_late w = leb 2 w

abbrev send_one : ℕ → Request → Sent ℕ
send_one w req = record { result = accepted_stream one_call; world = suc w }

abbrev small_request : Request
small_request = record { messages = []; tools = [] }

-- A world counts its model effects; its context is done after two of them.
abbrev two_rounds : World ℕ
two_rounds = record {
  done = is_late;
  request = λ w. record {
    reply = answered (record { request = some small_request; interrupted = false });
    world = w;
  };
  model_effect = adapt_model_effect is_late small_model send_one;
  tool_effect = adapt_tools ((codes "read", some read_file) ∷ []);
}

run-IsSettled_example : IsSettled (run two_rounds small_model 4 0).end
run-IsSettled_example = run-IsSettled two_rounds small_model 4 0

abbrev two_calls : List ToolCall
two_calls =
    record { id = codes "a"; name = codes "read"; arguments = []; extra = [] }
    ∷ record { id = codes "b"; name = codes "read"; arguments = []; extra = [] }
    ∷ []

abbrev small_output : Output
small_output = record {
  status = completed;
  source = small_model;
  message = none;
  usage = none;
  detail = [];
}

dispatch-Accounts_example : Accounts two_calls (
    dispatch
      (logged two_rounds)
      small_model
      small_output
      (codes "read" ∷ [])
      two_calls
      (record { world = 0; log = [] }))
dispatch-Accounts_example =
    dispatch-Accounts two_rounds small_model small_output (codes "read" ∷ []) two_calls
      (record { world = 0; log = [] })

run_effect-LetsThrough_example :
    LetsThrough small_model
      (two_rounds.model_effect 0 small_request)
      (run_effect two_rounds small_model new_callback (two_rounds.model_effect 0 small_request) 0)
run_effect-LetsThrough_example =
    run_effect-LetsThrough two_rounds small_model (two_rounds.model_effect 0 small_request) 0

assemble_stream-Produces_example : Produces (assemble_stream small_model one_call)
unfolding complete
assemble_stream-Produces_example = assemble_stream-Produces small_model one_call refl

assemble_stream-IsIdentified_example : IsIdentified (assemble_stream small_model one_call)
unfolding complete
assemble_stream-IsIdentified_example = assemble_stream-IsIdentified small_model one_call refl

-- A role that is not the first one
abbrev other_role : StreamDelta
other_role = record (asks_for [] []) { role = codes "user" }

abbrev before_it : List StreamDelta
before_it = asks_for [] [] ∷ other_role ∷ []

assemble_stream-conflict_example : IsErrored (codes "conflicting response roles") (
    assemble_stream small_model (record {
      deltas = before_it ++ asks_for (read_call ∷ []) [] ∷ [];
      broken = false;
      done = true;
    }))
unfolding complete receive_all validate_extra_values same
assemble_stream-conflict_example =
    assemble_stream-conflict small_model before_it (asks_for (read_call ∷ []) [] ∷ []) false true
      refl refl

adapt_model_effect-IsAccepted_example : IsAccepted small_model (
    run_effect two_rounds small_model new_callback
      (adapt_model_effect is_late small_model send_one 0 small_request)
      0)
unfolding complete
adapt_model_effect-IsAccepted_example =
    adapt_model_effect-IsAccepted two_rounds small_model is_late send_one small_request 0 0 refl tt

free_slot-IsLowestFree_example : IsLowestFree 0 2 ((1, fresh_call) ∷ (0, fresh_call) ∷ [])
unfolding free_slot
free_slot-IsLowestFree_example = free_slot-IsLowestFree 0 ((1, fresh_call) ∷ (0, fresh_call) ∷ [])

abbrev rounds_left : ℕ → ℕ
rounds_left w = 2 - w

registered_world :
    (b : Bool) (o : Option (Option (ToolFunc ℕ))) (w : ℕ) (c : ToolCall)
    → (o ≡ some (some read_file)) ⊎ (o ≡ none)
    → (call_registered b o w c).world ≡ w
unfolding call_registered
registered_world true o w c (inl e) = rw e refl
registered_world true o w c (inr e) = rw e refl
registered_world false o w c e = refl

settle_reply-SettlesBelow :
    (w : ℕ) (r : Reply Output)
    → 0 < rounds_left w
    → SettlesBelow rounds_left (rounds_left w) (settle_reply (suc w) r)
unfolding settle_reply
settle_reply-SettlesBelow w (answered o) h = omega (arith, h)
settle_reply-SettlesBelow w (refused e) h = omega (arith, h)

tool_world :
    (w : ℕ) (c : ToolCall) (names : List Text) → (two_rounds.tool_effect w c names).world ≡ w
unfolding adapt_tools lookup
tool_world w c names = registered_world (is_named c.name names) _ w c (
    if_cases (λ (o : Option (Option (ToolFunc ℕ))). (o ≡ some (some read_file)) ⊎ (o ≡ none))
      (same (codes "read") c.name) _ _ (λ _. inl refl) (λ _. inr refl))

two_rounds-CountsDown : CountsDown two_rounds rounds_left
unfolding adapt_model_effect settle_physical complete
two_rounds-CountsDown = record {
  at_zero = λ w e. ground (arith, e);
  by_request = λ w. omega arith;
  by_model = λ w req h r. settle_reply-SettlesBelow w r h;
  by_tool = λ w c names. rw (tool_world w c names) (omega arith);
}

run_over_example : is_over (run two_rounds small_model 3 0).end ≡ true
run_over_example =
    run_over two_rounds small_model rounds_left two_rounds-CountsDown 3 0 (omega arith)
