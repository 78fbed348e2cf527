-- ===== src/Agent/Dispatch.antt =====
-- Which calls a batch of agent/run.go gives to the tool effect.
use mathlib.Core.List.{append_assoc, append-nil}
use lightcode.Prelude.{◌≡◌, refl, Option, none, some, List, [], ◌∷◌, ◌++◌, Text, if_cases, sym}
use lightcode.Model.{Json, ModelRef, ToolCall, Output}
use lightcode.Agent.{Reply, answered, refused}
use lightcode.Agent.Settle.{Violation, validate_terminal_result, validate_settled_result}
use lightcode.Agent.Run.{
  Effect, settles, assembles, Answer, World, detail_interrupted, End, returned, failed,
  run_panicked, out_of_fuel, Next, goes_on, ends, is_result_interrupted, on_reply, unless_violated,
  accept_terminal, finish_terminal, interruption_terminal, interrupted_with, dispatch,
}

-- A world beside the calls that its tool effect has been given, in order
pub record Logged (W : Type 0) : Type 0 where
  pub world : W
  pub log : List ToolCall

abbrev log_answer : {W A : Type 0} → List ToolCall → Answer W A → Answer (Logged W) A
log_answer log a = record { reply = a.reply; world = record { world = a.world; log = log } }

abbrev log_effect : {W : Type 0} → List ToolCall → Effect W → Effect (Logged W)
log_effect log (settles reply w) = settles reply (record { world = w; log = log })
log_effect log (assembles source stream next) =
    assembles source stream (λ r. log_effect log (next r))

abbrev pub logged : {W : Type 0} → World W → World (Logged W)
logged env = record {
  done = λ w. env.done w.world;
  request = λ w. log_answer w.log (env.request w.world);
  model_effect = λ w req. log_effect w.log (env.model_effect w.world req);
  tool_effect = λ w c names. log_answer (w.log ++ c ∷ []) (env.tool_effect w.world c names);
}

-- The calls that a batch has not given to the tool effect
abbrev LeftOf : End → List ToolCall → Type 0
LeftOf (returned res) rest = res.unstarted_calls ≡ rest
LeftOf (failed e) rest = Unit {0}
LeftOf run_panicked rest = Unit {0}
LeftOf out_of_fuel rest = Unit {0}

-- `calls` are those that are logged and then those that are left: all are logged when the run goes on,
-- and a returned result names the ones that are left.
abbrev pub Accounts : {W : Type 0} → List ToolCall → Next (Logged W) → Type 0
Accounts calls (goes_on last w) = w.log ≡ calls
Accounts calls (ends e w) = (rest : List ToolCall) × (calls ≡ w.log ++ rest) × LeftOf e rest

module _ ⦃json : Json⦄ where
  interruption-left :
      (out : Option Output) (rest : List ToolCall)
      → LeftOf (interruption_terminal detail_interrupted out rest) rest
  unfolding interruption_terminal finish_terminal
  interruption-left out rest =
      checked (validate_terminal_result (interrupted_with detail_interrupted out rest))
    where
      checked :
          (v : Violation)
          → LeftOf (accept_terminal (interrupted_with detail_interrupted out rest) v) rest
      checked none = refl
      checked (some e) = tt

  on_reply-Accounts :
      {W A : Type 0} (calls rest : List ToolCall) (r : Reply A) (w : Logged W)
      (k : A → Next (Logged W))
      → calls ≡ w.log ++ rest
      → ((a : A) → Accounts calls (k a))
      → Accounts calls (on_reply r w k)
  on_reply-Accounts calls rest (refused e) w k h f = (rest, h, tt)
  on_reply-Accounts calls rest (answered a) w k h f = f a

  unless_violated-Accounts :
      {W : Type 0} (calls rest : List ToolCall) (v : Violation) (w : Logged W)
      (next : Next (Logged W))
      → calls ≡ w.log ++ rest
      → Accounts calls next
      → Accounts calls (unless_violated v w next)
  unless_violated-Accounts calls rest none w next h f = f
  unless_violated-Accounts calls rest (some e) w next h f = (rest, h, tt)

  module _ {W : Type 0} (env : World W) (expected : ModelRef) where
    -- A batch gives its calls to the tool effect one by one, each at most once and in order. When the run
    -- goes on it has given all of them, and when it returns a result, the unstarted calls of that result
    -- are exactly the ones that were not given.
    pub dispatch-Accounts :
        (o : Output) (names : List Text) (calls : List ToolCall) (w : Logged W)
        → Accounts (w.log ++ calls) (dispatch (logged env) expected o names calls w)
    unfolding dispatch
    dispatch-Accounts o names [] w = sym (append-nil w.log)
    dispatch-Accounts o names (c ∷ cs) w =
        let a = (logged env).tool_effect w c names in
        let here = sym (append_assoc w.log (c ∷ []) cs) in
        if_cases (Accounts (w.log ++ c ∷ cs)) (env.done w.world) _ _
          (λ _. (c ∷ cs, refl, interruption-left (some o) (c ∷ cs)))
          λ _. on_reply-Accounts (w.log ++ c ∷ cs) cs a.reply a.world _ here λ res.
            unless_violated-Accounts (w.log ++ c ∷ cs) cs (validate_settled_result res c.id) a.world
              _ here
              (if_cases (Accounts (w.log ++ c ∷ cs)) (is_result_interrupted res.status) _ _
                (λ _. (cs, here, interruption-left (some o) cs))
                λ _. rw here (dispatch-Accounts o names cs a.world))
