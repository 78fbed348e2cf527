-- ===== src/Agent/Ending.antt =====
-- The loop of agent/run.go ends when its context is done.
use lightcode.Prelude.{
  ℕ, zero, suc, ◌≤◌, ◌<◌, ◌≡◌, refl, Bool, true, false, Option, none, some, List, [], ◌∷◌, Text,
  arith, if_cases,
}
use lightcode.Model.{Json, ModelRef, complete, ToolCall, Request, Output}
use lightcode.Model.Validate.{validate_request}
use lightcode.Agent.{
  Reply, answered, refused, at_agent, ModelDisposition, ready, continue, failure, interruption,
  other_disposition, ModelSettlement, TerminalResult,
}
use lightcode.Agent.Finalize.{Finished, finished, panicked}
use lightcode.Agent.Settle.{
  Violation, violates, calls_of, validate_settlement, validate_terminal_result,
  validate_settled_result,
}
use lightcode.Agent.Terminal.{IsSettled}
use lightcode.Agent.Rounds.{run-IsSettled}
use lightcode.Agent.Run.{
  Effect, settles, assembles, World, detail_interrupted, Callback, new_callback, End, returned,
  failed, run_panicked, out_of_fuel, Ended, Next, goes_on, ends, Settled, settled, effect_panicked,
  is_result_interrupted, settlement_failure, call_callback, resume, continue_with, on_reply,
  unless_violated, interrupted_with, failed_with, succeeded_with, accept_terminal, finish_terminal,
  interruption_terminal, retained, unstarted_of, retained_interruption, run_effect, dispatch,
  finish_ready, ready_with, dispose, take_settlement, model_round, request_or_not, round, rounds,
  run,
}

-- The run has not used up its fuel.
abbrev keeps_fuel : End → Bool
keeps_fuel (returned res) = true
keeps_fuel (failed e) = true
keeps_fuel run_panicked = true
keeps_fuel out_of_fuel = false

-- The run has returned a result or an error: it has neither panicked nor used up its fuel.
abbrev pub is_over : End → Bool
is_over (returned res) = true
is_over (failed e) = true
is_over run_panicked = false
is_over out_of_fuel = false

-- Every world in which an effect settles has a measure below a bound.
abbrev pub SettlesBelow : {W : Type 0} → (W → ℕ) → ℕ → Effect W → Type 0
SettlesBelow left n (settles reply w) = left w < n
SettlesBelow left n (assembles source stream next) =
    (r : Reply Output) → SettlesBelow left n (next r)

-- `left` counts down to the moment in which the context is done: each settlement of a model effect
-- lowers it, and the other effects do not raise it.
pub record CountsDown {W : Type 0} (env : World W) (left : W → ℕ) : Type 0 where
  pub at_zero : (w : W) → left w ≡ 0 → env.done w ≡ true
  pub by_request : (w : W) → left (env.request w).world ≤ left w
  pub by_model :
      (w : W) (req : Request) → 0 < left w → SettlesBelow left (left w) (env.model_effect w req)
  pub by_tool :
      (w : W) (c : ToolCall) (names : List Text) → left (env.tool_effect w c names).world ≤ left w

module _ ⦃json : Json⦄ where
  module _ {W : Type 0} (env : World W) (expected : ModelRef) (left : W → ℕ) where
    abbrev IsBelow : ℕ → Next W → Type 0
    IsBelow n (goes_on last w) = left w < n
    IsBelow n (ends e w) = keeps_fuel e ≡ true

    abbrev IsSettledBelow : ℕ → Settled W → Type 0
    IsSettledBelow n (settled reply cb w) = left w < n
    IsSettledBelow n (effect_panicked w) = Unit {0}

    finish_terminal_over : (res : TerminalResult) → keeps_fuel (finish_terminal res) ≡ true
    unfolding finish_terminal
    finish_terminal_over res = accepted (validate_terminal_result res)
      where
        accepted : (v : Violation) → keeps_fuel (accept_terminal res v) ≡ true
        accepted none = refl
        accepted (some e) = refl

    interruption_over :
        (detail : Text) (out : Option Output) (cs : List ToolCall)
        → keeps_fuel (interruption_terminal detail out cs) ≡ true
    unfolding interruption_terminal
    interruption_over detail out cs = finish_terminal_over (interrupted_with detail out cs)

    retained_over : (out : Option Output) → keeps_fuel (retained_interruption out) ≡ true
    unfolding retained_interruption
    retained_over out = interruption_over detail_interrupted (retained out) []

    on_reply-IsBelow :
        {A : Type 0} (n : ℕ) (r : Reply A) (w : W) (k : A → Next W)
        → ((a : A) → IsBelow n (k a))
        → IsBelow n (on_reply r w k)
    on_reply-IsBelow n (refused e) w k h = refl
    on_reply-IsBelow n (answered a) w k h = h a

    unless_violated-IsBelow :
        (n : ℕ) (v : Violation) (w : W) (next : Next W)
        → IsBelow n next
        → IsBelow n (unless_violated v w next)
    unless_violated-IsBelow n none w next h = h
    unless_violated-IsBelow n (some e) w next h = refl

    resume-IsSettledBelow :
        (n : ℕ) (r : Reply Finished) (w : W) (k : Reply Output → Settled W)
        → ((o : Reply Output) → IsSettledBelow n (k o))
        → IsSettledBelow n (resume r w k)
    resume-IsSettledBelow n (answered (finished o)) w k h = h (answered o)
    resume-IsSettledBelow n (answered panicked) w k h = tt
    resume-IsSettledBelow n (refused e) w k h = h (refused e)

    run_effect-IsSettledBelow :
        (n : ℕ) (cb : Callback) (effect : Effect W) (w : W)
        → SettlesBelow left n effect
        → IsSettledBelow n (run_effect env expected cb effect w)
    unfolding run_effect
    run_effect-IsSettledBelow n cb (settles reply w') w h = h
    run_effect-IsSettledBelow n cb (assembles source stream next) w h =
        let called = call_callback expected cb source stream in
        resume-IsSettledBelow n called.reply w _
          λ r. run_effect-IsSettledBelow n called.callback (next r) w (h r)

    module _ (down : CountsDown env left) where
      dispatch-IsBelow :
          (n : ℕ) (o : Output) (names : List Text) (cs : List ToolCall) (w : W)
          → left w < n
          → IsBelow n (dispatch env expected o names cs w)
      unfolding dispatch
      dispatch-IsBelow n o names [] w h = h
      dispatch-IsBelow n o names (c ∷ cs) w h =
          let a = env.tool_effect w c names in
          if_cases (IsBelow n) (env.done w) _ _
            (λ _. interruption_over detail_interrupted (some o) (c ∷ cs))
            λ _. on_reply-IsBelow n a.reply a.world _ λ res.
              unless_violated-IsBelow n (validate_settled_result res c.id) a.world _ (
                if_cases (IsBelow n) (is_result_interrupted res.status)
                  (ends (interruption_terminal detail_interrupted (some o) cs) a.world)
                  (dispatch env expected o names cs a.world)
                  (λ _. interruption_over detail_interrupted (some o) cs)
                  λ _.
                    dispatch-IsBelow n o names cs a.world
                      (omega (arith, h, down.by_tool w c names)))

      finish_ready-IsBelow :
          (n : ℕ) (o : Output) (names : List Text) (cs : List ToolCall) (w : W)
          → left w < n
          → IsBelow n (finish_ready env expected o names cs w)
      unfolding finish_ready
      finish_ready-IsBelow n o names (c ∷ cs) w h = dispatch-IsBelow n o names (c ∷ cs) w h
      finish_ready-IsBelow n o names [] w h =
          if_cases (IsBelow n) (env.done w) _ _
            (λ _. interruption_over detail_interrupted (some o) [])
            λ _. finish_terminal_over (succeeded_with o)

      ready_with-IsBelow :
          (n : ℕ) (names : List Text) (out : Option Output) (w : W)
          → left w < n
          → IsBelow n (ready_with env expected names out w)
      unfolding ready_with
      ready_with-IsBelow n names none w h = refl
      ready_with-IsBelow n names (some o) w h = finish_ready-IsBelow n o names (calls_of o) w h

      dispose-IsBelow :
          (n : ℕ) (names : List Text) (set : ModelSettlement) (d : ModelDisposition) (w : W)
          → left w < n
          → IsBelow n (dispose env expected names set d w)
      unfolding dispose
      dispose-IsBelow n names set ready w h = ready_with-IsBelow n names set.output w h
      dispose-IsBelow n names set continue w h = h
      dispose-IsBelow n names set failure w h =
          finish_terminal_over (failed_with set.detail set.output)
      dispose-IsBelow n names set interruption w h =
          interruption_over set.detail set.output (unstarted_of set.output)
      dispose-IsBelow n names set (other_disposition _) w h = refl

      take_settlement-IsBelow :
          (n : ℕ) (names : List Text) (s : Settled W)
          → IsSettledBelow n s
          → IsBelow n (take_settlement env expected names s)
      unfolding take_settlement
      take_settlement-IsBelow n names (effect_panicked w) h = refl
      take_settlement-IsBelow n names (settled reply cb w) h = on_reply-IsBelow n reply w _ λ set.
          unless_violated-IsBelow n (settlement_failure cb set.output) w _ (
            unless_violated-IsBelow n (validate_settlement set expected) w _
              (dispose-IsBelow n names set set.disposition w h))

      model_round-IsBelow :
          (last : Option Output) (req : Request) (w : W)
          → IsBelow (left w) (model_round env expected last req w)
      unfolding model_round
      model_round-IsBelow last req w =
          unless_violated-IsBelow (left w) (violates (validate_request req) at_agent) w _ (
            if_cases (IsBelow (left w)) (env.done w) _ _ (λ _. retained_over last)
              λ e. take_settlement-IsBelow (left w) _ _ (
                run_effect-IsSettledBelow (left w) new_callback (env.model_effect w req) w
                  (down.by_model w req (ground (arith, e, down.at_zero w)))))

      raise-IsBelow : (m n : ℕ) (next : Next W) → m ≤ n → IsBelow m next → IsBelow n next
      raise-IsBelow m n (goes_on last w) l h = omega (arith, l, h)
      raise-IsBelow m n (ends e w) l h = h

      request_or_not-IsBelow :
          (last : Option Output) (b : Bool) (r : Option Request) (w : W)
          → IsBelow (left w) (request_or_not env expected last b r w)
      unfolding request_or_not
      request_or_not-IsBelow last true none w = retained_over last
      request_or_not-IsBelow last true (some req) w = refl
      request_or_not-IsBelow last false none w = refl
      request_or_not-IsBelow last false (some req) w = model_round-IsBelow last req w

      round-IsBelow : (last : Option Output) (w : W) → IsBelow (left w) (round env expected last w)
      unfolding round
      round-IsBelow last w =
          let a = env.request w in
          if_cases (IsBelow (left w)) (env.done w) _ _ (λ _. retained_over last)
            λ _. on_reply-IsBelow (left w) a.reply a.world _ λ r.
              raise-IsBelow (left a.world) (left w) _ (down.by_request w)
                (request_or_not-IsBelow last r.interrupted r.request a.world)

      continue_with_over :
          (n : ℕ) (next : Next W) (k : Option Output → W → Ended W)
          → IsBelow n next
          → ((last : Option Output) (w : W) → left w < n → keeps_fuel (k last w).end ≡ true)
          → keeps_fuel (continue_with next k).end ≡ true
      continue_with_over n (goes_on last w) k h f = f last w h
      continue_with_over n (ends e w) k h f = h

      rounds_over :
          (fuel : ℕ) (last : Option Output) (w : W)
          → left w < fuel
          → keeps_fuel (rounds env expected fuel last w).end ≡ true
      unfolding rounds
      rounds_over zero last w h = absurd (omega (arith, h))
      rounds_over (suc fuel) last w h =
          continue_with_over (left w) (round env expected last w) _ (round-IsBelow last w)
            λ last' w' l. rounds_over fuel last' w' (omega (arith, l, h))

  run_stops :
      {W : Type 0} (env : World W) (expected : ModelRef) (left : W → ℕ)
      → CountsDown env left
      → (fuel : ℕ) (w : W) → left w < fuel
      → keeps_fuel (run env expected fuel w).end ≡ true
  unfolding run
  run_stops env expected left down fuel w h =
      if_cases (λ (e : Ended _). keeps_fuel e.end ≡ true) (complete expected) _ _
        (λ _. rounds_over env expected left down fuel none w h) (λ _. refl)

  settled_over : (e : End) → keeps_fuel e ≡ true → IsSettled e → is_over e ≡ true
  settled_over (returned res) h k = refl
  settled_over (failed e) h k = refl
  settled_over run_panicked h k = absurd k
  settled_over out_of_fuel h k = h

  -- A run ends: when a measure of the world is lowered by each settlement of the model effect, is not
  -- raised by the other effects, and is zero only when the context is done, then one more round than the
  -- measure is enough, and the run returns a result or an error: it does not panic.
  pub run_over :
      {W : Type 0} (env : World W) (expected : ModelRef) (left : W → ℕ)
      → CountsDown env left
      → (fuel : ℕ) (w : W) → left w < fuel
      → is_over (run env expected fuel w).end ≡ true
  run_over env expected left down fuel w h =
      settled_over (run env expected fuel w).end (run_stops env expected left down fuel w h)
        (run-IsSettled env expected fuel w)
