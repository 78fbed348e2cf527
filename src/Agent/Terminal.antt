-- ===== src/Agent/Terminal.antt =====
-- The results of agent/run.go against validateTerminalResult of agent/settlement.go.
use lightcode.Prelude.{
  ◌≡◌, refl, true, false, ◌||◌, Option, none, some, List, [], ◌++◌, Text, is_empty, arith, if_cases,
}
use lightcode.Model.{Json, ModelRef, ToolCall, Output}
use lightcode.Agent.{Reply, answered, refused, TerminalResult}
use lightcode.Agent.Settle.{
  Violation, is_completed, is_errored, is_interrupted, calls_of, require_unique_call_ids,
  settled_output, validate_unstarted_calls, terminal_output, success_output, terminal_row,
  validate_terminal_result, one_status,
}
use lightcode.Agent.Run.{
  detail_interrupted, End, returned, failed, run_panicked, out_of_fuel, Next, goes_on, ends,
  accept_terminal, finish_terminal, interruption_terminal, retained, retained_interruption,
  on_reply, unless_violated, interrupted_with, failed_with, succeeded_with,
}
use lightcode.Agent.Unstarted.{unstarted-suffix}

module _ ⦃json : Json⦄ where
  -- A run's end is no panic, and a result that it returns is a terminal result of the contract.
  abbrev pub IsSettled : End → Type 0
  IsSettled (returned res) = validate_terminal_result res ≡ none
  IsSettled (failed e) = Unit {0}
  IsSettled out_of_fuel = Unit {0}
  IsSettled run_panicked = ⊥

  -- The output that rides later checkpoints is a valid one.
  abbrev pub IsNext : {W : Type 0} → Next W → Type 0
  IsNext (goes_on last w) = terminal_output last ≡ none
  IsNext (ends e w) = IsSettled e

  finish_terminal-IsSettled :
      (res : TerminalResult) → validate_terminal_result res ≡ none → IsSettled (finish_terminal res)
  unfolding finish_terminal
  finish_terminal-IsSettled res h = accepted (validate_terminal_result res) refl
    where
      accepted :
          (v : Violation) → validate_terminal_result res ≡ v → IsSettled (accept_terminal res v)
      accepted none e = e
      accepted (some x) e = cc

  -- An interruption with no calls
  pub interruption-IsSettled :
      (detail : Text) (out : Option Output)
      → is_empty detail ≡ false
      → terminal_output out ≡ none
      → one_status (λ s. is_completed s || is_interrupted s) out ≡ none
      → IsSettled (interruption_terminal detail out [])
  unfolding interruption_terminal validate_terminal_result terminal_row validate_unstarted_calls
  interruption-IsSettled detail out d t o =
      finish_terminal-IsSettled (interrupted_with detail out []) (ground (arith, d, t, o))

  pub retained-IsSettled :
      (out : Option Output) → terminal_output out ≡ none → IsSettled (retained_interruption out)
  unfolding retained_interruption retained terminal_output is_interrupted
  retained-IsSettled none h = interruption-IsSettled detail_interrupted none refl refl refl
  retained-IsSettled (some o) h =
      if_cases (λ (p : Option Output). IsSettled (interruption_terminal detail_interrupted p []))
        (is_completed o.status) (some o) none
        (λ c. interruption-IsSettled detail_interrupted (some o) refl h (rw c refl))
        λ _. interruption-IsSettled detail_interrupted none refl refl refl

  -- An interruption with the calls that are left of a completed output
  pub unstarted-IsSettled :
      (detail : Text) (o : Output) (pre suf : List ToolCall)
      → is_empty detail ≡ false
      → terminal_output (some o) ≡ none
      → is_completed o.status ≡ true
      → calls_of o ≡ pre ++ suf
      → IsSettled (interruption_terminal detail (some o) suf)
  unfolding interruption_terminal validate_terminal_result terminal_row terminal_output
      require_unique_call_ids
  unstarted-IsSettled detail o pre suf d t c e =
      finish_terminal-IsSettled (interrupted_with detail (some o) suf)
        (ground (arith, d, t, c, unstarted-suffix o pre suf, e))

  pub on_reply-IsNext :
      {W A : Type 0} (r : Reply A) (w : W) (k : A → Next W)
      → ((a : A) → IsNext (k a))
      → IsNext (on_reply r w k)
  on_reply-IsNext (refused e) w k h = tt
  on_reply-IsNext (answered a) w k h = h a

  pub unless_violated-IsNext :
      {W : Type 0} (v : Violation) (w : W) (next : Next W)
      → (v ≡ none → IsNext next)
      → IsNext (unless_violated v w next)
  unless_violated-IsNext none w next h = h refl
  unless_violated-IsNext (some e) w next h = tt

  pub success-IsSettled :
      (o : Output)
      → terminal_output (some o) ≡ none
      → is_completed o.status ≡ true
      → calls_of o ≡ []
      → IsSettled (finish_terminal (succeeded_with o))
  unfolding validate_terminal_result terminal_row success_output
  success-IsSettled o t c e = finish_terminal-IsSettled (succeeded_with o) (rw (t, c) (rw e refl))

  pub failure-IsSettled :
      (detail : Text) (out : Option Output)
      → is_empty detail ≡ false
      → terminal_output out ≡ none
      → one_status (λ s. is_completed s || is_errored s) out ≡ none
      → IsSettled (finish_terminal (failed_with detail out))
  unfolding validate_terminal_result terminal_row
  failure-IsSettled detail out d t o =
      finish_terminal-IsSettled (failed_with detail out) (ground (arith, d, t, o))

  pub settled-terminal :
      (expected : ModelRef) (out : Option Output)
      → settled_output expected out ≡ none
      → terminal_output out ≡ none
  unfolding settled_output terminal_output require_unique_call_ids
  settled-terminal expected none h = refl
  settled-terminal expected (some o) h = ground (arith, h)
