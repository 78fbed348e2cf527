-- ===== src/Agent/Rounds.antt =====
-- The rounds of agent/run.go hold to the contract of terminal results, whatever the callers do.
use lightcode.Prelude.{
  ℕ, zero, suc, ◌≡◌, refl, Bool, true, false, not, ◌||◌, Option, none, some, List, [], ◌∷◌, ◌++◌,
  Text, is_empty, ◌==◌, arith, if_cases, sym, ◌∙◌,
}
use mathlib.Core.List.{append_assoc}
use lightcode.Model.{Json, ModelRef, complete, ref_eqb, ToolCall, Request, Output}
use lightcode.Model.Validate.{validate_request}
use lightcode.Agent.{
  Stream, Reply, answered, refused, at_agent, ModelDisposition, ready, continue, failure,
  interruption, other_disposition, ModelSettlement,
}
use lightcode.Agent.Finalize.{Finished, finished, panicked}
use lightcode.Agent.Assemble.{assemble}
use lightcode.Agent.Received.{assemble_stream-Produces}
use lightcode.Agent.Produced.{Produces}
use lightcode.Agent.Settle.{
  violates, is_completed, is_errored, calls_of, disposition_row, validate_settlement,
  terminal_output, validate_settled_result, one_status,
}
use lightcode.Agent.Run.{
  Effect, settles, assembles, World, detail_interrupted, Callback, new_callback, Called, assembled,
  Ended, Next, goes_on, ends, Settled, settled, effect_panicked, is_result_interrupted,
  settlement_failure, call_callback, interruption_terminal, unstarted_of, run_effect, dispatch,
  finish_ready, dispose, take_settlement, model_round, round, rounds, run, resume, continue_with,
  request_or_not, ready_with,
}
use lightcode.Agent.Terminal.{
  IsSettled, IsNext, retained-IsSettled, unstarted-IsSettled, interruption-IsSettled,
  on_reply-IsNext, unless_violated-IsNext, success-IsSettled, failure-IsSettled, settled-terminal,
}

module _ ⦃json : Json⦄ where
  -- The callback does not panic.
  abbrev Returns : Reply Finished → Type 0
  Returns (answered f) = Produces f
  Returns (refused e) = Unit {0}

  assemble-Returns : (source : ModelRef) (stream : Option Stream) → Returns (assemble source stream)
  unfolding assemble
  assemble-Returns source none = tt
  assemble-Returns source (some stream) =
      if_cases Returns (complete source) _ _ (λ c. assemble_stream-Produces source stream c)
        (λ _. tt)

  assembled-Returns :
      (r : Reply Finished) (cb : Callback) → Returns r → Returns (assembled r cb).reply
  unfolding assembled
  assembled-Returns (answered f) cb h = h
  assembled-Returns (refused e) cb h = tt

  call_callback-Returns :
      (expected : ModelRef) (cb : Callback) (source : ModelRef) (stream : Option Stream)
      → Returns (call_callback expected cb source stream).reply
  unfolding call_callback
  call_callback-Returns expected cb source stream =
      if_cases (λ (c : Called). Returns c.reply) (not (cb.calls == 0)) _ _ (λ _. tt)
        λ _.
          if_cases (λ (c : Called). Returns c.reply) (not (ref_eqb source expected)) _ _ (λ _. tt)
            λ _. assembled-Returns (assemble source stream) _ (assemble-Returns source stream)

  abbrev IsCalm : {W : Type 0} → Settled W → Type 0
  IsCalm (settled reply cb w) = Unit {0}
  IsCalm (effect_panicked w) = ⊥

  resume-IsCalm :
      {W : Type 0} (r : Reply Finished) (w : W) (k : Reply Output → Settled W)
      → Returns r
      → ((o : Reply Output) → IsCalm (k o))
      → IsCalm (resume r w k)
  resume-IsCalm (answered (finished o)) w k h c = c (answered o)
  resume-IsCalm (answered panicked) w k h c = elim h [ ]
  resume-IsCalm (refused e) w k h c = c (refused e)

  module _ {W : Type 0} (env : World W) (expected : ModelRef) where
    dispatch-IsNext :
        (o : Output) (names : List Text) (calls pre : List ToolCall) (w : W)
        → terminal_output (some o) ≡ none
        → is_completed o.status ≡ true
        → calls_of o ≡ pre ++ calls
        → IsNext (dispatch env expected o names calls w)
    unfolding dispatch
    dispatch-IsNext o names [] pre w t c e = t
    dispatch-IsNext o names (x ∷ calls) pre w t c e =
        let a = env.tool_effect w x names in
        let later = e ∙ sym (append_assoc pre (x ∷ []) calls) in
        let rest = dispatch-IsNext o names calls (pre ++ x ∷ []) a.world t c later in
        if_cases IsNext (env.done w) _ _
          (λ _. unstarted-IsSettled detail_interrupted o pre (x ∷ calls) refl t c e)
          λ _. on_reply-IsNext a.reply a.world _ λ res.
            unless_violated-IsNext (validate_settled_result res x.id) a.world _ λ _.
              if_cases IsNext (is_result_interrupted res.status)
                (ends (interruption_terminal detail_interrupted (some o) calls) a.world)
                (dispatch env expected o names calls a.world)
                (λ _. unstarted-IsSettled detail_interrupted o (pre ++ x ∷ []) calls refl t c later)
                λ _. rest

    finish_ready-IsNext :
        (o : Output) (names : List Text) (calls : List ToolCall) (w : W)
        → terminal_output (some o) ≡ none
        → is_completed o.status ≡ true
        → calls_of o ≡ calls
        → IsNext (finish_ready env expected o names calls w)
    unfolding finish_ready
    finish_ready-IsNext o names (x ∷ calls) w t c e = dispatch-IsNext o names (x ∷ calls) [] w t c e
    finish_ready-IsNext o names [] w t c e =
        if_cases IsNext (env.done w) _ _
          (λ _. unstarted-IsSettled detail_interrupted o [] [] refl t c e)
          λ _. success-IsSettled o t c e

    ready_with-IsNext :
        (set : ModelSettlement) (names : List Text) (out : Option Output) (w : W)
        → disposition_row set ready out ≡ none
        → terminal_output out ≡ none
        → IsNext (ready_with env expected names out w)
    unfolding disposition_row ready_with
    ready_with-IsNext set names none w r t = cc
    ready_with-IsNext set names (some o) w r t =
        finish_ready-IsNext o names (calls_of o) w t (ground (arith, r)) refl

    interruption_row-IsSettled :
        (set : ModelSettlement) (out : Option Output)
        → disposition_row set interruption out ≡ none
        → terminal_output out ≡ none
        → IsSettled (interruption_terminal set.detail out (unstarted_of out))
    unfolding disposition_row unstarted_of
    interruption_row-IsSettled set none r t =
        interruption-IsSettled set.detail none (ground (arith, r)) t refl
    interruption_row-IsSettled set (some o) r t =
        if_cases (λ cs. IsSettled (interruption_terminal set.detail (some o) cs))
          (is_completed o.status) (calls_of o) []
          (λ c. unstarted-IsSettled set.detail o [] (calls_of o) (ground (arith, r)) t c refl)
          λ _. interruption-IsSettled set.detail (some o) (ground (arith, r)) t (ground (arith, r))

    failure_row :
        (set : ModelSettlement) (out : Option Output)
        → disposition_row set failure out ≡ none
        → (is_empty set.detail ≡ false)
          × (one_status (λ s. is_completed s || is_errored s) out ≡ none)
    unfolding disposition_row
    failure_row set none r = ground (arith, r)
    failure_row set (some o) r = ground (arith, r)

    dispose-IsNext :
        (names : List Text) (set : ModelSettlement) (d : ModelDisposition) (w : W)
        → disposition_row set d set.output ≡ none
        → terminal_output set.output ≡ none
        → IsNext (dispose env expected names set d w)
    unfolding dispose disposition_row
    dispose-IsNext names set ready w r t = ready_with-IsNext set names set.output w r t
    dispose-IsNext names set continue w r t = t
    dispose-IsNext names set failure w r t =
        let row = failure_row set set.output r in
        failure-IsSettled set.detail set.output row.0 t row.1
    dispose-IsNext names set interruption w r t = interruption_row-IsSettled set set.output r t
    dispose-IsNext names set (other_disposition _) w r t = cc

    run_effect-IsCalm :
        (cb : Callback) (effect : Effect W) (w : W) → IsCalm (run_effect env expected cb effect w)
    unfolding run_effect
    run_effect-IsCalm cb (settles reply w') w = tt
    run_effect-IsCalm cb (assembles source stream next) w =
        let called = call_callback expected cb source stream in
        resume-IsCalm called.reply w _ (call_callback-Returns expected cb source stream)
          λ r. run_effect-IsCalm called.callback (next r) w

    take_settlement-IsNext :
        (names : List Text) (s : Settled W)
        → IsCalm s
        → IsNext (take_settlement env expected names s)
    unfolding take_settlement validate_settlement
    take_settlement-IsNext names (effect_panicked w) c = elim c [ ]
    take_settlement-IsNext names (settled reply cb w) c = on_reply-IsNext reply w _ λ set.
        unless_violated-IsNext (settlement_failure cb set.output) w _ λ _.
          unless_violated-IsNext (validate_settlement set expected) w _ λ v.
            dispose-IsNext names set set.disposition w (ground (arith, v))
              (settled-terminal expected set.output (ground (arith, v)))

    model_round-IsNext :
        (last : Option Output) (req : Request) (w : W)
        → terminal_output last ≡ none
        → IsNext (model_round env expected last req w)
    unfolding model_round
    model_round-IsNext last req w t =
        unless_violated-IsNext (violates (validate_request req) at_agent) w _ λ _.
          if_cases IsNext (env.done w) _ _ (λ _. retained-IsSettled last t)
            λ _.
              take_settlement-IsNext _ _ (run_effect-IsCalm new_callback (env.model_effect w req) w)

    request_or_not-IsNext :
        (last : Option Output) (b : Bool) (r : Option Request) (w : W)
        → terminal_output last ≡ none
        → IsNext (request_or_not env expected last b r w)
    unfolding request_or_not
    request_or_not-IsNext last true none w t = retained-IsSettled last t
    request_or_not-IsNext last true (some r) w t = tt
    request_or_not-IsNext last false none w t = tt
    request_or_not-IsNext last false (some req) w t = model_round-IsNext last req w t

    round-IsNext :
        (last : Option Output) (w : W)
        → terminal_output last ≡ none
        → IsNext (round env expected last w)
    unfolding round
    round-IsNext last w t =
        let a = env.request w in
        if_cases IsNext (env.done w) _ _ (λ _. retained-IsSettled last t)
          λ _.
            on_reply-IsNext a.reply a.world _
              λ r. request_or_not-IsNext last r.interrupted r.request a.world t

    continue_with-IsSettled :
        (n : Next W) (k : Option Output → W → Ended W)
        → IsNext n
        → ((last : Option Output) (w : W) → terminal_output last ≡ none → IsSettled (k last w).end)
        → IsSettled (continue_with n k).end
    continue_with-IsSettled (goes_on last w) k h r = r last w h
    continue_with-IsSettled (ends e w) k h r = h

    rounds-IsSettled :
        (fuel : ℕ) (last : Option Output) (w : W)
        → terminal_output last ≡ none
        → IsSettled (rounds env expected fuel last w).end
    unfolding rounds
    rounds-IsSettled zero last w t = tt
    rounds-IsSettled (suc fuel) last w t =
        continue_with-IsSettled (round env expected last w) _ (round-IsNext last w t)
          λ last' w' t'. rounds-IsSettled fuel last' w' t'

    -- Whatever the request source, the model effect and the tool effect of a run return, and whenever its
    -- context is cancelled, the run does not panic, and a terminal result that it returns passes the closed
    -- table of terminal results: in particular the unstarted calls of an interruption are calls of its
    -- completed last output, each once and in order.
    pub run-IsSettled : (fuel : ℕ) (w : W) → IsSettled (run env expected fuel w).end
    unfolding run terminal_output
    run-IsSettled fuel w =
        if_cases (λ (e : Ended W). IsSettled e.end) (complete expected) _ _
          (λ _. rounds-IsSettled fuel none w refl) (λ _. tt)
