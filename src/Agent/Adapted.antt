-- ===== src/Agent/Adapted.antt =====
-- The ordinary model effect of agent/adapter.go under the rules of agent/run.go and agent/settlement.go.
use mathlib.Core.Path.{subst}
use lightcode.Prelude.{
  ◌≡◌, refl, Bool, true, false, ◌&&◌, none, some, [], Text, same_refl, is_empty, arith, sym,
}
use lightcode.Model.{
  Json, ModelRef, complete, ref_eqb, Request, OutputStatus, completed, errored, interrupted,
  other_output, Output,
}
use lightcode.Model.Validate.{validate_output, status_rules, valid_output_status}
use lightcode.Agent.{Stream, answered, refused}
use lightcode.Agent.Finalize.{Finished, finished, panicked}
use lightcode.Agent.Assemble.{assemble, assemble_stream}
use lightcode.Agent.Settle.{
  unique_from, require_unique_call_ids, calls_of, is_completed, is_errored, is_interrupted,
  disposition_row, settled_output, validate_settlement,
}
use lightcode.Agent.Run.{
  World, Callback, Called, new_callback, assembled, Settled, settled, effect_panicked,
  settlement_failure, call_callback, resume, run_effect,
}
use lightcode.Agent.Received.{assemble_stream-Produces}
use lightcode.Agent.Produced.{Produces}
use lightcode.Agent.Identities.{IsIdentified, assemble_stream-IsIdentified}
use lightcode.Agent.Sourced.{HasSource, assemble_stream-HasSource}
use lightcode.Agent.Adapter.{
  Physical, accepted_stream, transport_error, settle_output, settle_reply, settle_error,
  settle_physical, Sent, adapt_model_effect,
}

-- A transport's errors have a text.
abbrev pub HasText : Physical → Type 0
HasText (accepted_stream stream) = Unit {0}
HasText (transport_error text cancelled) = is_empty text ≡ false

module _ ⦃json : Json⦄ where
  -- A settlement passes the gate of the callback and the table of dispositions.
  abbrev pub IsAccepted : {W : Type 0} → ModelRef → Settled W → Type 0
  IsAccepted expected (settled (answered set) cb w) =
      (settlement_failure cb set.output ≡ none) × (validate_settlement set expected ≡ none)
  IsAccepted expected (settled (refused e) cb w) = ⊥
  IsAccepted expected (effect_panicked w) = ⊥

  settle_output-valid :
      (o : Output) (s : OutputStatus) (source : ModelRef)
      → o.status ≡ s
      → validate_output o ≡ none
      → unique_from [] (calls_of o) ≡ true
      → ref_eqb o.source source ≡ true
      → validate_settlement (settle_output o s) source ≡ none
  unfolding validate_settlement settle_output disposition_row settled_output require_unique_call_ids
      validate_output status_rules valid_output_status is_completed is_errored is_interrupted
  settle_output-valid o completed source e v u r = ground (arith, e, v, u, r)
  settle_output-valid o errored source e v u r = ground (arith, e, v, u, r)
  settle_output-valid o interrupted source e v u r = ground (arith, e, v, u, r)
  settle_output-valid o (other_output t) source e v u r = ground (arith, e, v)

  settle_error-valid :
      (b : Bool) (text : Text) (source : ModelRef)
      → is_empty text ≡ false
      → validate_settlement (settle_error b text) source ≡ none
  unfolding validate_settlement settle_error disposition_row settled_output
  settle_error-valid true text source h = refl
  settle_error-valid false text source h = ground (arith, h)

  settle_output-output : (o : Output) (s : OutputStatus) → (settle_output o s).output ≡ some o
  unfolding settle_output
  settle_output-output o completed = refl
  settle_output-output o errored = refl
  settle_output-output o interrupted = refl
  settle_output-output o (other_output t) = refl

  ref_eqb_refl : (r : ModelRef) → ref_eqb r r ≡ true
  unfolding ref_eqb
  ref_eqb_refl r = ground (arith, same_refl r.provider, same_refl r.model)

  abbrev once : Callback
  once = record { calls = 1; failure = none }

  first_call :
      (source : ModelRef) (stream : Stream)
      → complete source ≡ true
      → call_callback source new_callback source (some stream)
        ≡ assembled (answered (assemble_stream source stream)) once
  unfolding call_callback assemble
  first_call source stream c = rw (ref_eqb_refl source) (rw c refl)

  module _ {W : Type 0} (env : World W) (source : ModelRef) where
    finished-IsAccepted :
        (f : Finished) (w w0 : W)
        → Produces f
        → IsIdentified f
        → HasSource source f
        → IsAccepted source (
            resume (assembled (answered f) once).reply w0 (λ r.
              run_effect env source (assembled (answered f) once).callback (settle_reply w r) w0))
    unfolding assembled run_effect settle_reply settlement_failure
    finished-IsAccepted panicked w w0 p u h = p
    finished-IsAccepted (finished o) w w0 p u h = (
      rw (settle_output-output o o.status) refl,
      settle_output-valid o o.status source refl p u (rw h (ref_eqb_refl source)),
    )

    physical-IsAccepted :
        (done : Bool) (w w0 : W) (p : Physical)
        → complete source ≡ true
        → HasText p
        → IsAccepted source
            (run_effect env source new_callback (settle_physical done source w p) w0)
    unfolding run_effect settle_physical settlement_failure settle_error
    physical-IsAccepted done w w0 (transport_error text cancelled) c h =
        (no_output (cancelled && done), settle_error-valid (cancelled && done) text source h)
      where
        no_output : (b : Bool) → settlement_failure new_callback (settle_error b text).output ≡ none
        no_output true = refl
        no_output false = refl
    physical-IsAccepted done w w0 (accepted_stream stream) c h =
        subst
          (λ (called : Called). IsAccepted source (
            resume called.reply w0
              (λ r. run_effect env source called.callback (settle_reply w r) w0)))
          (sym (first_call source stream c))
          (finished-IsAccepted (assemble_stream source stream) w w0
            (assemble_stream-Produces source stream c)
            (assemble_stream-IsIdentified source stream c)
            (assemble_stream-HasSource source stream))

    -- Whatever the transport does, the ordinary model effect settles in a way that the run accepts: the
    -- settlement passes the callback's gate and the table of dispositions, and nothing panics. The source
    -- identity is complete, it is the expected one, and a transport error has a text.
    pub adapt_model_effect-IsAccepted :
        (done : W → Bool) (send : W → Request → Sent W) (req : Request) (w w0 : W)
        → complete source ≡ true
        → HasText (send w req).result
        → IsAccepted source
            (run_effect env source new_callback (adapt_model_effect done source send w req) w0)
    unfolding adapt_model_effect
    adapt_model_effect-IsAccepted done send req w w0 c h = rw c (
        physical-IsAccepted (done (send w req).world) (send w req).world w0 (send w req).result c h)
