-- ===== src/Agent/Callback.antt =====
-- The discipline of callbackProtocol in agent/run.go: which settlements its gate lets through.
use lightcode.Prelude.{
  ◌≡◌, refl, Bool, true, false, not, Option, none, some, ◌==◌, arith, if_cases, Bool-cases, inl,
  inr,
}
use lightcode.Model.{Json, ModelRef, ref_eqb, Output}
use lightcode.Agent.{Stream, Reply, answered, refused, RunError, at_model, ModelSettlement}
use lightcode.Agent.Finalize.{Finished, finished, panicked}
use lightcode.Agent.Assemble.{assemble}
use lightcode.Agent.Run.{
  Effect, settles, assembles, World, Callback, new_callback, Called, remember, assembled, Settled,
  settled, effect_panicked, settlement_failure, call_callback, resume, run_effect,
}

-- A remembered failure
abbrev is_failure : Option RunError → Bool
is_failure none = false
is_failure (some _) = true

abbrev has_failed : Callback → Bool
has_failed cb = is_failure cb.failure

abbrev HasFailed : {W : Type 0} → Settled W → Type 0
HasFailed (settled reply cb w) = has_failed cb ≡ true
HasFailed (effect_panicked w) = Unit {0}

abbrev is_there : Option Output → Bool
is_there none = false
is_there (some _) = true

module _ ⦃json : Json⦄ where
  resume-HasFailed :
      {W : Type 0} (r : Reply Finished) (w : W) (k : Reply Output → Settled W)
      → ((o : Reply Output) → HasFailed (k o))
      → HasFailed (resume r w k)
  resume-HasFailed (answered (finished o)) w k h = h (answered o)
  resume-HasFailed (answered panicked) w k h = tt
  resume-HasFailed (refused e) w k h = h (refused e)

  assembled-has_failed :
      (r : Reply Finished) (cb : Callback)
      → has_failed cb ≡ true
      → has_failed (assembled r cb).callback ≡ true
  unfolding assembled remember
  assembled-has_failed (answered f) cb h = h
  assembled-has_failed (refused e) cb h = refl

  call_callback-has_failed :
      (expected : ModelRef) (cb : Callback) (source : ModelRef) (stream : Option Stream)
      → has_failed cb ≡ true
      → has_failed (call_callback expected cb source stream).callback ≡ true
  unfolding call_callback remember
  call_callback-has_failed expected cb source stream h =
      if_cases (λ (c : Called). has_failed c.callback ≡ true) (not (cb.calls == 0)) _ _ (λ _. refl)
        λ _.
          if_cases (λ (c : Called). has_failed c.callback ≡ true) (not (ref_eqb source expected)) _
            _ (λ _. refl) λ _. assembled-has_failed (assemble source stream) _ h

  module _ {W : Type 0} (env : World W) (expected : ModelRef) where
    -- A failure is kept.
    run_effect-HasFailed :
        (cb : Callback) (effect : Effect W) (w : W)
        → has_failed cb ≡ true
        → HasFailed (run_effect env expected cb effect w)
    unfolding run_effect
    run_effect-HasFailed cb (settles reply w') w h = h
    run_effect-HasFailed cb (assembles source stream next) w h =
        let called = call_callback expected cb source stream in
        resume-HasFailed called.reply w _ λ r.
          run_effect-HasFailed called.callback (next r) w
            (call_callback-has_failed expected cb source stream h)

  -- An effect that settles without an output and without a call of the callback, or with an output and
  -- after one call, which has the expected identity and whose stream is assembled.
  abbrev pub OneCall : {W : Type 0} → ModelRef → Effect W → ModelSettlement → Type 0
  OneCall expected (settles reply w) set = (reply ≡ answered set) × (is_there set.output ≡ false)
  OneCall {W} expected (assembles source stream next) set =
      (ref_eqb source expected ≡ true)
      × (is_there set.output ≡ true)
      × (out : Output) × (assemble source stream ≡ answered (finished out))
      × (w : W) × (next (answered out) ≡ settles (answered set) w)

  abbrev pub LetsThrough : {W : Type 0} → ModelRef → Effect W → Settled W → Type 0
  LetsThrough expected effect (settled (answered set) cb w) =
      settlement_failure cb set.output ≡ none → OneCall expected effect set
  LetsThrough expected effect (settled (refused e) cb w) = Unit {0}
  LetsThrough expected effect (effect_panicked w) = Unit {0}

  failed-LetsThrough :
      {W : Type 0} (expected : ModelRef) (effect : Effect W) (s : Settled W)
      → HasFailed s
      → LetsThrough expected effect s
  unfolding settlement_failure
  failed-LetsThrough expected effect (settled (answered set) cb w) h = λ k. ground (arith, h, k)
  failed-LetsThrough expected effect (settled (refused e) cb w) h = tt
  failed-LetsThrough expected effect (effect_panicked w) h = tt

  module _ {W : Type 0} (env : World W) (expected : ModelRef) where
    abbrev once : Callback
    once = record { calls = 1; failure = none }

    -- What follows the one accepted call
    after_once :
        (source : ModelRef) (stream : Option Stream) (next : Reply Output → Effect W) (w : W)
        (out : Output) (effect : Effect W)
        → ref_eqb source expected ≡ true
        → assemble source stream ≡ answered (finished out)
        → next (answered out) ≡ effect
        → LetsThrough expected
            (assembles source stream next)
            (run_effect env expected once effect w)
    unfolding run_effect settlement_failure
    after_once source stream next w out (settles (refused e) w') i a n = tt
    after_once source stream next w out (settles (answered set) w') i a n =
        λ k. (i, present set.output k, out, a, w', n)
      where
        present : (o : Option Output) → settlement_failure once o ≡ none → is_there o ≡ true
        present none k = cc
        present (some o) k = refl
    after_once source stream next w out (assembles s st again) i a n =
        failed-LetsThrough expected (assembles source stream next) _
          (run_effect-HasFailed env expected _ (again (refused at_model)) w refl)

    assembled-LetsThrough :
        (source : ModelRef) (stream : Option Stream) (next : Reply Output → Effect W) (w : W)
        (r : Reply Finished)
        → ref_eqb source expected ≡ true
        → assemble source stream ≡ r
        → LetsThrough expected (assembles source stream next) (
            resume
              (assembled r once).reply
              w
              (λ o. run_effect env expected (assembled r once).callback (next o) w))
    unfolding assembled remember
    assembled-LetsThrough source stream next w (answered (finished out)) i a =
        after_once source stream next w out (next (answered out)) i a refl
    assembled-LetsThrough source stream next w (answered panicked) i a = tt
    assembled-LetsThrough source stream next w (refused e) i a =
        failed-LetsThrough expected (assembles source stream next) _
          (run_effect-HasFailed env expected _ (next (refused e)) w refl)

    -- A model effect's settlement passes the gate only if it has no output and the effect never called
    -- the assembly callback, or if it has an output and the effect called it exactly once, with the
    -- expected identity and a stream that the assembler turned into an output. Every other effect, one
    -- that ignores the callback's refusal too, is stopped.
    pub run_effect-LetsThrough :
        (effect : Effect W) (w : W)
        → LetsThrough expected effect (run_effect env expected new_callback effect w)
    unfolding run_effect settlement_failure call_callback remember
    run_effect-LetsThrough (settles (refused e) w') w = tt
    run_effect-LetsThrough (settles (answered set) w') w = λ k. (refl, absent set.output k)
      where
        absent : (o : Option Output) → settlement_failure new_callback o ≡ none → is_there o ≡ false
        absent none k = refl
        absent (some o) k = cc
    run_effect-LetsThrough (assembles source stream next) w =
        elim (Bool-cases (ref_eqb source expected)) [
          | inl i ↦
              rw i (assembled-LetsThrough source stream next w (assemble source stream) i refl)
          | inr i ↦ rw i (
              failed-LetsThrough expected (assembles source stream next) _
                (run_effect-HasFailed env expected _ (next (refused at_model)) w refl))
        ]
