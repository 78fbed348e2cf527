-- ===== src/Harness/Streams.antt =====
-- The streams that the callback of harness/attempt.go supplies: one may be accepted, the others are closed.
use mathlib.Core.List.{append-nil}
use lightcode.Prelude.{
  ℕ, zero, suc, ◌≡◌, Bool, not, Option, none, some, List, [], ◌∷◌, ◌++◌, if_cases, ap, sym, ◌∙◌,
}
use lightcode.Prelude.Int.{ℤ, pos, negsuc}
use lightcode.Model.{Json, Request}
use lightcode.Model.Validate.{Check, validate_request}
use lightcode.Agent.{Stream}
use lightcode.Harness.{Cause, RetryPolicy}
use lightcode.Harness.Attempts.{
  Physical, AttemptResult, attempt_accepted, attempt_interrupted, attempt_invalid, Attempted,
  ends_with, policy_of, closed_world, back_off, take_attempt, if_valid, attempts,
  run_model_attempts,
}

-- A world beside the streams that were supplied and the streams that were closed, in order
pub record Streams (W : Type 0) : Type 0 where
  pub world : W
  pub supplied : List Stream
  pub closed : List Stream

abbrev pub one_or_none : Option Stream → List Stream
one_or_none none = []
one_or_none (some s) = s ∷ []

abbrev pub with_streams : {W : Type 0} → Physical W → Physical (Streams W)
with_streams env = record {
  done = λ w. env.done w.world;
  attempt = λ w req.
      let a = env.attempt w.world req in
      record {
        stream = a.stream;
        error = a.error;
        world = record w { world = a.world; supplied = w.supplied ++ one_or_none a.stream };
      };
  close = λ w s. record w { world = env.close w.world s; closed = w.closed ++ s ∷ [] };
  wait = λ w n.
      let waited = env.wait w.world n in
      record { cancelled = waited.cancelled; world = record w { world = waited.world } };
}

abbrev pub accepted_streams : AttemptResult → List Stream
accepted_streams (attempt_accepted s) = s ∷ []
accepted_streams _ = []

-- Each supplied stream is closed once, but for the one that is accepted, which is left open.
abbrev pub IsBalanced : {W : Type 0} → Attempted (Streams W) → Type 0
IsBalanced a = a.world.supplied ≡ a.world.closed ++ accepted_streams a.result

module _ {W : Type 0} (env : Physical W) (retry : RetryPolicy) where
  back_off-IsBalanced :
      (cause : Cause) (delay : ℤ) (again : Bool) (w : Streams W)
      (next : Streams W → Attempted (Streams W))
      → w.supplied ≡ w.closed
      → ((w' : Streams W) → w'.supplied ≡ w'.closed → IsBalanced (next w'))
      → IsBalanced
          (back_off (with_streams env) retry cause (record { delay = delay; again = again }) w next)
  unfolding back_off
  back_off-IsBalanced cause (negsuc n) again w next h k = h ∙ sym (append-nil w.closed)
  back_off-IsBalanced cause (pos n) again w next h k =
      let waited = (with_streams env).wait w n in
      if_cases IsBalanced (not again) _ _ (λ _. h ∙ sym (append-nil w.closed))
        λ _.
          if_cases IsBalanced waited.cancelled (ends_with attempt_interrupted waited.world)
            (next waited.world) (λ _. h ∙ sym (append-nil w.closed)) (λ _. k waited.world h)

  take_attempt-IsBalanced :
      (failed : ℕ) (stream : Option Stream) (error : Option Cause) (w : Streams W)
      (next : Streams W → Attempted (Streams W))
      → w.supplied ≡ w.closed ++ one_or_none stream
      → ((w' : Streams W) → w'.supplied ≡ w'.closed → IsBalanced (next w'))
      → IsBalanced (take_attempt (with_streams env) retry failed stream error w next)
  unfolding take_attempt closed_world
  take_attempt-IsBalanced failed (some s) none w next h k = h
  take_attempt-IsBalanced failed (some s) (some c) w next h k =
      h ∙ sym (append-nil (w.closed ++ s ∷ []))
  take_attempt-IsBalanced failed none none w next h k = h
  take_attempt-IsBalanced failed none (some c) w next h k =
      if_cases IsBalanced (env.done w.world) _ _ (λ _. h)
        λ _.
          back_off-IsBalanced c (retry c failed).delay (retry c failed).again w next
            (h ∙ append-nil w.closed) k

  attempts-IsBalanced :
      ⦃json : Json⦄ (req : Request) (fuel failed : ℕ) (w : Streams W)
      → w.supplied ≡ w.closed
      → IsBalanced (attempts (with_streams env) retry req fuel failed w)
  unfolding attempts
  attempts-IsBalanced req zero failed w h = h ∙ sym (append-nil w.closed)
  attempts-IsBalanced ⦃json⦄ req (suc fuel) failed w h =
      let a = (with_streams env).attempt w req in
      if_cases IsBalanced (env.done w.world) _ _ (λ _. h ∙ sym (append-nil w.closed))
        λ _.
          valid (validate_request req)
            (take_attempt (with_streams env) retry failed a.stream a.error a.world
              (λ w'. attempts (with_streams env) retry req fuel (suc failed) w'))
            (take_attempt-IsBalanced failed a.stream a.error a.world _
              (ap (λ ss. ss ++ one_or_none a.stream) h)
              (λ w' h'. attempts-IsBalanced req fuel (suc failed) w' h'))
    where
      valid :
          (c : Check) (x : Attempted (Streams W))
          → IsBalanced x
          → IsBalanced (if_valid (with_streams env) retry req c x (ends_with attempt_invalid w))
      valid none x b = b
      valid (some e) x b = h ∙ sym (append-nil w.closed)

-- Every stream that the physical callback supplies, with or without an error beside it, is closed exactly
-- once and in order, except for the one that is accepted: that one is returned open, and none follows it.
-- At the start every supplied stream has been closed.
pub run_model_attempts-IsBalanced :
    {W : Type 0} (env : Physical W) (retry : Option RetryPolicy) ⦃json : Json⦄ (req : Request)
    (fuel : ℕ) (w : Streams W)
    → w.supplied ≡ w.closed
    → IsBalanced (run_model_attempts (with_streams env) retry req fuel w)
unfolding run_model_attempts
run_model_attempts-IsBalanced env retry req fuel w h =
    attempts-IsBalanced env (policy_of retry) req fuel 1 w h
