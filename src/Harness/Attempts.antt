-- ===== src/Harness/Attempts.antt =====
-- runModelAttempts of harness/attempt.go over a world `W`, in which its callbacks act.
use lightcode.Prelude.{ℕ, zero, suc, Bool, not, Option, none, some, if◌then◌else◌}
use lightcode.Prelude.Int.{pos, negsuc}
use lightcode.Model.{Json, Request}
use lightcode.Model.Validate.{Check, validate_request}
use lightcode.Agent.{Stream}
use lightcode.Harness.{Cause, Decision, RetryPolicy, standard_retry_policy}

-- What the physical callback returns
pub record Attempt (W : Type 0) : Type 0 where
  pub stream : Option Stream
  pub error : Option Cause
  pub world : W

-- The end of a backoff: the time has passed, or the context is done.
pub record Waited (W : Type 0) : Type 0 where
  pub cancelled : Bool
  pub world : W

pub record Physical (W : Type 0) : Type 0 where
  pub done : W → Bool
  pub attempt : W → Request → Attempt W
  pub close : W → Stream → W
  pub wait : W → ℕ → Waited W

pub data AttemptResult : Type 0 where
  attempt_accepted : Stream → AttemptResult
  attempt_failed : Cause → AttemptResult
  attempt_interrupted attempt_invalid out_of_attempts : AttemptResult

pub record Attempted (W : Type 0) : Type 0 where
  pub result : AttemptResult
  pub world : W

abbrev pub ends_with : {W : Type 0} → AttemptResult → W → Attempted W
ends_with r w = record { result = r; world = w }

unfoldable pub policy_of : Option RetryPolicy → RetryPolicy
policy_of none = standard_retry_policy
policy_of (some retry) = retry

unfoldable pub closed_world : {W : Type 0} → Physical W → Option Stream → W → W
closed_world env none w = w
closed_world env (some s) w = env.close w s

module _ {W : Type 0} (env : Physical W) (retry : RetryPolicy) where
  -- The backoff; `next` are the attempts behind it.
  unfoldable pub back_off : Cause → Decision → W → (W → Attempted W) → Attempted W
  back_off cause d w next = elim d.delay [
    | negsuc _ ↦ ends_with (attempt_failed cause) w
    | pos n ↦
        let waited = env.wait w n in
        if not d.again
        then ends_with (attempt_failed cause) w
        else if waited.cancelled
        then ends_with attempt_interrupted waited.world
        else next waited.world
  ]

  -- One outcome of the callback
  unfoldable pub take_attempt :
      ℕ → Option Stream → Option Cause → W → (W → Attempted W) → Attempted W
  unfolding back_off closed_world
  take_attempt failed (some stream) none w next = ends_with (attempt_accepted stream) w
  take_attempt failed none (some cause) w next =
      if env.done w
      then ends_with attempt_interrupted w
      else back_off cause (retry cause failed) w next
  take_attempt failed stream _ w next = ends_with attempt_invalid (closed_world env stream w)

  module _ ⦃json : Json⦄ (req : Request) where
    abbrev pub if_valid : {A : Type 0} → Check → A → A → A
    if_valid none x y = x
    if_valid (some e) x y = y

    -- `failed` is the number of the attempt, and `fuel` bounds the attempts that are left.
    unfoldable pub attempts : ℕ → ℕ → W → Attempted W
    unfolding take_attempt validate_request
    attempts zero failed w = ends_with out_of_attempts w
    attempts (suc fuel) failed w =
        let a = env.attempt w req in
        if env.done w
        then ends_with attempt_interrupted w
        else if_valid (validate_request req)
            (take_attempt failed a.stream a.error a.world (λ w'. attempts fuel (suc failed) w'))
            (ends_with attempt_invalid w)

unfoldable pub run_model_attempts :
    {W : Type 0} → Physical W → Option RetryPolicy → ⦃json : Json⦄ → Request → ℕ → W → Attempted W
unfolding attempts policy_of
run_model_attempts env retry req fuel w = attempts env (policy_of retry) req fuel 1 w
