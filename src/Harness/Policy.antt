-- ===== src/Harness/Policy.antt =====
-- The standard policy of harness/effect.go in the loop of harness/attempt.go: how often it tries, and how
-- long it waits.
use mathlib.Core.Path.{subst}
use lightcode.Prelude.{
  ℕ, zero, suc, ◌+◌, ◌-◌, ◌*◌, ◌^◌, ◌≤◌, ◌≡◌, refl, Bool, true, false, not, ◌||◌, Option, none,
  some, List, [], ◌∷◌, ◌++◌, ltb, arith, if_cases, ap, sym,
}
use lightcode.Model.{Json, Request}
use lightcode.Model.Validate.{Check, validate_request}
use lightcode.Agent.{Stream}
use lightcode.Harness.{Cause, Decision, second, retryable_transport_failure, standard_retry_policy}
use lightcode.Harness.Attempts.{
  Waited, Physical, AttemptResult, attempt_accepted, attempt_failed, attempt_interrupted,
  attempt_invalid, out_of_attempts, Attempted, ends_with, policy_of, closed_world, back_off,
  take_attempt, if_valid, attempts, run_model_attempts,
}

-- A world beside the number of attempts and the waits between them
pub record Paced (W : Type 0) : Type 0 where
  pub world : W
  pub tries : ℕ
  pub waits : List ℕ

abbrev pub with_pace : {W : Type 0} → Physical W → Physical (Paced W)
with_pace env = record {
  done = λ w. env.done w.world;
  attempt = λ w req.
      let a = env.attempt w.world req in
      record {
        stream = a.stream;
        error = a.error;
        world = record w { world = a.world; tries = suc w.tries };
      };
  close = λ w s. record w { world = env.close w.world s };
  wait = λ w n.
      let waited = env.wait w.world n in
      record {
        cancelled = waited.cancelled;
        world = record w { world = waited.world; waits = w.waits ++ n ∷ [] };
      };
}

-- Two seconds, and twice as long each time
abbrev pub doubling : ℕ → List ℕ
doubling zero = []
doubling (suc n) = doubling n ++ 2 * 2 ^ n * second ∷ []

abbrev pub is_decided : AttemptResult → Bool
is_decided out_of_attempts = false
is_decided _ = true

-- There is a result, of at most four attempts, with at most three waits between them that double.
abbrev pub IsPaced : {W : Type 0} → Attempted (Paced W) → Type 0
IsPaced a =
    (is_decided a.result ≡ true)
    × (a.world.tries ≤ 4)
    × (n : ℕ) × (n ≤ 3)
    × (a.world.waits ≡ doubling n)

module _ {W : Type 0} (env : Physical W) ⦃json : Json⦄ (req : Request) where
  -- `fuel` attempts are left, with `used` failures behind and the waits that follow them.
  abbrev IsAhead : ℕ → ℕ → Paced W → Type 0
  IsAhead fuel used w =
      (fuel + used ≡ 4) × (used ≤ 3) × (w.tries ≤ used) × (w.waits ≡ doubling used)

  paced_end :
      (fuel used : ℕ) (r : AttemptResult) (w : Paced W)
      → is_decided r ≡ true
      → suc fuel + used ≡ 4
      → w.tries ≤ suc used
      → w.waits ≡ doubling used
      → IsPaced (ends_with r w)
  paced_end fuel used r w d f t h = (d, omega (arith, f, t), used, omega (arith, f), h)

  standard_back_off :
      (fuel used : ℕ) (cause : Cause) (w : Paced W) (next : Paced W → Attempted (Paced W))
      → suc fuel + used ≡ 4
      → w.tries ≤ suc used
      → w.waits ≡ doubling used
      → ((w' : Paced W) → IsAhead fuel (suc used) w' → IsPaced (next w'))
      → IsPaced (
          back_off
            (with_pace env)
            standard_retry_policy
            cause
            (standard_retry_policy cause (suc used))
            w
            next)
  unfolding back_off standard_retry_policy
  standard_back_off fuel used cause w next f t h k =
      if_cases
        (λ (d : Decision). IsPaced (back_off (with_pace env) standard_retry_policy cause d w next))
        (ltb 3 (suc used) || not (retryable_transport_failure cause)) _ _
        (λ _. paced_end fuel used (attempt_failed cause) w refl f t h)
        λ e.
          if_cases IsPaced waited.cancelled (ends_with attempt_interrupted waited.world)
            (next waited.world)
            (λ _. (refl, omega (arith, f, t), suc used, ground (arith, e), longer))
            λ _. k waited.world (omega (arith, f), ground (arith, e), t, longer)
    where
      waited : Waited (Paced W)
      waited = (with_pace env).wait w (2 * 2 ^ (suc used - 1) * second)

      longer : waited.world.waits ≡ doubling (suc used)
      longer =
          let e : suc used - 1 ≡ used = omega arith in
          subst (λ n. w.waits ++ 2 * 2 ^ n * second ∷ [] ≡ doubling (suc used)) (sym e)
            (ap (λ ws. ws ++ 2 * 2 ^ used * second ∷ []) h)

  standard_attempt :
      (fuel used : ℕ) (stream : Option Stream) (error : Option Cause) (w : Paced W)
      (next : Paced W → Attempted (Paced W))
      → suc fuel + used ≡ 4
      → w.tries ≤ suc used
      → w.waits ≡ doubling used
      → ((w' : Paced W) → IsAhead fuel (suc used) w' → IsPaced (next w'))
      → IsPaced (take_attempt (with_pace env) standard_retry_policy (suc used) stream error w next)
  unfolding take_attempt closed_world
  standard_attempt fuel used (some s) none w next f t h k =
      paced_end fuel used (attempt_accepted s) w refl f t h
  standard_attempt fuel used (some s) (some c) w next f t h k =
      paced_end fuel used attempt_invalid ((with_pace env).close w s) refl f t h
  standard_attempt fuel used none none w next f t h k =
      paced_end fuel used attempt_invalid w refl f t h
  standard_attempt fuel used none (some c) w next f t h k =
      if_cases IsPaced (env.done w.world) _ _
        (λ _. paced_end fuel used attempt_interrupted w refl f t h)
        λ _. standard_back_off fuel used c w next f t h k

  -- One more failure than the policy retries leaves no attempt.
  standard_attempts :
      (fuel used : ℕ) (w : Paced W)
      → IsAhead fuel used w
      → IsPaced (attempts (with_pace env) standard_retry_policy req fuel (suc used) w)
  unfolding attempts
  standard_attempts zero used w h = absurd (omega (arith, h.0, h.1))
  standard_attempts (suc fuel) used w h =
      let a = (with_pace env).attempt w req in
      if_cases IsPaced (env.done w.world) _ _ (λ _. stop attempt_interrupted refl)
        λ _.
          valid (validate_request req)
            (take_attempt (with_pace env) standard_retry_policy (suc used) a.stream a.error a.world
              (λ w'. attempts (with_pace env) standard_retry_policy req fuel (suc (suc used)) w'))
            (standard_attempt fuel used a.stream a.error a.world _ h.0 (omega (arith, h.2)) h.3
              (λ w' h'. standard_attempts fuel (suc used) w' h'))
    where
      stop : (r : AttemptResult) → is_decided r ≡ true → IsPaced (ends_with r w)
      stop r d = paced_end fuel used r w d h.0 (omega (arith, h.2)) h.3

      valid :
          (c : Check) (x : Attempted (Paced W))
          → IsPaced x
          → IsPaced
              (if_valid (with_pace env) standard_retry_policy req c x (ends_with attempt_invalid w))
      valid none x b = b
      valid (some e) x b = stop attempt_invalid refl

-- Under the standard policy the loop always ends with a result: it makes at most four attempts, with at most
-- three waits between them, of two, four and eight seconds. Four attempts are fuel enough. At the start
-- there are no attempts and no waits.
pub run_model_attempts-IsPaced :
    {W : Type 0} (env : Physical W) ⦃json : Json⦄ (req : Request) (w : Paced W)
    → w.tries ≡ 0
    → w.waits ≡ []
    → IsPaced (run_model_attempts (with_pace env) none req 4 w)
unfolding run_model_attempts policy_of
run_model_attempts-IsPaced env req w t h =
    standard_attempts env req 4 0 w (refl, omega arith, omega (arith, t), h)
