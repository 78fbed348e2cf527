-- ===== src/Harness/Examples.antt =====
-- Attempts against a transport that is busy twice, and then gives a stream.
use lightcode.Prelude.{
  ℕ, suc, ◌≡◌, refl, true, false, not, none, some, [], ◌∷◌, Text, codes, is_empty, ltb,
  if◌then◌else◌, arith, ◌*◌,
}
use lightcode.Model.{Json, Request}
use lightcode.Agent.{Stream}
use lightcode.Harness.{Cause, second, retryable_transport_failure}
use lightcode.Harness.Attempts.{Physical, run_model_attempts}
use lightcode.Harness.Streams.{with_streams, IsBalanced, run_model_attempts-IsBalanced}
use lightcode.Harness.Policy.{with_pace, doubling, IsPaced, run_model_attempts-IsPaced}

brackets_valid : (raw : Text) → some (codes "[]") ≡ some raw → not (is_empty raw) ≡ true
brackets_valid raw e = ground (arith, e)

-- A stand-in for encoding/json: every value that is not empty is valid.
instance abbrev raw_json : Json
raw_json = record {
  valid = λ s. not (is_empty s);
  unmarshal_string = λ s. some s;
  marshal_string = λ s. 34 ∷ s;
  unmarshal_array = λ s. some (s ∷ []);
  marshal_array = λ ts. some (codes "[]");
  valid-marshal_string = λ s. refl;
  valid-marshal_array = λ ts raw e. brackets_valid raw e;
}

abbrev busy : Cause
busy = record { status_code = some 503; is_op_error = false; is_eof = false }

abbrev silent : Stream
silent = record { deltas = []; broken = false; done = false }

abbrev empty_request : Request
empty_request = record { messages = []; tools = [] }

-- A world counts its attempts.
abbrev busy_twice : Physical ℕ
busy_twice = record {
  done = λ w. false;
  attempt = λ w req. record {
    stream = if ltb w 2 then none else some silent;
    error = if ltb w 2 then some busy else none;
    world = suc w;
  };
  close = λ w s. w;
  wait = λ w n. record { cancelled = false; world = w };
}

run_model_attempts-IsBalanced_example : IsBalanced (
    run_model_attempts
      (with_streams busy_twice)
      none
      empty_request
      4
      (record { world = 0; supplied = []; closed = [] }))
run_model_attempts-IsBalanced_example =
    run_model_attempts-IsBalanced busy_twice none empty_request 4
      (record { world = 0; supplied = []; closed = [] }) refl

run_model_attempts-IsPaced_example : IsPaced (
    run_model_attempts
      (with_pace busy_twice)
      none
      empty_request
      4
      (record { world = 0; tries = 0; waits = [] }))
run_model_attempts-IsPaced_example =
    run_model_attempts-IsPaced busy_twice empty_request
      (record { world = 0; tries = 0; waits = [] }) refl refl

-- The three waits
longest_waits : doubling 3 ≡ 2 * second ∷ 4 * second ∷ 8 * second ∷ []
longest_waits = refl

retries_busy : retryable_transport_failure busy ≡ true
unfolding retryable_transport_failure
retries_busy = refl
