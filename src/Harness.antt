-- ===== src/Harness.antt =====
-- harness/attempt.go and the standard retry policy of harness/effect.go: the physical attempts of one
-- logical model effect.
pub mod Attempts
pub mod Streams
pub mod Policy
mod Examples
use lightcode.Prelude.{
  ℕ, ◌-◌, ◌*◌, ◌^◌, Bool, true, false, not, ◌&&◌, ◌||◌, Option, none, some, if◌then◌else◌, ltb, leb,
  ◌==◌,
}
use lightcode.Prelude.Int.{ℤ, pos}

-- What errors.As and errors.Is find in the error of an attempt: the status code of an HTTPStatusError, a
-- net.OpError, and io.EOF or io.ErrUnexpectedEOF.
pub record Cause : Type 0 where
  pub status_code : Option ℕ
  pub is_op_error : Bool
  pub is_eof : Bool

-- A delay in nanoseconds, and whether to try again
pub record Decision : Type 0 where
  pub delay : ℤ
  pub again : Bool

abbrev pub RetryPolicy : Type 0
RetryPolicy = Cause → ℕ → Decision

-- time.Second
abbrev pub second : ℕ
second = 1_000_000_000

unfoldable pub retryable_status : ℕ → Bool
retryable_status code = code == 429 || leb 500 code && leb code 599

unfoldable pub retryable_without_status : Bool → Bool → Bool
retryable_without_status op eof = if op then true else eof

unfoldable pub retryable_transport_failure : Cause → Bool
unfolding retryable_status retryable_without_status
retryable_transport_failure cause = elim cause.status_code [
  | some code ↦ retryable_status code
  | none ↦ retryable_without_status cause.is_op_error cause.is_eof
]

unfoldable pub standard_retry_policy : RetryPolicy
unfolding retryable_transport_failure
standard_retry_policy cause failed =
    if ltb 3 failed || not (retryable_transport_failure cause)
    then record { delay = pos 0; again = false }
    else record { delay = pos (2 * 2 ^ (failed - 1) * second); again = true }
