-- ===== src/Agent.antt =====
-- agent/contract.go: the values that pass between an agent and its caller. A call's error is a
-- value; the caller's own errors are numbers.
pub mod State
pub mod Correlate
pub mod Content
pub mod Finalize
pub mod Assemble
pub mod Settle
pub mod Run
pub mod Unstarted
pub mod Terminal
pub mod Rounds
pub mod Ending
pub mod Slots
pub mod Sorting
pub mod Homes
pub mod Parts
pub mod Payload
pub mod Calls
pub mod Produced
pub mod Received
pub mod Conflict
pub mod Decided
pub mod Unique
pub mod Sourced
pub mod Adapter
pub mod Adapted
pub mod Identities
pub mod Dispatch
pub mod Callback
mod Examples
use lightcode.Prelude.{ℕ, Bool, Option, List, Text}
use lightcode.Model.{ToolCall, Request, Output}
use lightcode.Model.Stream.{StreamDelta}

pub data ModelDisposition : Type 0 where
  ready continue failure interruption : ModelDisposition
  other_disposition : Text → ModelDisposition

pub record ModelSettlement : Type 0 where
  pub disposition : ModelDisposition
  pub output : Option Output
  pub detail : Text

pub data TerminalStatus : Type 0 where
  terminal_success terminal_failure terminal_interruption : TerminalStatus
  other_terminal : Text → TerminalStatus

pub record TerminalResult : Type 0 where
  pub status : TerminalStatus
  pub last_output : Option Output
  pub unstarted_calls : List ToolCall
  pub detail : Text

pub record RequestResult : Type 0 where
  pub request : Option Request
  pub interrupted : Bool

-- A ProtocolError names its boundary; every other error is the caller's.
pub data RunError : Type 0 where
  at_agent at_model at_tool : RunError
  caller_error : ℕ → RunError

-- A value or an error
pub data Reply {ℓ} (A : Type ℓ) : Type ℓ where
  answered : A → Reply A
  refused : RunError → Reply A

-- An accepted stream: what Recv gives before it ends, whether it ends in an error that is not io.EOF,
-- and whether the run's context is done when the stream has ended.
pub record Stream : Type 0 where
  pub deltas : List StreamDelta
  pub broken : Bool
  pub done : Bool
