-- ===== src/Jobs.antt =====
-- internal/jobs/jobs.go: the records, the manager and its settings. A record is reached through a
-- pointer, here its index in `records`, since the map may hold another record under its identity.
pub mod Records
pub mod Sections
pub mod Heap
pub mod Lifecycle
pub mod Cases
pub mod Growth
pub mod Advance
pub mod Counts
pub mod Calm
pub mod Limit
pub mod Close
pub mod Delivery
pub mod Told
mod Examples
use lightcode.Prelude.{ℕ, Bool, false, ◌||◌, Option, none, some, List, [], Text, if◌then◌else◌}
use lightcode.Prelude.Int.{ℤ, pos, ltb_ℤ}

pub data JobState : Type 0 where
  reserved running exited : JobState

-- The exit reasons; the empty string is `none` of an option.
pub data Reason : Type 0 where
  completed error timeout killed : Reason

-- Where a job's exit goroutine stands: no process yet, waiting for the process, its result settled,
-- `done` closed, its callback admitted but not yet invoked, inside the callback, about to clean up, and over.
pub data Progress : Type 0 where
  idle waiting settled reaped admitted calling cleaning over : Progress

-- `local_reason` and `local_code` are what the exit goroutine holds in variables of its own, `reason` and
-- `code`, once it has settled the result.
pub record JobRecord : Type 0 where
  pub id : Text
  pub state : JobState
  pub session_id : Text
  pub command : Text
  pub has_callback : Bool
  pub has_timeout : Bool
  pub max_bytes : ℤ
  pub exit_code : ℤ
  pub reason : Option Reason
  pub local_reason : Option Reason
  pub local_code : ℤ
  pub progress : Progress

-- One invocation of an OnExit callback
pub record ExitResult : Type 0 where
  pub pointer : ℕ
  pub id : Text
  pub command : Text
  pub reason : Option Reason
  pub exit_code : ℤ
  pub max_output_bytes : ℤ

pub record Manager : Type 0 where
  pub jobs : List (Text × ℕ)
  pub records : List JobRecord
  pub closed : Bool
  pub delivered : List ExitResult

abbrev pub new_manager : Manager
new_manager = record { jobs = []; records = []; closed = false; delivered = [] }

pub record Settings : Type 0 where
  pub max_background_processes : ℤ
  pub max_output_bytes : ℤ
  pub read_line_max_chars : ℤ

pub record StartRequest : Type 0 where
  pub job_id : Text
  pub session_id : Text
  pub command : Text
  pub timeout_sec : ℤ
  pub has_callback : Bool

pub data Error : Type 0 where
  manager_closed no_process bad_settings limit_reached spawn_failed no_randomness : Error

abbrev outside : ℤ → ℤ → ℤ → Bool
outside low high x = ltb_ℤ x low || ltb_ℤ high x

-- The range checks of decodeSettings; `none` is a section that encoding/json refuses.
unfoldable pub decode_settings : Option Settings → Option Settings
decode_settings none = none
decode_settings (some s) =
    if outside (pos 1) (pos 50) s.max_background_processes
    then none
    else if outside (pos 1024) (pos 1048576) s.max_output_bytes
    then none
    else if outside (pos 100) (pos 100000) s.read_line_max_chars
    then none
    else some s
