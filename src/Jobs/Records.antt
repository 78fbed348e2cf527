-- ===== src/Jobs/Records.antt =====
-- internal/jobs/jobs.go: what its locked sections do to one record.
use lightcode.Prelude.{
  ℕ, zero, suc, Bool, true, false, not, ◌&&◌, Option, none, some, List, [], ◌∷◌, Text,
  if◌then◌else◌,
}
use lightcode.Prelude.Int.{ℤ, pos, negsuc, ltb_ℤ}
use lightcode.Prelude.Assoc.{text_key}
use lightcode.Jobs.{
  JobState, Reason, Progress, JobRecord, ExitResult, Settings, StartRequest, reserved, running,
  exited, completed, error, timeout, killed, idle, waiting, settled, reaped, admitted, calling,
  cleaning, over,
}

-- What cmd.Wait returned: nil, an ExitError with its code, or another error.
pub data WaitResult : Type 0 where
  clean : WaitResult
  exit_error : ℤ → WaitResult
  other_error : WaitResult

unfoldable pub update_at : ℕ → (JobRecord → JobRecord) → List JobRecord → List JobRecord
update_at p f [] = []
update_at zero f (r ∷ rs) = f r ∷ rs
update_at (suc p) f (r ∷ rs) = r ∷ update_at p f rs

abbrev pub is_reserved : JobState → Bool
is_reserved reserved = true
is_reserved running = false
is_reserved exited = false

abbrev pub is_running : JobState → Bool
is_running running = true
is_running reserved = false
is_running exited = false

abbrev pub is_exited : JobState → Bool
is_exited exited = true
is_exited reserved = false
is_exited running = false

abbrev pub first_reason : Option Reason → Reason → Option Reason
first_reason (some old) new = some old
first_reason none new = some new

-- markReason, and claimKilledLocked
unfoldable pub mark_reason : Reason → JobRecord → JobRecord
mark_reason reason r =
    if is_exited r.state then r else record r { reason = first_reason r.reason reason }

abbrev pub reserved_record : Text → JobRecord
reserved_record id = record {
  id = id;
  state = reserved;
  session_id = [];
  command = [];
  has_callback = false;
  has_timeout = false;
  max_bytes = pos 0;
  exit_code = pos 0;
  reason = none;
  local_reason = none;
  local_code = pos 0;
  progress = idle;
}

abbrev pub started : StartRequest → Settings → JobRecord → JobRecord
started req s r = record r {
  state = running;
  session_id = req.session_id;
  command = req.command;
  has_callback = req.has_callback;
  has_timeout = ltb_ℤ (pos 0) req.timeout_sec;
  max_bytes = s.max_output_bytes;
  progress = waiting;
}

-- exitLoop, section by section
abbrev pub code_of : WaitResult → ℤ
code_of clean = pos 0
code_of (exit_error code) = code
code_of other_error = negsuc 0

abbrev pub reason_of : WaitResult → Reason
reason_of clean = completed
reason_of (exit_error _) = error
reason_of other_error = error

abbrev pub settle : WaitResult → JobRecord → Progress → JobRecord
settle result r waiting = record r {
  state = exited;
  exit_code = code_of result;
  reason = first_reason r.reason (reason_of result);
  local_reason = first_reason r.reason (reason_of result);
  local_code = code_of result;
  progress = settled;
}
settle result r _ = r

abbrev pub close_done : JobRecord → Progress → JobRecord
close_done r settled = record r { progress = reaped }
close_done r _ = r

abbrev pub admit : Bool → JobRecord → Progress → JobRecord
admit closed r reaped = record r {
  progress = if r.has_callback && not closed then admitted else cleaning;
}
admit closed r _ = r

-- The call of the callback, outside of the manager's mutex
abbrev pub begin_callback : JobRecord → Progress → JobRecord
begin_callback r admitted = record r { progress = calling }
begin_callback r _ = r

abbrev pub end_callback : JobRecord → Progress → JobRecord
end_callback r calling = record r { progress = cleaning }
end_callback r _ = r

abbrev pub end_cleaning : JobRecord → Progress → JobRecord
end_cleaning r cleaning = record r { progress = over }
end_cleaning r _ = r

-- What the goroutine passes to the callback: its own variables, and what the record never changes
abbrev pub result_of : ℕ → JobRecord → ExitResult
result_of p r = record {
  pointer = p;
  id = r.id;
  command = r.command;
  reason = r.local_reason;
  exit_code = r.local_code;
  max_output_bytes = r.max_bytes;
}

abbrev pub is_admitted : Progress → Bool
is_admitted admitted = true
is_admitted _ = false

-- The callback is invoked only by a goroutine that has been admitted; the manager may be closed by then.
abbrev pub deliveries : ℕ → Option JobRecord → List ExitResult
deliveries p none = []
deliveries p (some r) = if is_admitted r.progress then result_of p r ∷ [] else []

abbrev pub is_cleaning : Progress → Bool
is_cleaning cleaning = true
is_cleaning _ = false

-- The timer's claim, for a job that was started with a timeout and is not reaped
abbrev pub fire : JobRecord → JobRecord
fire r = if r.has_timeout then mark_reason timeout r else r

-- Kill's claim comes after its lookup, which has refused a reservation.
abbrev pub claim_killed : JobRecord → JobRecord
claim_killed r = if is_reserved r.state then r else mark_reason killed r

-- Close claims every job that the map holds as running.
abbrev pub claim_if_running : JobRecord → JobRecord
claim_if_running r = if is_running r.state then mark_reason killed r else r

abbrev pub has_goroutine : Progress → Bool
has_goroutine idle = false
has_goroutine over = false
has_goroutine _ = true
