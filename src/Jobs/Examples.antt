-- ===== src/Jobs/Examples.antt =====
-- Runs of the job manager of internal/jobs/jobs.go, and the theorems at them.
use lightcode.Prelude.{
  ◌≤◌, ◌≡◌, refl, true, none, some, List, [], ◌∷◌, ◌++◌, Text, same, codes, get_elem?,
}
use lightcode.Prelude.Int.{pos}
use lightcode.Jobs.{
  JobRecord, Settings, StartRequest, new_manager, running, waiting, timeout, decode_settings,
}
use lightcode.Prelude.Assoc.{lookup, insert, remove}
use lightcode.Jobs.Advance.{run-Advances}
use lightcode.Jobs.Growth.{Later}
use lightcode.Jobs.Limit.{asks_within, run-running_count}
use lightcode.Jobs.Close.{AtRest, begins_close-AtRest}
use lightcode.Jobs.Delivery.{delivered_to, run-delivered_to}
use lightcode.Jobs.Told.{Told, delivered-Told}
use lightcode.Jobs.Records.{clean, exit_error, update_at, mark_reason}
use lightcode.Jobs.Sections.{
  Event, reserves, starts, wait_returns, closes_done, admits, invokes, timer_fires,
  returns_callback, cleans, run, running_count, step, reserve, start, find, drop_job,
  invoke_callback, clean_up, begin_close, begins_close, claim_all,
}

abbrev settings : Settings
settings = record {
  max_background_processes = pos 2;
  max_output_bytes = pos 4096;
  read_line_max_chars = pos 2000;
}

abbrev request : Text → StartRequest
request id = record {
  job_id = id;
  session_id = codes "s";
  command = codes "make";
  timeout_sec = pos 5;
  has_callback = true;
}

-- Two jobs start, a third is refused, the first times out, exits and tells its caller.
abbrev two_jobs : List Event
two_jobs =
    reserves (some (codes "a"))
    ∷ starts (request (codes "a")) (some settings) true
    ∷ reserves (some (codes "b"))
    ∷ starts (request (codes "b")) (some settings) true
    ∷ reserves (some (codes "c"))
    ∷ starts (request (codes "c")) (some settings) true
    ∷ []

abbrev first_ends : List Event
first_ends =
    timer_fires 0
    ∷ wait_returns 0 (exit_error (pos 137))
    ∷ closes_done 0
    ∷ admits 0
    ∷ invokes 0
    ∷ invokes 0
    ∷ returns_callback 0
    ∷ cleans 0
    ∷ []

abbrev first_started : JobRecord
first_started = record {
  id = codes "a";
  state = running;
  session_id = codes "s";
  command = codes "make";
  has_callback = true;
  has_timeout = true;
  max_bytes = pos 4096;
  exit_code = pos 0;
  reason = none;
  local_reason = none;
  local_code = pos 0;
  progress = waiting;
}

two_within : asks_within 2 two_jobs ≡ true
unfolding decode_settings
two_within = refl

first_runs : get_elem? (run new_manager two_jobs).records 0 ≡ some first_started
unfolding run step reserve start find lookup insert same running_count update_at decode_settings
    drop_job remove
first_runs = refl

two_run :
    running_count (codes "s") (run new_manager two_jobs).records (run new_manager two_jobs).jobs ≡ 2
unfolding run step reserve start find lookup insert same running_count update_at decode_settings
    drop_job remove
two_run = refl

one_call :
    (run (run new_manager two_jobs) first_ends).delivered
    ≡ record {
      pointer = 0;
      id = codes "a";
      command = codes "make";
      reason = some timeout;
      exit_code = pos 137;
      max_output_bytes = pos 4096;
    }
      ∷ []
unfolding run step reserve start find lookup insert same running_count update_at decode_settings
    drop_job remove mark_reason invoke_callback clean_up
one_call = refl

-- Close takes the lock between the admission of a callback and its invocation, which still happens.
abbrev closes_between : List Event
closes_between =
    reserves (some (codes "a"))
    ∷ starts (request (codes "a")) (some settings) true
    ∷ wait_returns 0 clean
    ∷ closes_done 0
    ∷ admits 0
    ∷ begins_close
    ∷ invokes 0
    ∷ []

admitted_before_close : delivered_to 0 (run new_manager closes_between).delivered ≡ 1
unfolding run step reserve start find lookup insert same running_count update_at decode_settings
    drop_job remove mark_reason invoke_callback clean_up begin_close claim_all
admitted_before_close = refl

run-Advances_example :
    Later first_started (get_elem? (run (run new_manager two_jobs) first_ends).records 0)
run-Advances_example = run-Advances two_jobs first_ends 0 first_started first_runs

run-running_count_example :
    running_count (codes "s") (run new_manager two_jobs).records (run new_manager two_jobs).jobs ≤ 2
run-running_count_example = run-running_count 2 two_jobs (codes "s") two_within

begins_close-AtRest_example :
    AtRest
      (begin_close (run new_manager two_jobs))
      (run (begin_close (run new_manager two_jobs)) first_ends)
begins_close-AtRest_example = begins_close-AtRest two_jobs first_ends

run-delivered_to_example : delivered_to 0 (run new_manager (two_jobs ++ first_ends)).delivered ≤ 1
run-delivered_to_example = run-delivered_to (two_jobs ++ first_ends) 0

delivered-Told_example :
    Told
      (run new_manager (two_jobs ++ first_ends)).delivered
      (run new_manager (two_jobs ++ first_ends)).records
delivered-Told_example = delivered-Told (two_jobs ++ first_ends)
