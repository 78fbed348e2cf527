-- ===== src/Jobs/Sections.antt =====
-- The locked sections of internal/jobs/jobs.go, and the invocation of a callback outside of the mutex, as
-- steps of one manager. Any list of events is an
-- interleaving of callers, exit goroutines, timers and Close; an event of a goroutine that does not
-- stand there changes nothing.
use lightcode.Jobs.Records.{
  WaitResult, is_reserved, is_running, is_exited, mark_reason, reserved_record, started, settle,
  close_done, admit, begin_callback, end_callback, end_cleaning, deliveries, is_cleaning, fire,
  claim_killed, claim_if_running, has_goroutine, update_at,
}
use lightcode.Prelude.{
  sort_texts, ◌==◌, ℕ, Bool, true, false, not, ◌&&◌, ◌||◌, Option, none, some, List, [], ◌∷◌, ◌++◌,
  Text, same, if◌then◌else◌, length, get_elem?, ◌+◌,
}
use lightcode.Prelude.Int.{pos, ltb_ℤ}
use lightcode.Prelude.Assoc.{text_key, lookup, insert, remove}
use lightcode.Jobs.{
  JobRecord, Manager, Settings, StartRequest, Error, killed, manager_closed, no_process,
  bad_settings, limit_reached, spawn_failed, no_randomness, decode_settings,
}

pub data Event : Type 0 where
  reserves : Option Text → Event
  aborts : Text → Event
  starts : StartRequest → Option Settings → Bool → Event
  wait_returns : ℕ → WaitResult → Event
  closes_done admits invokes returns_callback cleans timer_fires marks_killed : ℕ → Event
  kills stops : Text → Text → Event
  begins_close ends_close : Event

-- What a caller gets: success, an error, or the record that Kill goes on with.
pub data Reply : Type 0 where
  done : Reply
  failed : Error → Reply
  target : ℕ → Reply

-- The record that the map holds under an identity, with its pointer
abbrev pub found : Manager → Option ℕ → Option (ℕ × JobRecord)
found m none = none
found m (some p) = elim (get_elem? m.records p) [ none ↦ none | some r ↦ some (p, r) ]

unfoldable pub find : Manager → Text → Option (ℕ × JobRecord)
find m id = found m (lookup id m.jobs)

-- What a section does for a missing record, and for one that the map holds
abbrev pub at_found :
    Option (ℕ × JobRecord) → Manager × Reply → (ℕ → JobRecord → Manager × Reply) → Manager × Reply
at_found none absent present = absent
at_found (some (p, r)) absent present = present p r

-- How many running jobs of the session the map holds
abbrev pub runs_for : Text → Option JobRecord → Bool
runs_for session none = false
runs_for session (some r) = is_running r.state && same r.session_id session

unfoldable pub running_count : Text → List JobRecord → List (Text × ℕ) → ℕ
running_count session records [] = 0
running_count session records ((_, p) ∷ jobs) =
    (if runs_for session (get_elem? records p) then 1 else 0) + running_count session records jobs

unfoldable pub reserve : Manager → Option Text → Manager × Reply
reserve m none = (m, failed no_randomness)
reserve m (some id) = if m.closed then (m, failed manager_closed) else (
  record m {
    jobs = insert id (length m.records) m.jobs;
    records = m.records ++ reserved_record id ∷ [];
  },
  done,
)

unfoldable pub drop_job : Manager → Text → Manager
drop_job m id = record m { jobs = remove id m.jobs }

abbrev pub abort_found : Manager → Text → ℕ → JobRecord → Manager × Reply
abort_found m id p r = if is_reserved r.state then (drop_job m id, done) else (m, done)

unfoldable pub abort : Manager → Text → Manager × Reply
abort m id = at_found (find m id) (m, done) (abort_found m id)

-- The locked section of Start for a reservation; `spawned` is whether cmd.Start succeeded.
abbrev pub start_reserved : Manager → StartRequest → Bool → ℕ → Option Settings → Manager × Reply
start_reserved m req spawned p none = (drop_job m req.job_id, failed bad_settings)
start_reserved m req spawned p (some s) =
    if not (ltb_ℤ (pos (running_count req.session_id m.records m.jobs)) s.max_background_processes)
    then (drop_job m req.job_id, failed limit_reached)
    else if not spawned
    then (drop_job m req.job_id, failed spawn_failed)
    else (record m { records = update_at p (started req s) m.records }, done)

abbrev pub start_found :
    Manager → StartRequest → Option Settings → Bool → ℕ → JobRecord → Manager × Reply
start_found m req config spawned p r =
    if not (is_reserved r.state)
    then (m, failed no_process)
    else start_reserved m req spawned p (decode_settings config)

unfoldable pub start : Manager → StartRequest → Option Settings → Bool → Manager × Reply
start m req config spawned =
    if m.closed
    then (m, failed manager_closed)
    else at_found (find m req.job_id) (m, failed no_process) (start_found m req config spawned)

unfoldable pub invoke_callback : Manager → ℕ → Manager
invoke_callback m p = record m {
  records = update_at p (λ r. begin_callback r r.progress) m.records;
  delivered = m.delivered ++ deliveries p (get_elem? m.records p);
}

-- `j.jobs[rec.id] == rec`
abbrev pub holds : Option ℕ → ℕ → Bool
holds none p = false
holds (some q) p = q == p

abbrev pub cleaned_jobs : Manager → ℕ → Option JobRecord → List (Text × ℕ)
cleaned_jobs m p none = m.jobs
cleaned_jobs m p (some r) =
    if is_cleaning r.progress && holds (lookup r.id m.jobs) p then remove r.id m.jobs else m.jobs

unfoldable pub clean_up : Manager → ℕ → Manager
clean_up m p = record m {
  jobs = cleaned_jobs m p (get_elem? m.records p);
  records = update_at p (λ r. end_cleaning r r.progress) m.records;
}

abbrev pub kill_found : Manager → Text → ℕ → JobRecord → Manager × Reply
kill_found m session p r =
    if is_reserved r.state || not (same r.session_id session)
    then (m, failed no_process)
    else if is_exited r.state
    then (m, done)
    else (m, target p)

unfoldable pub kill : Manager → Text → Text → Manager × Reply
kill m session id = at_found (find m id) (m, failed no_process) (kill_found m session)

abbrev pub stop_found : Manager → Text → Text → ℕ → JobRecord → Manager × Reply
stop_found m session id p r =
    if is_reserved r.state
    then (drop_job m id, done)
    else if is_exited r.state || not (same r.session_id session)
    then (m, done)
    else (record m { records = update_at p (mark_reason killed) m.records }, target p)

unfoldable pub stop_job : Manager → Text → Text → Manager × Reply
stop_job m session id = at_found (find m id) (m, done) (stop_found m session id)

unfoldable pub claim_all : List (Text × ℕ) → List JobRecord → List JobRecord
claim_all [] records = records
claim_all ((_, p) ∷ jobs) records = claim_all jobs (update_at p claim_if_running records)

-- The work group is empty.
unfoldable pub all_over : List JobRecord → Bool
all_over [] = true
all_over (r ∷ rs) = not (has_goroutine r.progress) && all_over rs

abbrev pub holds_reserved : Option JobRecord → Bool
holds_reserved none = false
holds_reserved (some r) = is_reserved r.state

unfoldable pub without_reserved : List JobRecord → List (Text × ℕ) → List (Text × ℕ)
without_reserved records [] = []
without_reserved records ((id, p) ∷ jobs) =
    let rest = without_reserved records jobs in
    if holds_reserved (get_elem? records p) then rest else (id, p) ∷ rest

unfoldable pub begin_close : Manager → Manager
unfolding claim_all
begin_close m = record m { closed = true; records = claim_all m.jobs m.records }

unfoldable pub end_close : Manager → Manager
unfolding all_over without_reserved
end_close m =
    if m.closed && all_over m.records
    then record m { jobs = without_reserved m.records m.jobs }
    else m

abbrev live_id : Text → Option JobRecord → List Text → List Text
live_id session none ids = ids
live_id session (some r) ids =
    if is_running r.state && same r.session_id session then r.id ∷ ids else ids

unfoldable pub live_ids : Text → List JobRecord → List (Text × ℕ) → List Text
live_ids session records [] = []
live_ids session records ((_, p) ∷ jobs) =
    live_id session (get_elem? records p) (live_ids session records jobs)

unfoldable pub live : Manager → Text → List Text
unfolding live_ids sort_texts
live m session = sort_texts (live_ids session m.records m.jobs)

abbrev pub change : Manager → ℕ → (JobRecord → JobRecord) → Manager × Reply
change m p f = (record m { records = update_at p f m.records }, done)

unfoldable pub step : Manager → Event → Manager × Reply
step m (reserves id) = reserve m id
step m (aborts id) = abort m id
step m (starts req config spawned) = start m req config spawned
step m (wait_returns p result) = change m p (λ r. settle result r r.progress)
step m (closes_done p) = change m p (λ r. close_done r r.progress)
step m (admits p) = change m p (λ r. admit m.closed r r.progress)
step m (invokes p) = (invoke_callback m p, done)
step m (returns_callback p) = change m p (λ r. end_callback r r.progress)
step m (cleans p) = (clean_up m p, done)
step m (timer_fires p) = change m p fire
step m (marks_killed p) = change m p claim_killed
step m (kills session id) = kill m session id
step m (stops session id) = stop_job m session id
step m begins_close = (begin_close m, done)
step m ends_close = (end_close m, done)

unfoldable pub run : Manager → List Event → Manager
unfolding step
run m [] = m
run m (e ∷ es) = run (step m e).0 es
