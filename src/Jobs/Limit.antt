-- ===== src/Jobs/Limit.antt =====
-- The limit on running jobs of internal/jobs/jobs.go.
use lightcode.Prelude.{
  if_cases, ℕ, ◌≤◌, ◌≡◌, refl, Bool, true, false, not, ◌&&◌, Option, none, some, List, [], ◌∷◌,
  Text, same, same_iff, arith, Bool-cases, inl, inr, ap,
}
use lightcode.Prelude.Int.{pos, ltb_ℤ}
use lightcode.Prelude.Assoc.{text_key}
use lightcode.Jobs.{
  JobRecord, Manager, Settings, StartRequest, new_manager, decode_settings, manager_closed,
  no_process, limit_reached, spawn_failed,
}
use lightcode.Jobs.Sections.{
  Event, Reply, done, failed, starts, step, run, start, start_found, start_reserved, drop_job, find,
  running_count, runs_for,
}
use lightcode.Jobs.Records.{update_at, started, is_reserved}
use lightcode.Jobs.Heap.{length-update_at}
use lightcode.Jobs.Cases.{found-cases}
use lightcode.Jobs.Counts.{running_count-StartsNone, running_count-update_at, update_at-StartsNone}
use lightcode.Jobs.Calm.{HeldOnce, count, Calm, drop_job-Calm, step-Calm}

-- The limit that a settings section asks for, if it is accepted, is at most this.
abbrev pub allows : ℕ → Option Settings → Bool
allows limit none = true
allows limit (some s) = not (ltb_ℤ (pos limit) s.max_background_processes)

abbrev pub asks_within : ℕ → List Event → Bool
asks_within limit [] = true
asks_within limit (starts req config spawned ∷ es) =
    allows limit (decode_settings config) && asks_within limit es
asks_within limit (e ∷ es) = asks_within limit es

pub record Limited (limit : ℕ) (m : Manager) : Type 0 where
  held : HeldOnce m
  within : (session : Text) → count session m ≤ limit

Calm-Limited :
    (limit : ℕ) (m : Manager) (out : Manager × Reply)
    → Calm m out
    → Limited limit m
    → Limited limit out.0
Calm-Limited limit m out c g = record {
  held = c.held g.held;
  within = λ session. ground (arith, c.fewer session g.held, g.within session);
}

-- The start of another session's job
started_elsewhere :
    (session : Text) (req : StartRequest) (s : Settings)
    → same req.session_id session ≡ false
    → (r : JobRecord) → runs_for session (some (started req s r)) ≡ true
    → runs_for session (some r) ≡ true
started_elsewhere session req s h r k = ground arith

module _ (limit : ℕ) (m : Manager) (g : Limited limit m) (req : StartRequest) where
  started_count :
      (p : ℕ) (s : Settings)
      → allows limit (some s) ≡ true
      → ltb_ℤ (pos (running_count req.session_id m.records m.jobs)) s.max_background_processes
        ≡ true
      → (session : Text)
      → running_count session (update_at p (started req s) m.records) m.jobs ≤ limit
  started_count p s a l session = elim (Bool-cases (same req.session_id session)) [
    | inl h ↦ ground (
      arith,
      a,
      l,
      g.held p,
      ap (λ x. running_count x m.records m.jobs) ((same_iff req.session_id session).0 h),
      running_count-update_at session p (started req s) m.records m.jobs,
    )
    | inr h ↦ ground (
      arith,
      g.within session,
      running_count-StartsNone session m.records (update_at p (started req s) m.records) m.jobs (
          update_at-StartsNone session p (started req s) m.records
            (started_elsewhere session req s h)),
    )
  ]

  started-Limited :
      (p : ℕ) (s : Settings)
      → allows limit (some s) ≡ true
      → ltb_ℤ (pos (running_count req.session_id m.records m.jobs)) s.max_background_processes
        ≡ true
      → Limited limit (record m { records = update_at p (started req s) m.records })
  started-Limited p s a l = record {
    held = λ q. rw (length-update_at p (started req s) m.records) (g.held q);
    within = started_count p s a l;
  }

  start_reserved-Limited :
      (spawned : Bool) (p : ℕ) (s : Option Settings)
      → allows limit s ≡ true
      → Limited limit (start_reserved m req spawned p s).0
  start_reserved-Limited spawned p none a = Calm-Limited limit m _ (drop_job-Calm m _ done) g
  start_reserved-Limited spawned p (some s) a =
      let ok : Bool =
        ltb_ℤ (pos (running_count req.session_id m.records m.jobs)) s.max_background_processes in
      let refused : (e : Reply) → Limited limit (drop_job m req.job_id) =
        λ e. Calm-Limited limit m (drop_job m req.job_id, e) (drop_job-Calm m _ e) g in
      if_cases (λ (out : Manager × Reply). Limited limit out.0) (not ok)
        (drop_job m req.job_id, failed limit_reached) _ (λ _. refused done)
        (λ h.
          if_cases (λ (out : Manager × Reply). Limited limit out.0) (not spawned)
            (drop_job m req.job_id, failed spawn_failed) _ (λ _. refused done)
            (λ _. started-Limited p s a (ground arith)))

  start_found-Limited :
      (spawned : Bool) (s : Option Settings)
      → allows limit (decode_settings s) ≡ true
      → (p : ℕ) (r : JobRecord) → Limited limit (start_found m req s spawned p r).0
  start_found-Limited spawned s a p r =
      if_cases (λ (out : Manager × Reply). Limited limit out.0) (not (is_reserved r.state))
        (m, failed no_process) _ (λ _. g)
        (λ _. start_reserved-Limited spawned p (decode_settings s) a)

  start-Limited :
      (spawned : Bool) (s : Option Settings)
      → allows limit (decode_settings s) ≡ true
      → Limited limit (start m req s spawned).0
  unfolding start
  start-Limited spawned s a =
      if_cases (λ (out : Manager × Reply). Limited limit out.0) m.closed (m, failed manager_closed)
        _ (λ _. g)
        (λ _.
          found-cases (λ out. Limited limit out.0) (find m req.job_id) (m, failed no_process)
            (start_found m req s spawned) g (start_found-Limited spawned s a))

run-Limited :
    (limit : ℕ) (m : Manager) (es : List Event)
    → asks_within limit es ≡ true
    → Limited limit m
    → Limited limit (run m es)
unfolding run step
run-Limited limit m [] a g = g
run-Limited limit m (starts req s spawned ∷ es) a g =
    run-Limited limit (start m req s spawned).0 es (ground (arith, a))
      (start-Limited limit m g req spawned s (ground (arith, a)))
run-Limited limit m (e ∷ es) a g =
    run-Limited limit (step m e).0 es a (Calm-Limited limit m (step m e) (step-Calm m e refl) g)

allows-fifty : (s : Option Settings) → allows 50 (decode_settings s) ≡ true
unfolding decode_settings
allows-fifty none = refl
allows-fifty (some s) = ground arith

asks_within-fifty : (es : List Event) → asks_within 50 es ≡ true
asks_within-fifty [] = refl
asks_within-fifty (starts req s spawned ∷ es) = ground (arith, asks_within-fifty es, allows-fifty s)
asks_within-fifty (e ∷ es) = asks_within-fifty es

new_manager-Limited : (limit : ℕ) → Limited limit new_manager
unfolding running_count
new_manager-Limited limit = record { held = λ q. ground arith; within = λ s. ground arith }

pub run-HeldOnce : (es : List Event) → HeldOnce (run new_manager es)
run-HeldOnce es =
    (run-Limited 50 new_manager es (asks_within-fifty es) (new_manager-Limited 50)).held

-- In any run of a manager's locked sections from its creation, whatever the interleaving of
-- callers, exit goroutines, timers and Close, a session never has more running jobs in the map
-- than the largest limit of the settings that the starts came with.
pub run-running_count :
    (limit : ℕ) (es : List Event) (session : Text)
    → asks_within limit es ≡ true
    → running_count session (run new_manager es).records (run new_manager es).jobs ≤ limit
run-running_count limit es session a =
    (run-Limited limit new_manager es a (new_manager-Limited limit)).within session

-- Whatever the settings of the starts say, no session has more than 50 running jobs.
pub run-running_count-fifty :
    (es : List Event) (session : Text)
    → running_count session (run new_manager es).records (run new_manager es).jobs ≤ 50
run-running_count-fifty es session = run-running_count 50 es session (asks_within-fifty es)
