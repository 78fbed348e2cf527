-- ===== src/Jobs/Lifecycle.antt =====
-- The life of a record of internal/jobs/jobs.go: it only goes forward, and its first reason stays.
use lightcode.Prelude.{ℕ, ◌≤◌, ◌≡◌, Bool, true, false, Option, none, some, arith, if◌then◌else◌}
use lightcode.Prelude.Assoc.{text_key}
use lightcode.Jobs.{
  JobState, Reason, Progress, JobRecord, Settings, StartRequest, reserved, running, exited, killed,
  timeout, idle, waiting, settled, reaped, admitted, calling, cleaning, over,
}
use lightcode.Jobs.Records.{
  WaitResult, mark_reason, started, settle, close_done, admit, begin_callback, end_callback,
  end_cleaning, fire, claim_killed, claim_if_running, is_reserved, is_running,
}

abbrev pub state_rank : JobState → ℕ
state_rank reserved = 0
state_rank running = 1
state_rank exited = 2

abbrev pub progress_rank : Progress → ℕ
progress_rank idle = 0
progress_rank waiting = 1
progress_rank settled = 2
progress_rank reaped = 3
progress_rank admitted = 4
progress_rank calling = 5
progress_rank cleaning = 6
progress_rank over = 7

-- A record's state and its exit goroutine agree.
abbrev pub Agrees : JobState → Progress → Type 0
Agrees reserved p = p ≡ idle
Agrees running p = p ≡ waiting
Agrees exited p = 2 ≤ progress_rank p

-- What the goroutine of an exited job holds is the record's reason and exit code.
abbrev pub Knows : JobState → JobRecord → Type 0
Knows reserved r = Unit {0}
Knows running r = Unit {0}
Knows exited r = (r.local_reason ≡ r.reason) × (r.local_code ≡ r.exit_code)

abbrev pub IsConsistent : JobRecord → Type 0
IsConsistent r = Agrees r.state r.progress × Knows r.state r

-- What may happen to a record: its identity stays, state and goroutine go forward, a reason that it
-- has stays, and once it has exited its reason and exit code are final.
abbrev Keeps : Option Reason → Option Reason → Type 0
Keeps none new = Unit {0}
Keeps (some x) new = new ≡ some x

abbrev Final : JobState → JobRecord → JobRecord → Type 0
Final reserved r r' = Unit {0}
Final running r r' = Unit {0}
Final exited r r' = (r'.reason ≡ r.reason) × (r'.exit_code ≡ r.exit_code)

pub record Advances (r r' : JobRecord) : Type 0 where
  pub same_id : r'.id ≡ r.id
  pub state_forward : state_rank r.state ≤ state_rank r'.state
  pub progress_forward : progress_rank r.progress ≤ progress_rank r'.progress
  pub reason_kept : Keeps r.reason r'.reason
  pub final : Final r.state r r'
  pub consistent : IsConsistent r'

pub Advances-refl : (r : JobRecord) → IsConsistent r → Advances r r
Advances-refl r c = ground arith

pub Advances-trans : (a b c : JobRecord) → Advances a b → Advances b c → Advances a c
Advances-trans a b c x y = ground (
  arith, x.same_id, y.same_id, x.state_forward, y.state_forward, x.progress_forward,
  y.progress_forward, x.reason_kept, y.reason_kept, x.final, y.final, y.consistent,
)

module _ (r : JobRecord) (c : IsConsistent r) where
  pub settle-Advances : (result : WaitResult) → Advances r (settle result r r.progress)
  settle-Advances result = ground arith

  pub close_done-Advances : Advances r (close_done r r.progress)
  close_done-Advances = ground arith

  pub admit-Advances : (closed : Bool) → Advances r (admit closed r r.progress)
  admit-Advances closed = ground arith

  pub begin_callback-Advances : Advances r (begin_callback r r.progress)
  begin_callback-Advances = ground arith

  pub end_callback-Advances : Advances r (end_callback r r.progress)
  end_callback-Advances = ground arith

  pub end_cleaning-Advances : Advances r (end_cleaning r r.progress)
  end_cleaning-Advances = ground arith

  pub mark_reason-Advances : (x : Reason) → Advances r (mark_reason x r)
  unfolding mark_reason
  mark_reason-Advances x = ground arith

  pub started-Advances :
      (req : StartRequest) (s : Settings)
      → is_reserved r.state ≡ true
      → Advances r (started req s r)
  started-Advances req s h = ground arith

  pub either-Advances :
      (b : Bool) (x y : JobRecord) → Advances r x → Advances r y → Advances r (if b then x else y)
  either-Advances true x y h k = h
  either-Advances false x y h k = k

  pub fire-Advances : Advances r (fire r)
  fire-Advances =
      either-Advances r.has_timeout _ r (mark_reason-Advances timeout) (Advances-refl r c)

  pub claim_killed-Advances : Advances r (claim_killed r)
  claim_killed-Advances =
      either-Advances (is_reserved r.state) r _ (Advances-refl r c) (mark_reason-Advances killed)

  pub claim_if_running-Advances : Advances r (claim_if_running r)
  claim_if_running-Advances =
      either-Advances (is_running r.state) _ r (mark_reason-Advances killed) (Advances-refl r c)
