-- ===== src/Jobs/Delivery.antt =====
-- How often the exit callbacks of internal/jobs/jobs.go are invoked.
use lightcode.Prelude.{
  ℕ, ◌+◌, ◌≤◌, ◌≡◌, refl, leb, Bool, false, Option, none, some, List, [], ◌∷◌, ◌++◌, arith, ◌==◌,
  if◌then◌else◌, get_elem?, Bool-cases, Option-cases, inl, inr, ap, ◌∙◌, sym,
}
use mathlib.Core.List.{append-nil}
use lightcode.Jobs.{
  JobRecord, StartRequest, Settings, no_process, decode_settings, ExitResult, Manager, new_manager,
  Progress,
}
use lightcode.Jobs.Sections.{
  Event, Reply, failed, reserves, aborts, starts, wait_returns, closes_done, admits, invokes,
  returns_callback, cleans, timer_fires, marks_killed, kills, stops, begins_close, ends_close,
  invoke_callback, clean_up, begin_close, end_close, step, run, reserve, abort, abort_found, start,
  start_found, drop_job, kill, kill_found, stop_job, stop_found, at_found, find,
}
use lightcode.Jobs.Records.{deliveries, begin_callback}
use lightcode.Jobs.Heap.{apply_to, get_elem?-update_at}
use lightcode.Jobs.Lifecycle.{progress_rank}
use lightcode.Jobs.Growth.{AllConsistent, Grows, Grows-get_elem?, Grows-consistent, Later}
use lightcode.Jobs.Advance.{step-Grows}

-- How many callbacks a record has had
abbrev pub delivered_to : ℕ → List ExitResult → ℕ
delivered_to p [] = 0
delivered_to p (d ∷ ds) = (if d.pointer == p then 1 else 0) + delivered_to p ds

abbrev is_invoked : Progress → ℕ
is_invoked p = if leb 5 (progress_rank p) then 1 else 0

abbrev invoked_at : Option JobRecord → ℕ
invoked_at none = 0
invoked_at (some r) = is_invoked r.progress

-- A record has a callback only from the moment its goroutine invokes it.
abbrev Once : Manager → Type 0
Once m = (p : ℕ) → delivered_to p m.delivered ≤ invoked_at (get_elem? m.records p)

pub delivered_to-++ :
    (p : ℕ) (xs ys : List ExitResult)
    → delivered_to p (xs ++ ys) ≡ delivered_to p xs + delivered_to p ys
delivered_to-++ p [] ys = ground arith
delivered_to-++ p (x ∷ xs) ys = ground (arith, delivered_to-++ p xs ys)

invoked_at-Later :
    (r : JobRecord) (o : Option JobRecord) → Later r o → invoked_at (some r) ≤ invoked_at o
invoked_at-Later r none g = elim g [ ]
invoked_at-Later r (some r') g = ground (arith, g.progress_forward)

invoked_at-Grows :
    (rs rs' : List JobRecord) (p : ℕ)
    → Grows rs rs'
    → invoked_at (get_elem? rs p) ≤ invoked_at (get_elem? rs' p)
invoked_at-Grows rs rs' p g = elim (Option-cases (get_elem? rs p)) [
  | inl h ↦ rw h (ground arith)
  | inr (r, h) ↦ rw h (invoked_at-Later r (get_elem? rs' p) (Grows-get_elem? rs rs' p g h))
]

-- Only one event calls a callback.
abbrev pub calls : Manager → Event → List ExitResult
calls m (invokes p) = deliveries p (get_elem? m.records p)
calls m _ = []

found_delivered :
    (m : Manager) (o : Option (ℕ × JobRecord)) (x : Manager × Reply)
    (f : ℕ → JobRecord → Manager × Reply)
    → x.0.delivered ≡ m.delivered
    → ((p : ℕ) (r : JobRecord) → (f p r).0.delivered ≡ m.delivered)
    → (at_found o x f).0.delivered ≡ m.delivered
found_delivered m none x f h k = h
found_delivered m (some (p, r)) x f h k = k p r

start_delivered :
    (m : Manager) (req : StartRequest) (s : Option Settings) (spawned : Bool)
    → (start m req s spawned).0.delivered ≡ m.delivered
unfolding start drop_job
start_delivered m req s spawned =
    let k =
      found_delivered m (find m req.job_id) (m, failed no_process) (start_found m req s spawned)
        refl
        (λ p r. elim (Option-cases (decode_settings s)) [
          | inl h ↦ ground arith
          | inr (v, h) ↦ ground arith
        ]) in
    ground (arith, k)

-- The callbacks of a section are appended.
pub step-delivered : (m : Manager) (e : Event) → (step m e).0.delivered ≡ m.delivered ++ calls m e
unfolding step invoke_callback clean_up begin_close end_close reserve abort drop_job kill stop_job
step-delivered m (reserves none) = sym (append-nil m.delivered)
step-delivered m (reserves (some id)) = ground (arith, append-nil m.delivered)
step-delivered m (aborts id) =
    found_delivered m (find m id) _ (abort_found m id) refl (λ p r. ground arith)
    ∙ sym (append-nil m.delivered)
step-delivered m (starts req s spawned) =
    start_delivered m req s spawned ∙ sym (append-nil m.delivered)
step-delivered m (wait_returns p w) = sym (append-nil m.delivered)
step-delivered m (closes_done p) = sym (append-nil m.delivered)
step-delivered m (admits p) = sym (append-nil m.delivered)
step-delivered m (invokes p) = refl
step-delivered m (returns_callback p) = sym (append-nil m.delivered)
step-delivered m (cleans p) = sym (append-nil m.delivered)
step-delivered m (timer_fires p) = sym (append-nil m.delivered)
step-delivered m (marks_killed p) = sym (append-nil m.delivered)
step-delivered m (kills session id) =
    found_delivered m (find m id) _ (kill_found m session) refl (λ p r. ground arith)
    ∙ sym (append-nil m.delivered)
step-delivered m (stops session id) =
    found_delivered m (find m id) _ (stop_found m session id) refl (λ p r. ground arith)
    ∙ sym (append-nil m.delivered)
step-delivered m begins_close = sym (append-nil m.delivered)
step-delivered m ends_close = ground (arith, append-nil m.delivered)

pub deliveries_elsewhere :
    (p q : ℕ) (o : Option JobRecord) → (p == q) ≡ false → delivered_to q (deliveries p o) ≡ 0
deliveries_elsewhere p q none h = refl
deliveries_elsewhere p q (some r) h = ground arith

-- An invocation uses up the one callback of its record.
deliveries_here :
    (p : ℕ) (o : Option JobRecord)
    → delivered_to p (deliveries p o) + invoked_at o
      ≤ invoked_at (apply_to (λ r. begin_callback r r.progress) o)
deliveries_here p none = ground arith
deliveries_here p (some r) = ground arith

calls-invokes :
    (m : Manager) (p q : ℕ)
    → delivered_to q (calls m (invokes p)) + invoked_at (get_elem? m.records q)
      ≤ invoked_at (get_elem? (step m (invokes p)).0.records q)
unfolding step invoke_callback
calls-invokes m p q = rw get_elem?-update_at (elim (Bool-cases (p == q)) [
  | inl h ↦ ground (arith, deliveries_here p (get_elem? m.records p))
  | inr h ↦ ground (arith, deliveries_elsewhere p q (get_elem? m.records p) h)
])

quiet-Once :
    (m : Manager) (e : Event)
    → AllConsistent m.records
    → Once m
    → calls m e ≡ []
    → Once (step m e).0
quiet-Once m e c o q p =
    let same_calls : (step m e).0.delivered ≡ m.delivered =
      step-delivered m e ∙ ap (λ d. m.delivered ++ d) q ∙ append-nil m.delivered in
    rw same_calls
      (ground (arith, o p, invoked_at-Grows m.records (step m e).0.records p (step-Grows m c e)))

invokes-Once : (m : Manager) (q : ℕ) → Once m → Once (step m (invokes q)).0
invokes-Once m q o p = ground (
  arith,
  o p,
  calls-invokes m q p,
  step-delivered m (invokes q),
  delivered_to-++ p m.delivered (calls m (invokes q)),
)

step-Once : (m : Manager) (e : Event) → AllConsistent m.records → Once m → Once (step m e).0
step-Once m (invokes q) c o = invokes-Once m q o
step-Once m e c o = quiet-Once m e c o refl

run-Once : (m : Manager) (es : List Event) → AllConsistent m.records → Once m → Once (run m es)
unfolding run
run-Once m [] c o = o
run-Once m (e ∷ es) c o =
    run-Once (step m e).0 es (Grows-consistent m.records _ (step-Grows m c e)) (step-Once m e c o)

invoked_at_le : (o : Option JobRecord) → invoked_at o ≤ 1
invoked_at_le none = ground arith
invoked_at_le (some r) = ground arith

-- However the locked sections of callers, exit goroutines, timers and Close interleave, the exit
-- callback of a record is invoked at most once.
pub run-delivered_to : (es : List Event) (p : ℕ) → delivered_to p (run new_manager es).delivered ≤ 1
run-delivered_to es p = ground (
  arith,
  run-Once new_manager es tt (λ q. ground arith) p,
  invoked_at_le (get_elem? (run new_manager es).records p),
)
