-- ===== src/Jobs/Advance.antt =====
-- Every locked section of internal/jobs/jobs.go, and every run of them, moves all records forward.
use lightcode.Prelude.{
  ℕ, ◌≡◌, ◌⊎◌, refl, Bool, true, false, Option, none, some, List, [], ◌∷◌, Text, arith,
  if◌then◌else◌, get_elem?, Bool-cases, inl, inr,
}
use mathlib.Core.Path.{subst}
use lightcode.Prelude.Assoc.{text_key, lookup}
use lightcode.Jobs.{
  JobRecord, Manager, Settings, StartRequest, killed, decode_settings, new_manager, manager_closed,
  no_process,
}
use lightcode.Jobs.Sections.{
  Event, Reply, failed, reserves, aborts, starts, wait_returns, closes_done, admits, invokes,
  returns_callback, cleans, timer_fires, marks_killed, kills, stops, begins_close, ends_close, find,
  found, at_found, reserve, drop_job, abort, start_reserved, start_found, stop_found, start,
  invoke_callback, clean_up, claim_all, kill, stop_job, begin_close, end_close, step, run,
}
use lightcode.Jobs.Records.{
  update_at, mark_reason, started, fire, claim_killed, claim_if_running, is_reserved,
  reserved_record,
}
use lightcode.Jobs.Lifecycle.{
  Advances, IsConsistent, settle-Advances, close_done-Advances, admit-Advances,
  begin_callback-Advances, end_callback-Advances, end_cleaning-Advances, mark_reason-Advances,
  started-Advances, fire-Advances, claim_killed-Advances, claim_if_running-Advances,
}
use lightcode.Jobs.Growth.{
  AllConsistent, Grows, Grows-refl, Grows-consistent, Grows-trans, Later, Grows-get_elem?,
  update_at-Grows, snoc-Grows,
}

claim_all-Grows :
    (jobs : List (Text × ℕ)) (rs : List JobRecord) → AllConsistent rs → Grows rs (claim_all jobs rs)
unfolding claim_all
claim_all-Grows [] rs c = Grows-refl rs c
claim_all-Grows ((id, p) ∷ jobs) rs c =
    let one : Grows rs (update_at p claim_if_running rs) =
      update_at-Grows p claim_if_running rs c (λ r k _. claim_if_running-Advances r k) in
    Grows-trans rs _ _ one (claim_all-Grows jobs _ (Grows-consistent rs _ one))

-- The change that a section makes to one record
changes :
    (m : Manager) (p : ℕ) (f : JobRecord → JobRecord)
    → AllConsistent m.records
    → ((r : JobRecord) → IsConsistent r → Advances r (f r))
    → Grows m.records (update_at p f m.records)
changes m p f c h = update_at-Grows p f m.records c (λ r k _. h r k)

reserve-Grows :
    (m : Manager) (id : Option Text)
    → AllConsistent m.records
    → Grows m.records (reserve m id).0.records
unfolding reserve
reserve-Grows m none c = Grows-refl m.records c
reserve-Grows m (some id) c = elim (Bool-cases m.closed) [
  | inl h ↦ rw h (Grows-refl m.records c)
  | inr h ↦ rw h (snoc-Grows m.records (reserved_record id) c (refl, tt))
]

-- What a lookup through the map finds stands under its pointer.
pub found-get_elem? :
    (m : Manager) (o : Option ℕ) {p : ℕ} {r : JobRecord}
    → found m o ≡ some (p, r)
    → get_elem? m.records p ≡ some r
found-get_elem? m none h = cc
found-get_elem? m (some q) h = ground arith

found-Grows :
    (rs : List JobRecord) (o : Option (ℕ × JobRecord)) (x : Manager × Reply)
    (f : ℕ → JobRecord → Manager × Reply)
    → Grows rs x.0.records
    → ((p : ℕ) (r : JobRecord) → o ≡ some (p, r) → Grows rs (f p r).0.records)
    → Grows rs (at_found o x f).0.records
found-Grows rs none x f h k = h
found-Grows rs (some (p, r)) x f h k = k p r refl

either-Grows :
    (rs : List JobRecord) (b : Bool) (x y : Manager × Reply)
    → Grows rs x.0.records
    → Grows rs y.0.records
    → Grows rs (if b then x else y).0.records
either-Grows rs true x y h k = h
either-Grows rs false x y h k = k

module _ (m : Manager) (c : AllConsistent m.records) where
  same-Grows : (rs : List JobRecord) → rs ≡ m.records → Grows m.records rs
  same-Grows rs h = rw h (Grows-refl m.records c)

  started-Grows :
      (req : StartRequest) (p : ℕ) (s : Settings) (r : JobRecord)
      → get_elem? m.records p ≡ some r
      → is_reserved r.state ≡ true
      → Grows m.records (update_at p (started req s) m.records)
  started-Grows req p s r h k = update_at-Grows p (started req s) m.records c (λ r' c' h'.
      started-Advances r' c' req s
        (subst (λ (v : JobRecord). is_reserved v.state ≡ true) {x = r} {y = r'} (ground arith) k))

  start_reserved_cases :
      (req : StartRequest) (spawned : Bool) (p : ℕ) (s : Settings)
      → ((start_reserved m req spawned p (some s)).0.records ≡ m.records)
        ⊎ ((start_reserved m req spawned p (some s)).0.records
            ≡ update_at p (started req s) m.records)
  unfolding drop_job
  start_reserved_cases req spawned p s = ground arith

  start_reserved-Grows :
      (req : StartRequest) (spawned : Bool) (p : ℕ) (s : Option Settings) (r : JobRecord)
      → get_elem? m.records p ≡ some r
      → is_reserved r.state ≡ true
      → Grows m.records (start_reserved m req spawned p s).0.records
  unfolding drop_job
  start_reserved-Grows req spawned p none r h k = same-Grows _ refl
  start_reserved-Grows req spawned p (some s) r h k = elim (start_reserved_cases req spawned p s) [
    | inl e ↦ same-Grows _ e
    | inr e ↦ rw e (started-Grows req p s r h k)
  ]

  start_found-Grows :
      (req : StartRequest) (s : Option Settings) (spawned : Bool) (p : ℕ) (r : JobRecord)
      → get_elem? m.records p ≡ some r
      → Grows m.records (start_found m req s spawned p r).0.records
  start_found-Grows req s spawned p r h = elim (Bool-cases (is_reserved r.state)) [
    | inl e ↦ (simp (e) (start_reserved-Grows req spawned p (decode_settings s) r h e))
    | inr e ↦ same-Grows _ (ground arith)
  ]

  start-Grows :
      (req : StartRequest) (s : Option Settings) (spawned : Bool)
      → Grows m.records (start m req s spawned).0.records
  unfolding start find
  start-Grows req s spawned =
      let refused : Manager × Reply = (m, failed no_process) in
      either-Grows m.records m.closed (m, failed manager_closed)
        (at_found (find m req.job_id) refused (start_found m req s spawned)) (same-Grows _ refl)
        (found-Grows _ (find m req.job_id) refused (start_found m req s spawned) (same-Grows _ refl)
          (λ p r h.
            start_found-Grows req s spawned p r (found-get_elem? m (lookup req.job_id m.jobs) h)))

  abort-Grows : (id : Text) → Grows m.records (abort m id).0.records
  unfolding abort drop_job
  abort-Grows id =
      found-Grows _ (find m id) _ _ (same-Grows _ refl) (λ p r h. same-Grows _ (ground arith))

  kill-Grows : (session id : Text) → Grows m.records (kill m session id).0.records
  unfolding kill
  kill-Grows session id =
      found-Grows _ (find m id) _ _ (same-Grows _ refl) (λ p r h. same-Grows _ (ground arith))

  stop_found-Grows :
      (session id : Text) (p : ℕ) (r : JobRecord)
      → ((stop_found m session id p r).0.records ≡ m.records)
        ⊎ ((stop_found m session id p r).0.records ≡ update_at p (mark_reason killed) m.records)
  unfolding drop_job
  stop_found-Grows session id p r = ground arith

  stop_job-Grows : (session id : Text) → Grows m.records (stop_job m session id).0.records
  unfolding stop_job
  stop_job-Grows session id = found-Grows _ (find m id) _ _ (same-Grows _ refl) (λ p r h.
      elim (stop_found-Grows session id p r) [
        | inl e ↦ same-Grows _ e
        | inr e ↦
            rw e (changes m p (mark_reason killed) c (λ r' k. mark_reason-Advances r' k killed))
      ])

  pub step-Grows : (e : Event) → Grows m.records (step m e).0.records
  unfolding step invoke_callback clean_up begin_close end_close
  step-Grows (reserves id) = reserve-Grows m id c
  step-Grows (aborts id) = abort-Grows id
  step-Grows (starts req s spawned) = start-Grows req s spawned
  step-Grows (wait_returns p w) = changes m p _ c (λ r k. settle-Advances r k w)
  step-Grows (closes_done p) = changes m p _ c close_done-Advances
  step-Grows (admits p) = changes m p _ c (λ r k. admit-Advances r k m.closed)
  step-Grows (invokes p) = changes m p _ c begin_callback-Advances
  step-Grows (returns_callback p) = changes m p _ c end_callback-Advances
  step-Grows (cleans p) = changes m p _ c end_cleaning-Advances
  step-Grows (timer_fires p) = changes m p fire c fire-Advances
  step-Grows (marks_killed p) = changes m p claim_killed c claim_killed-Advances
  step-Grows (kills session id) = kill-Grows session id
  step-Grows (stops session id) = stop_job-Grows session id
  step-Grows begins_close = claim_all-Grows m.jobs m.records c
  step-Grows ends_close = same-Grows _ (ground arith)

pub run-Grows :
    (m : Manager) (es : List Event) → AllConsistent m.records → Grows m.records (run m es).records
unfolding run
run-Grows m [] c = Grows-refl m.records c
run-Grows m (e ∷ es) c =
    let first : Grows m.records (step m e).0.records = step-Grows m c e in
    Grows-trans m.records _ _ first (run-Grows (step m e).0 es (Grows-consistent m.records _ first))

-- In every run of a manager's locked sections from its creation, a record that stands under a
-- pointer is still there after any further sections, with the same identity. Its state and its
-- exit goroutine never go back, the first exit reason that was written stays, and once it has
-- exited its reason and its exit code are final.
pub run-Advances :
    (past future : List Event) (p : ℕ) (r : JobRecord)
    → get_elem? (run new_manager past).records p ≡ some r
    → Later r (get_elem? (run (run new_manager past) future).records p)
run-Advances past future p r h =
    let m : Manager = run new_manager past in
    let c : AllConsistent m.records = run-Grows new_manager past tt in
    Grows-get_elem? m.records (run m future).records p (run-Grows m future c) h
