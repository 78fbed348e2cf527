-- ===== src/Jobs/Close.antt =====
-- Close of internal/jobs/jobs.go and what it stops.
use mathlib.Core.Path.{subst}
use lightcode.Prelude.{
  Bool-cases, inl, inr, ==_iff, ◌==◌, not, ◌||◌, same, false, if_cases, ℕ, ◌≤◌, ◌≡◌, refl, Bool,
  true, Option, none, some, List, [], ◌∷◌, Text, arith, length, get_elem?, ap, ◌∙◌, sym,
}
use lightcode.Jobs.{
  JobRecord, Manager, new_manager, Settings, StartRequest, manager_closed, killed, timeout, Reason,
}
use lightcode.Jobs.Sections.{
  Event, Reply, failed, done, reserves, aborts, starts, wait_returns, closes_done, admits, invokes,
  returns_callback, cleans, timer_fires, marks_killed, kills, stops, begins_close, ends_close,
  reserve, abort, abort_found, start, kill, kill_found, stop_job, stop_found, drop_job,
  invoke_callback, clean_up, begin_close, end_close, claim_all, find, step, run,
}
use lightcode.Jobs.Records.{
  update_at, mark_reason, deliveries, is_admitted, is_reserved, is_exited, WaitResult, settle,
  close_done, admit, begin_callback, end_callback, end_cleaning, fire, claim_killed,
  claim_if_running,
}
use lightcode.Jobs.Heap.{apply_to, get_elem?-update_at, length-update_at}
use lightcode.Jobs.Delivery.{delivered_to, delivered_to-++, deliveries_elsewhere}
use lightcode.Jobs.Cases.{found-cases}
use lightcode.Jobs.Calm.{HeldOnce, count, Calm, same-Calm, step-Calm, begin_close-Calm}
use lightcode.Jobs.Limit.{run-HeldOnce}
use lightcode.Jobs.Counts.{length-claim_all}

-- Whether a goroutine stands between the admission of its callback and the invocation
abbrev pub stands_admitted : Option JobRecord → Bool
stands_admitted none = false
stands_admitted (some r) = is_admitted r.progress

-- A record that is not between the two is neither brought there nor called.
abbrev Silent : ℕ → Manager → Manager → Type 0
Silent p m m' =
    stands_admitted (get_elem? m.records p) ≡ false
    → (stands_admitted (get_elem? m'.records p) ≡ false)
      × (delivered_to p m'.delivered ≡ delivered_to p m.delivered)

-- A change of one record that does not admit it
abbrev AdmitsNone : (JobRecord → JobRecord) → Type 0
AdmitsNone f = (r : JobRecord) → is_admitted r.progress ≡ false → is_admitted (f r).progress ≡ false

apply_to-AdmitsNone :
    (f : JobRecord → JobRecord) (o : Option JobRecord)
    → AdmitsNone f
    → stands_admitted o ≡ false
    → stands_admitted (apply_to f o) ≡ false
apply_to-AdmitsNone f none k h = refl
apply_to-AdmitsNone f (some r) k h = k r h

update_at-AdmitsNone :
    (p q : ℕ) (f : JobRecord → JobRecord) (rs : List JobRecord)
    → AdmitsNone f
    → stands_admitted (get_elem? rs q) ≡ false
    → stands_admitted (get_elem? (update_at p f rs) q) ≡ false
update_at-AdmitsNone p q f rs k h = rw (get_elem?-update_at p q f rs) (
    if_cases (λ o. stands_admitted o ≡ false) (p == q) (apply_to f (get_elem? rs q))
      (get_elem? rs q) (λ _. apply_to-AdmitsNone f (get_elem? rs q) k h) (λ _. h))

mark_reason-AdmitsNone : (x : Reason) → AdmitsNone (mark_reason x)
unfolding mark_reason
mark_reason-AdmitsNone x r h = ground arith

settle-AdmitsNone : (w : WaitResult) → AdmitsNone (λ r. settle w r r.progress)
settle-AdmitsNone w r h = ground arith

close_done-AdmitsNone : AdmitsNone (λ r. close_done r r.progress)
close_done-AdmitsNone r h = ground arith

begin_callback-AdmitsNone : AdmitsNone (λ r. begin_callback r r.progress)
begin_callback-AdmitsNone r h = ground arith

end_callback-AdmitsNone : AdmitsNone (λ r. end_callback r r.progress)
end_callback-AdmitsNone r h = ground arith

end_cleaning-AdmitsNone : AdmitsNone (λ r. end_cleaning r r.progress)
end_cleaning-AdmitsNone r h = ground arith

fire-AdmitsNone : AdmitsNone fire
fire-AdmitsNone r h = ground (arith, mark_reason-AdmitsNone timeout r)

claim_killed-AdmitsNone : AdmitsNone claim_killed
claim_killed-AdmitsNone r h = ground (arith, mark_reason-AdmitsNone killed r)

claim_if_running-AdmitsNone : AdmitsNone claim_if_running
claim_if_running-AdmitsNone r h = ground (arith, mark_reason-AdmitsNone killed r)

claim_all-AdmitsNone :
    (jobs : List (Text × ℕ)) (q : ℕ) (rs : List JobRecord)
    → stands_admitted (get_elem? rs q) ≡ false
    → stands_admitted (get_elem? (claim_all jobs rs) q) ≡ false
unfolding claim_all
claim_all-AdmitsNone [] q rs h = h
claim_all-AdmitsNone ((j, p) ∷ jobs) q rs h =
    claim_all-AdmitsNone jobs q (update_at p claim_if_running rs)
      (update_at-AdmitsNone p q claim_if_running rs claim_if_running-AdmitsNone h)

-- A closed manager admits nobody.
admit-AdmitsNone : (closed : Bool) → closed ≡ true → AdmitsNone (λ r. admit closed r r.progress)
admit-AdmitsNone closed e r h = ground (arith, e)

-- A section of a closed manager adds no record, admits no callback, calls only an admitted one, and
-- leaves it closed.
record Stays (m : Manager) (out : Manager × Reply) : Type 0 where
  closed : out.0.closed ≡ m.closed
  records : length out.0.records ≡ length m.records
  silent : (p : ℕ) → Silent p m out.0

unadmitted_here :
    (p q : ℕ) (o : Option JobRecord)
    → stands_admitted o ≡ false
    → delivered_to q (deliveries p o) ≡ 0
unadmitted_here p q none k = refl
unadmitted_here p q (some r) k = ground (arith, k)

module _ (m : Manager) (h : m.closed ≡ true) where
  same-Stays :
      (out : Manager) (reply : Reply)
      → out.closed ≡ m.closed
      → out.records ≡ m.records
      → out.delivered ≡ m.delivered
      → Stays m (out, reply)
  same-Stays out reply a b c = record {
    closed = a;
    records = ap length b;
    silent = λ p k. rw (b, c) (k, refl);
  }

  update_at-Stays :
      (p : ℕ) (f : JobRecord → JobRecord) (reply : Reply)
      → AdmitsNone f
      → Stays m (record m { records = update_at p f m.records }, reply)
  update_at-Stays p f reply k = record {
    closed = refl;
    records = length-update_at p f m.records;
    silent = λ q e. (update_at-AdmitsNone p q f m.records k e, refl);
  }

  reserve-Stays : (id : Option Text) → Stays m (reserve m id)
  unfolding reserve
  reserve-Stays none = same-Stays m _ refl refl refl
  reserve-Stays (some id) =
      if_cases (Stays m) m.closed (m, failed manager_closed) _ (λ _. same-Stays m _ refl refl refl)
        (λ k. ground arith)

  start-Stays :
      (req : StartRequest) (s : Option Settings) (spawned : Bool) → Stays m (start m req s spawned)
  unfolding start
  start-Stays req s spawned =
      if_cases (Stays m) m.closed (m, failed manager_closed) _ (λ _. same-Stays m _ refl refl refl)
        (λ k. ground arith)

  abort-Stays : (id : Text) → Stays m (abort m id)
  unfolding abort drop_job
  abort-Stays id =
      found-cases (Stays m) (find m id) (m, done) (abort_found m id) (same-Stays m _ refl refl refl)
        (λ p r. ground arith)

  kill-Stays : (session id : Text) → Stays m (kill m session id)
  unfolding kill
  kill-Stays session id =
      found-cases (Stays m) (find m id) _ (kill_found m session) (same-Stays m _ refl refl refl)
        (λ p r. ground arith)

  stop_job-Stays : (session id : Text) → Stays m (stop_job m session id)
  unfolding stop_job drop_job
  stop_job-Stays session id =
      found-cases (Stays m) (find m id) _ (stop_found m session id) (same-Stays m _ refl refl refl)
        (λ p r.
          if_cases (Stays m) (is_reserved r.state) (drop_job m id, done) _
            (λ _. same-Stays _ _ refl refl refl)
            (λ _.
              if_cases (Stays m) (is_exited r.state || not (same r.session_id session)) (m, done) _
                (λ _. same-Stays _ _ refl refl refl)
                (λ _. update_at-Stays p (mark_reason killed) _ (mark_reason-AdmitsNone killed))))

  -- An invocation calls the admitted record and no other.
  deliveries_silent :
      (p q : ℕ)
      → stands_admitted (get_elem? m.records q) ≡ false
      → delivered_to q (deliveries p (get_elem? m.records p)) ≡ 0
  deliveries_silent p q k = elim (Bool-cases (p == q)) [
    | inl e ↦ unadmitted_here p q (get_elem? m.records p) (rw ((==_iff p q).0 e) k)
    | inr e ↦ deliveries_elsewhere p q (get_elem? m.records p) e
  ]

  invoke-Stays : (p : ℕ) (reply : Reply) → Stays m (invoke_callback m p, reply)
  unfolding invoke_callback
  invoke-Stays p reply =
      let f : JobRecord → JobRecord = λ r. begin_callback r r.progress in
      record {
        closed = refl;
        records = length-update_at p f m.records;
        silent = λ q k. (
          update_at-AdmitsNone p q f m.records begin_callback-AdmitsNone k,
          ground (
            arith,
            delivered_to-++ q m.delivered (deliveries p (get_elem? m.records p)),
            deliveries_silent p q k,
          ),
        );
      }

  end_close-Stays : (reply : Reply) → Stays m (end_close m, reply)
  unfolding end_close
  end_close-Stays reply = ground arith

  step-Stays : (e : Event) → Stays m (step m e)
  unfolding step clean_up begin_close
  step-Stays (reserves id) = reserve-Stays id
  step-Stays (aborts id) = abort-Stays id
  step-Stays (starts req s spawned) = start-Stays req s spawned
  step-Stays (wait_returns p w) = update_at-Stays p _ _ (settle-AdmitsNone w)
  step-Stays (closes_done p) = update_at-Stays p _ _ close_done-AdmitsNone
  step-Stays (admits p) = update_at-Stays p _ _ (admit-AdmitsNone m.closed h)
  step-Stays (invokes p) = invoke-Stays p _
  step-Stays (returns_callback p) = update_at-Stays p _ _ end_callback-AdmitsNone
  step-Stays (cleans p) = record {
    closed = refl;
    records = length-update_at p _ m.records;
    silent = λ q k. (update_at-AdmitsNone p q _ m.records end_cleaning-AdmitsNone k, refl);
  }
  step-Stays (timer_fires p) = update_at-Stays p _ _ fire-AdmitsNone
  step-Stays (marks_killed p) = update_at-Stays p _ _ claim_killed-AdmitsNone
  step-Stays (kills session id) = kill-Stays session id
  step-Stays (stops session id) = stop_job-Stays session id
  step-Stays begins_close = record {
    closed = sym h;
    records = length-claim_all m.jobs m.records;
    silent = λ q k. (claim_all-AdmitsNone m.jobs q m.records k, refl);
  }
  step-Stays ends_close = end_close-Stays _

  start-closed :
      (req : StartRequest) (s : Option Settings) (spawned : Bool)
      → start m req s spawned ≡ (m, failed manager_closed)
  unfolding start
  start-closed req s spawned = ground arith

  closed-Calm : (e : Event) → Calm m (step m e)
  unfolding step
  closed-Calm (starts req s spawned) =
      subst (Calm m) (sym (start-closed req s spawned)) (same-Calm m _)
  closed-Calm e = step-Calm m e refl

closes : (m : Manager) → (begin_close m).closed ≡ true
unfolding begin_close
closes m = refl

-- The manager is closed, and later than another it has no more records or running jobs. A record whose
-- exit goroutine does not stand between the admission of its callback and the invocation has no more
-- invocations.
pub record AtRest (m m' : Manager) : Type 0 where
  is_closed : m'.closed ≡ true
  records : length m'.records ≡ length m.records
  silent :
      (p : ℕ)
      → stands_admitted (get_elem? m.records p) ≡ false
      → delivered_to p m'.delivered ≡ delivered_to p m.delivered
  running : (session : Text) → count session m' ≤ count session m

run-AtRest : (m : Manager) (es : List Event) → m.closed ≡ true → HeldOnce m → AtRest m (run m es)
unfolding run
run-AtRest m [] h o = record {
  is_closed = h;
  records = refl;
  silent = λ p k. refl;
  running = λ s. ground arith;
}
run-AtRest m (e ∷ es) h o =
    let a : Stays m (step m e) = step-Stays m h e in
    let c : Calm m (step m e) = closed-Calm m h e in
    let r : AtRest (step m e).0 (run (step m e).0 es) =
      run-AtRest (step m e).0 es (a.closed ∙ h) (c.held o) in
    record {
      is_closed = r.is_closed;
      records = r.records ∙ a.records;
      silent = λ p k. let (still, same) = a.silent p k in r.silent p still ∙ same;
      running = λ s. ground (arith, r.running s, c.fewer s o);
    }

-- Once Close has taken the lock, in any run from the manager's creation and whatever sections
-- follow: the manager stays closed, no record is added, no session has more running jobs than it
-- had, and the only exit callbacks that are still invoked are those that had been admitted, but not yet
-- invoked, when Close took the lock.
pub begins_close-AtRest :
    (past future : List Event)
    → AtRest (begin_close (run new_manager past)) (run (begin_close (run new_manager past)) future)
begins_close-AtRest past future =
    let m : Manager = run new_manager past in
    run-AtRest (begin_close m) future (closes m)
      ((begin_close-Calm m done).held (run-HeldOnce past))
