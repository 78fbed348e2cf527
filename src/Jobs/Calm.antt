-- ===== src/Jobs/Calm.antt =====
-- The locked sections of internal/jobs/jobs.go that start nothing.
use lightcode.Prelude.{
  if_cases, ℕ, ◌≤◌, ◌≡◌, ltb, Bool, true, false, not, Option, none, some, List, [], ◌∷◌, ◌++◌, Text,
  same, arith, ==_refl, if◌then◌else◌, length, length-append, ◌||◌, get_elem?,
}
use mathlib.Core.Path.{subst}
use lightcode.Prelude.Assoc.{text_key, insert}
use lightcode.Jobs.{JobRecord, Manager, manager_closed, no_process, killed, timeout}
use lightcode.Jobs.Sections.{
  Event, Reply, done, failed, reserves, aborts, starts, wait_returns, closes_done, admits, invokes,
  returns_callback, cleans, timer_fires, marks_killed, kills, stops, begins_close, ends_close,
  invoke_callback, clean_up, cleaned_jobs, begin_close, end_close, step, reserve, abort,
  abort_found, drop_job, kill, kill_found, stop_job, stop_found, change, find, running_count,
  runs_for, claim_all,
}
use lightcode.Jobs.Records.{
  WaitResult, reserved_record, admit, update_at, settle, close_done, begin_callback, end_callback,
  end_cleaning, fire, claim_killed, mark_reason, is_exited, is_reserved,
}
use lightcode.Jobs.Heap.{length-update_at, get_elem?-snoc}
use lightcode.Jobs.Cases.{found-cases}
use lightcode.Jobs.Counts.{
  holdings, holdings-insert, holdings-remove, holdings-without_reserved, running_count-remove,
  running_count-without_reserved, running_count-insert, running_count-StartsNone,
  update_at-StartsNone, snoc-StartsNone, claim_all-StartsNone, length-claim_all,
  mark_reason-runs_for,
}

-- The map holds an allocated pointer at most once, and no other pointer.
abbrev pub HeldOnce : Manager → Type 0
HeldOnce m = (q : ℕ) → holdings q m.jobs ≤ (if ltb q (length m.records) then 1 else 0)

abbrev pub count : Text → Manager → ℕ
count session m = running_count session m.records m.jobs

-- A section that keeps the map sound and makes no session run more jobs.
pub record Calm (m : Manager) (out : Manager × Reply) : Type 0 where
  pub held : HeldOnce m → HeldOnce out.0
  pub fewer : (session : Text) → HeldOnce m → count session out.0 ≤ count session m

module _ (session : Text) (r : JobRecord) where
  settle-runs_for :
      (w : WaitResult)
      → runs_for session (some (settle w r r.progress)) ≡ true
      → runs_for session (some r) ≡ true
  settle-runs_for w h = ground arith

  close_done-runs_for :
      runs_for session (some (close_done r r.progress)) ≡ true → runs_for session (some r) ≡ true
  close_done-runs_for h = ground arith

  admit-runs_for :
      (closed : Bool)
      → runs_for session (some (admit closed r r.progress)) ≡ true
      → runs_for session (some r) ≡ true
  admit-runs_for closed h = ground arith

  begin_callback-runs_for :
      runs_for session (some (begin_callback r r.progress)) ≡ true
      → runs_for session (some r) ≡ true
  begin_callback-runs_for h = ground arith

  end_callback-runs_for :
      runs_for session (some (end_callback r r.progress)) ≡ true → runs_for session (some r) ≡ true
  end_callback-runs_for h = ground arith

  end_cleaning-runs_for :
      runs_for session (some (end_cleaning r r.progress)) ≡ true → runs_for session (some r) ≡ true
  end_cleaning-runs_for h = ground arith

  fire-runs_for : runs_for session (some (fire r)) ≡ true → runs_for session (some r) ≡ true
  fire-runs_for h = ground (arith, mark_reason-runs_for session timeout r)

  claim_killed-runs_for :
      runs_for session (some (claim_killed r)) ≡ true → runs_for session (some r) ≡ true
  claim_killed-runs_for h = ground (arith, mark_reason-runs_for session killed r)

module _ (m : Manager) where
  pub same-Calm : (reply : Reply) → Calm m (m, reply)
  same-Calm reply = record { held = λ h. h; fewer = λ session h. ground arith }

  pub drop_job-Calm : (id : Text) (reply : Reply) → Calm m (drop_job m id, reply)
  unfolding drop_job
  drop_job-Calm id reply = record {
    held = λ h q. ground (arith, h q, holdings-remove q id m.jobs);
    fewer = λ session h. running_count-remove session m.records id m.jobs;
  }

  change-Calm :
      (p : ℕ) (f : JobRecord → JobRecord) (reply : Reply)
      → ((session : Text) (r : JobRecord)
          → runs_for session (some (f r)) ≡ true
          → runs_for session (some r) ≡ true)
      → Calm m (record m { records = update_at p f m.records }, reply)
  change-Calm p f reply k = record {
    held = λ h q. rw (length-update_at p f m.records) (h q);
    fewer = λ session h.
        running_count-StartsNone session m.records (update_at p f m.records) m.jobs
          (update_at-StartsNone session p f m.records (k session));
  }

  insert-Calm :
      (id : Text)
      → Calm m (
        record m {
          jobs = insert id (length m.records) m.jobs;
          records = m.records ++ reserved_record id ∷ [];
        },
        done,
      )
  insert-Calm id =
      let rs : List JobRecord = m.records ++ reserved_record id ∷ [] in
      let n : ℕ = length m.records in
      record {
        held = λ h q. ground (
          arith,
          h q,
          holdings-insert q id n m.jobs,
          length-append m.records (reserved_record id ∷ []),
        );
        fewer = λ session h. ground (
          arith,
          running_count-insert session rs id n m.jobs
              (ground (arith, get_elem?-snoc m.records (reserved_record id) n, ==_refl n)),
          running_count-StartsNone session m.records rs m.jobs
              (snoc-StartsNone session id m.records),
        );
      }

  reserve-Calm : (id : Option Text) → Calm m (reserve m id)
  unfolding reserve
  reserve-Calm none = same-Calm _
  reserve-Calm (some id) =
      if_cases (Calm m) m.closed (m, failed manager_closed) _ (λ _. same-Calm _)
        (λ _. insert-Calm id)

  abort-Calm : (id : Text) → Calm m (abort m id)
  unfolding abort
  abort-Calm id =
      found-cases (Calm m) (find m id) (m, done) (abort_found m id) (same-Calm _)
        (λ p r.
          if_cases (Calm m) (is_reserved r.state) (drop_job m id, done) (m, done)
            (λ _. drop_job-Calm id _) (λ _. same-Calm _))

  kill-Calm : (session id : Text) → Calm m (kill m session id)
  unfolding kill
  kill-Calm session id =
      found-cases (Calm m) (find m id) (m, failed no_process) (kill_found m session) (same-Calm _)
        (λ p r. subst (Calm m) {x = (m, (kill_found m session p r).1)} (ground arith) (same-Calm _))

  stop_job-Calm : (session id : Text) → Calm m (stop_job m session id)
  unfolding stop_job
  stop_job-Calm session id =
      found-cases (Calm m) (find m id) (m, done) (stop_found m session id) (same-Calm _)
        (λ p r.
          if_cases (Calm m) (is_reserved r.state) (drop_job m id, done) _ (λ _. drop_job-Calm id _)
            (λ _.
              if_cases (Calm m) (is_exited r.state || not (same r.session_id session)) (m, done) _
                (λ _. same-Calm _)
                (λ _.
                  change-Calm p (mark_reason killed) _ (λ s v. mark_reason-runs_for s killed v))))

  cleaned_jobs-holdings :
      (p : ℕ) (o : Option JobRecord) (q : ℕ) → holdings q (cleaned_jobs m p o) ≤ holdings q m.jobs
  cleaned_jobs-holdings p none q = ground arith
  cleaned_jobs-holdings p (some r) q = ground (arith, holdings-remove q r.id m.jobs)

  cleaned_jobs-count :
      (p : ℕ) (o : Option JobRecord) (session : Text)
      → running_count session m.records (cleaned_jobs m p o) ≤ count session m
  cleaned_jobs-count p none session = ground arith
  cleaned_jobs-count p (some r) session =
      ground (arith, running_count-remove session m.records r.id m.jobs)

  clean_up-Calm : (p : ℕ) (reply : Reply) → Calm m (clean_up m p, reply)
  unfolding clean_up
  clean_up-Calm p reply =
      let o : Option JobRecord = get_elem? m.records p in
      let f : JobRecord → JobRecord = λ r. end_cleaning r r.progress in
      record {
        held =
            λ h q. ground (arith, h q, cleaned_jobs-holdings p o q, length-update_at p f m.records);
        fewer = λ session h. ground (
          arith,
          cleaned_jobs-count p o session,
          running_count-StartsNone session m.records (update_at p f m.records) (cleaned_jobs m p o)
              (update_at-StartsNone session p f m.records
                (λ r k. end_cleaning-runs_for session r k)),
        );
      }

  pub begin_close-Calm : (reply : Reply) → Calm m (begin_close m, reply)
  unfolding begin_close
  begin_close-Calm reply = record {
    held = λ h q. rw (length-claim_all m.jobs m.records) (h q);
    fewer = λ session h.
        running_count-StartsNone session m.records (claim_all m.jobs m.records) m.jobs
          (claim_all-StartsNone session m.jobs m.records);
  }

  end_close-Calm : (reply : Reply) → Calm m (end_close m, reply)
  unfolding end_close
  end_close-Calm reply = record {
    held = λ h q. ground (arith, h q, holdings-without_reserved q m.records m.jobs);
    fewer = λ session h. ground (arith, running_count-without_reserved session m.records m.jobs);
  }

-- Every section but Start.
abbrev pub is_start : Event → Bool
is_start (starts _ _ _) = true
is_start _ = false

pub step-Calm : (m : Manager) (e : Event) → is_start e ≡ false → Calm m (step m e)
unfolding step invoke_callback
step-Calm m (reserves id) k = reserve-Calm m id
step-Calm m (aborts id) k = abort-Calm m id
step-Calm m (starts req s spawned) k = cc
step-Calm m (wait_returns p w) k = change-Calm m p _ _ (λ s r. settle-runs_for s r w)
step-Calm m (closes_done p) k = change-Calm m p _ _ close_done-runs_for
step-Calm m (admits p) k = change-Calm m p _ _ (λ s r. admit-runs_for s r m.closed)
step-Calm m (invokes p) k =
    let c : Calm m (change m p (λ r. begin_callback r r.progress)) =
      change-Calm m p _ _ begin_callback-runs_for in
    record { held = c.held; fewer = c.fewer }
step-Calm m (returns_callback p) k = change-Calm m p _ _ end_callback-runs_for
step-Calm m (cleans p) k = clean_up-Calm m p _
step-Calm m (timer_fires p) k = change-Calm m p _ _ fire-runs_for
step-Calm m (marks_killed p) k = change-Calm m p _ _ claim_killed-runs_for
step-Calm m (kills session id) k = kill-Calm m session id
step-Calm m (stops session id) k = stop_job-Calm m session id
step-Calm m begins_close k = begin_close-Calm m _
step-Calm m ends_close k = end_close-Calm m _
