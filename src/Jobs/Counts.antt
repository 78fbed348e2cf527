-- ===== src/Jobs/Counts.antt =====
-- The running jobs of a session in the map of internal/jobs/jobs.go, as its locked sections change it.
use lightcode.Prelude.{
  ℕ, ◌+◌, ◌≤◌, ◌≡◌, refl, true, false, Option, none, some, List, [], ◌∷◌, ◌++◌, Text, arith, ◌==◌,
  if◌then◌else◌, length, get_elem?, ◌∙◌,
}
use lightcode.Prelude.Assoc.{text_key, insert, remove}
use lightcode.Jobs.{JobRecord, Reason, killed}
use lightcode.Jobs.Sections.{running_count, runs_for, without_reserved, claim_all}
use lightcode.Jobs.Records.{update_at, reserved_record, mark_reason, claim_if_running}
use lightcode.Jobs.Heap.{apply_to, get_elem?-update_at, get_elem?-snoc, length-update_at}

-- How often the map holds a pointer
abbrev pub holdings : ℕ → List (Text × ℕ) → ℕ
holdings q [] = 0
holdings q ((_, p) ∷ jobs) = (if p == q then 1 else 0) + holdings q jobs

pub holdings-insert :
    (q : ℕ) (id : Text) (p : ℕ) (jobs : List (Text × ℕ))
    → holdings q (insert id p jobs) ≤ holdings q jobs + (if p == q then 1 else 0)
unfolding insert
holdings-insert q id p [] = ground arith
holdings-insert q id p ((j, w) ∷ jobs) = ground (arith, holdings-insert q id p jobs)

pub holdings-remove :
    (q : ℕ) (id : Text) (jobs : List (Text × ℕ)) → holdings q (remove id jobs) ≤ holdings q jobs
unfolding remove
holdings-remove q id [] = ground arith
holdings-remove q id ((j, w) ∷ jobs) = ground (arith, holdings-remove q id jobs)

pub holdings-without_reserved :
    (q : ℕ) (rs : List JobRecord) (jobs : List (Text × ℕ))
    → holdings q (without_reserved rs jobs) ≤ holdings q jobs
unfolding without_reserved
holdings-without_reserved q rs [] = ground arith
holdings-without_reserved q rs ((j, w) ∷ jobs) = ground (arith, holdings-without_reserved q rs jobs)

module _ (session : Text) (rs : List JobRecord) where
  pub running_count-remove :
      (id : Text) (jobs : List (Text × ℕ))
      → running_count session rs (remove id jobs) ≤ running_count session rs jobs
  unfolding remove running_count
  running_count-remove id [] = ground arith
  running_count-remove id ((j, w) ∷ jobs) = ground (arith, running_count-remove id jobs)

  pub running_count-without_reserved :
      (jobs : List (Text × ℕ))
      → running_count session rs (without_reserved rs jobs) ≤ running_count session rs jobs
  unfolding without_reserved running_count
  running_count-without_reserved [] = ground arith
  running_count-without_reserved ((j, w) ∷ jobs) =
      ground (arith, running_count-without_reserved jobs)

  pub running_count-insert :
      (id : Text) (p : ℕ) (jobs : List (Text × ℕ))
      → runs_for session (get_elem? rs p) ≡ false
      → running_count session rs (insert id p jobs) ≤ running_count session rs jobs
  unfolding insert running_count
  running_count-insert id p [] h = ground arith
  running_count-insert id p ((j, w) ∷ jobs) h = ground (arith, running_count-insert id p jobs h)

-- No record runs for the session that did not run for it before.
abbrev pub StartsNone : Text → List JobRecord → List JobRecord → Type 0
StartsNone session rs rs' =
    (p : ℕ) → runs_for session (get_elem? rs' p) ≡ true → runs_for session (get_elem? rs p) ≡ true

pub running_count-StartsNone :
    (session : Text) (rs rs' : List JobRecord) (jobs : List (Text × ℕ))
    → StartsNone session rs rs'
    → running_count session rs' jobs ≤ running_count session rs jobs
unfolding running_count
running_count-StartsNone session rs rs' [] h = ground arith
running_count-StartsNone session rs rs' ((j, p) ∷ jobs) h =
    ground (arith, running_count-StartsNone session rs rs' jobs h, h p)

apply_to-runs_for :
    (session : Text) (f : JobRecord → JobRecord) (o : Option JobRecord)
    → ((r : JobRecord) → runs_for session (some (f r)) ≡ true → runs_for session (some r) ≡ true)
    → runs_for session (apply_to f o) ≡ true
    → runs_for session o ≡ true
apply_to-runs_for session f none h k = k
apply_to-runs_for session f (some r) h k = h r k

pub update_at-StartsNone :
    (session : Text) (p : ℕ) (f : JobRecord → JobRecord) (rs : List JobRecord)
    → ((r : JobRecord) → runs_for session (some (f r)) ≡ true → runs_for session (some r) ≡ true)
    → StartsNone session rs (update_at p f rs)
update_at-StartsNone session p f rs h q k =
    ground (arith, apply_to-runs_for session f (get_elem? rs q) h, get_elem?-update_at p q f rs)

-- A change under one pointer counts as often as the map holds it.
pub running_count-update_at :
    (session : Text) (p : ℕ) (f : JobRecord → JobRecord) (rs : List JobRecord)
    (jobs : List (Text × ℕ))
    → running_count session (update_at p f rs) jobs
      ≤ running_count session rs jobs + holdings p jobs
unfolding running_count
running_count-update_at session p f rs [] = ground arith
running_count-update_at session p f rs ((j, q) ∷ jobs) =
    ground (arith, running_count-update_at session p f rs jobs, get_elem?-update_at p q f rs)

pub mark_reason-runs_for :
    (session : Text) (x : Reason) (r : JobRecord)
    → runs_for session (some (mark_reason x r)) ≡ true
    → runs_for session (some r) ≡ true
unfolding mark_reason
mark_reason-runs_for session x r k = ground arith

claim_if_running-runs_for :
    (session : Text) (r : JobRecord)
    → runs_for session (some (claim_if_running r)) ≡ true
    → runs_for session (some r) ≡ true
claim_if_running-runs_for session r k = ground (arith, mark_reason-runs_for session killed r)

pub snoc-StartsNone :
    (session id : Text) (rs : List JobRecord)
    → StartsNone session rs (rs ++ reserved_record id ∷ [])
snoc-StartsNone session id rs q k = ground (arith, get_elem?-snoc rs (reserved_record id) q)

pub claim_all-StartsNone :
    (session : Text) (jobs : List (Text × ℕ)) (rs : List JobRecord)
    → StartsNone session rs (claim_all jobs rs)
unfolding claim_all
claim_all-StartsNone session [] rs q k = k
claim_all-StartsNone session ((j, p) ∷ jobs) rs q k =
    update_at-StartsNone session p claim_if_running rs (claim_if_running-runs_for session) q
      (claim_all-StartsNone session jobs (update_at p claim_if_running rs) q k)

pub length-claim_all :
    (jobs : List (Text × ℕ)) (rs : List JobRecord) → length (claim_all jobs rs) ≡ length rs
unfolding claim_all
length-claim_all [] rs = refl
length-claim_all ((j, p) ∷ jobs) rs =
    length-claim_all jobs (update_at p claim_if_running rs) ∙ length-update_at p claim_if_running rs
