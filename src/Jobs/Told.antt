-- ===== src/Jobs/Told.antt =====
-- What the exit callbacks of internal/jobs/jobs.go are told.
use lightcode.Prelude.{
  ℕ, ◌≡◌, refl, Option, none, some, List, [], ◌∷◌, ◌++◌, arith, ==_refl, if◌then◌else◌, get_elem?,
  Option-cases, inl, inr, ap, ◌∙◌,
}
use mathlib.Core.Path.{subst}
use lightcode.Jobs.{exited, JobRecord, ExitResult, Manager, new_manager}
use lightcode.Jobs.Sections.{Event, invokes, invoke_callback, step, run}
use lightcode.Jobs.Records.{deliveries, begin_callback}
use lightcode.Jobs.Heap.{apply_to, get_elem?-update_at}
use lightcode.Jobs.Lifecycle.{IsConsistent}
use lightcode.Jobs.Growth.{
  get_elem?-IsConsistent, AllConsistent, Grows, Grows-get_elem?, Grows-consistent, Later,
}
use lightcode.Jobs.Advance.{step-Grows}
use lightcode.Jobs.Delivery.{calls, step-delivered}

-- The record that a callback was told of has exited, with what it was told.
abbrev pub Tells : ExitResult → Option JobRecord → Type 0
Tells d none = ⊥
Tells d (some r) =
    (r.state ≡ exited) × (r.id ≡ d.id) × (r.reason ≡ d.reason) × (r.exit_code ≡ d.exit_code)

abbrev pub Told : List ExitResult → List JobRecord → Type 0
Told [] rs = Unit {0}
Told (d ∷ ds) rs = Tells d (get_elem? rs d.pointer) × Told ds rs

Tells-Later :
    (d : ExitResult) (r : JobRecord) (o : Option JobRecord)
    → Later r o
    → Tells d (some r)
    → Tells d o
Tells-Later d r none g t = elim g [ ]
Tells-Later d r (some r') g t = ground (arith, g.final, g.state_forward, g.same_id)

Told-Grows :
    (ds : List ExitResult) (rs rs' : List JobRecord) → Grows rs rs' → Told ds rs → Told ds rs'
Told-Grows [] rs rs' g t = tt
Told-Grows (d ∷ ds) rs rs' g (t, ts) = (
  elim (Option-cases (get_elem? rs d.pointer)) [
    | inl h ↦ elim (subst (Tells d) h t) [ ]
    | inr (r, h) ↦ Tells-Later d r _ (Grows-get_elem? rs rs' d.pointer g h) (subst (Tells d) h t)
  ],
  Told-Grows ds rs rs' g ts,
)

Told-++ :
    (ds es : List ExitResult) (rs : List JobRecord) → Told ds rs → Told es rs → Told (ds ++ es) rs
Told-++ [] es rs t u = u
Told-++ (d ∷ ds) es rs (t, ts) u = (t, Told-++ ds es rs ts u)

-- What an invocation tells stands in the record that it leaves.
deliveries-Told :
    (p : ℕ) (o : Option JobRecord) (rs : List JobRecord)
    → ((r : JobRecord) → o ≡ some r → IsConsistent r)
    → get_elem? rs p ≡ apply_to (λ r. begin_callback r r.progress) o
    → Told (deliveries p o) rs
deliveries-Told p none rs c h = tt
deliveries-Told p (some r) rs c h = ground (arith, c r refl)

invokes-Told :
    (m : Manager) (p : ℕ)
    → AllConsistent m.records
    → Told (calls m (invokes p)) (step m (invokes p)).0.records
unfolding step invoke_callback
invokes-Told m p c =
    deliveries-Told p (get_elem? m.records p) _ (λ r h. get_elem?-IsConsistent m.records p c h)
      (get_elem?-update_at p p (λ r. begin_callback r r.progress) m.records
        ∙ ap
            (λ b.
              if b
              then apply_to (λ r. begin_callback r r.progress) (get_elem? m.records p)
              else get_elem? m.records p)
            (==_refl p))

calls-Told :
    (m : Manager) (e : Event) → AllConsistent m.records → Told (calls m e) (step m e).0.records
calls-Told m (invokes p) c = invokes-Told m p c
calls-Told m e c = tt

run-Told :
    (m : Manager) (es : List Event)
    → AllConsistent m.records
    → Told m.delivered m.records
    → Told (run m es).delivered (run m es).records
unfolding run
run-Told m [] c t = t
run-Told m (e ∷ es) c t =
    let g : Grows m.records (step m e).0.records = step-Grows m c e in
    run-Told (step m e).0 es (Grows-consistent m.records _ g) (
      rw (step-delivered m e) (
        Told-++ m.delivered (calls m e) _ (Told-Grows m.delivered m.records _ g t)
          (calls-Told m e c)))

-- The result that the exit goroutine holds in variables of its own and passes to the callback, however
-- much later than it settled them, is the final one: the record under its
-- pointer has exited, and the identity, the reason and the exit code that were passed are the
-- record's own, after any run of the manager's locked sections from its creation.
pub delivered-Told :
    (es : List Event) → Told (run new_manager es).delivered (run new_manager es).records
delivered-Told es = run-Told new_manager es tt tt
