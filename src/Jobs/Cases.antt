-- ===== src/Jobs/Cases.antt =====
-- What holds whether a locked section of internal/jobs/jobs.go finds a record or not.
use lightcode.Prelude.{ℕ, Option, none, some}
use lightcode.Jobs.{JobRecord, Manager}
use lightcode.Jobs.Sections.{Reply, at_found}

module _ (P : Manager × Reply → Type 0) where
  pub found-cases :
      (o : Option (ℕ × JobRecord)) (x : Manager × Reply) (f : ℕ → JobRecord → Manager × Reply)
      → P x
      → ((p : ℕ) (r : JobRecord) → P (f p r))
      → P (at_found o x f)
  found-cases none x f h k = h
  found-cases (some (p, r)) x f h k = k p r
