-- ===== src/Jobs/Heap.antt =====
-- Reads of the records of internal/jobs/jobs.go after a write or an allocation.
use lightcode.Prelude.{
  ℕ, zero, suc, ◌<◌, ◌≡◌, refl, Option, none, some, List, [], ◌∷◌, ◌++◌, arith, ◌==◌, if◌then◌else◌,
  length, get_elem?, ap, ◌∙◌,
}
use lightcode.Jobs.{JobRecord}
use lightcode.Jobs.Records.{update_at}

abbrev pub apply_to : (JobRecord → JobRecord) → Option JobRecord → Option JobRecord
apply_to f none = none
apply_to f (some r) = some (f r)

pub get_elem?-update_at :
    (p q : ℕ) (f : JobRecord → JobRecord) (rs : List JobRecord)
    → get_elem? (update_at p f rs) q
      ≡ (if p == q then apply_to f (get_elem? rs q) else get_elem? rs q)
unfolding update_at
get_elem?-update_at p q f [] = ground arith
get_elem?-update_at zero zero f (r ∷ rs) = refl
get_elem?-update_at zero (suc q) f (r ∷ rs) = ground arith
get_elem?-update_at (suc p) zero f (r ∷ rs) = ground arith
get_elem?-update_at (suc p) (suc q) f (r ∷ rs) = get_elem?-update_at p q f rs ∙ ground arith

pub get_elem?-snoc :
    (rs : List JobRecord) (r : JobRecord) (q : ℕ)
    → get_elem? (rs ++ r ∷ []) q ≡ (if q == length rs then some r else get_elem? rs q)
get_elem?-snoc [] r zero = refl
get_elem?-snoc [] r (suc q) = ground arith
get_elem?-snoc (x ∷ rs) r zero = ground arith
get_elem?-snoc (x ∷ rs) r (suc q) = get_elem?-snoc rs r q ∙ ground arith

pub get_elem?_below :
    (rs : List JobRecord) (q : ℕ) {r : JobRecord} → get_elem? rs q ≡ some r → q < length rs
get_elem?_below [] q h = cc
get_elem?_below (x ∷ rs) zero h = omega arith
get_elem?_below (x ∷ rs) (suc q) h = omega (arith, get_elem?_below rs q h)

pub length-update_at :
    (p : ℕ) (f : JobRecord → JobRecord) (rs : List JobRecord)
    → length (update_at p f rs) ≡ length rs
unfolding update_at
length-update_at p f [] = refl
length-update_at zero f (r ∷ rs) = refl
length-update_at (suc p) f (r ∷ rs) = ap suc (length-update_at p f rs)
