-- ===== src/Jobs/Growth.antt =====
-- Lists of records of internal/jobs/jobs.go that only move forward.
use lightcode.Prelude.{
  ℕ, zero, suc, ◌≡◌, refl, Option, none, some, List, [], ◌∷◌, ◌++◌, arith, get_elem?,
}
use mathlib.Core.Path.{subst}
use lightcode.Prelude.Assoc.{text_key}
use lightcode.Jobs.{JobRecord}
use lightcode.Jobs.Records.{update_at}
use lightcode.Jobs.Lifecycle.{Advances, Advances-refl, Advances-trans, IsConsistent}

abbrev pub AllConsistent : List JobRecord → Type 0
AllConsistent [] = Unit {0}
AllConsistent (r ∷ rs) = IsConsistent r × AllConsistent rs

-- Every old record has a successor under its pointer; a new record is consistent.
abbrev pub Grows : List JobRecord → List JobRecord → Type 0
Grows [] rs' = AllConsistent rs'
Grows (r ∷ rs) [] = ⊥
Grows (r ∷ rs) (r' ∷ rs') = Advances r r' × Grows rs rs'

pub Grows-refl : (rs : List JobRecord) → AllConsistent rs → Grows rs rs
Grows-refl [] c = tt
Grows-refl (r ∷ rs) (c, cs) = (Advances-refl r c, Grows-refl rs cs)

pub Grows-consistent : (rs rs' : List JobRecord) → Grows rs rs' → AllConsistent rs'
Grows-consistent [] rs' g = g
Grows-consistent (r ∷ rs) [] g = elim g [ ]
Grows-consistent (r ∷ rs) (r' ∷ rs') (a, g) = (a.consistent, Grows-consistent rs rs' g)

pub Grows-trans : (a b c : List JobRecord) → Grows a b → Grows b c → Grows a c
Grows-trans [] b c x y = Grows-consistent b c y
Grows-trans (r ∷ a) [] c x y = elim x [ ]
Grows-trans (r ∷ a) (r' ∷ b) [] x y = elim y [ ]
Grows-trans (r ∷ a) (r' ∷ b) (r'' ∷ c) (x, xs) (y, ys) =
    (Advances-trans r r' r'' x y, Grows-trans a b c xs ys)

-- Read through a pointer
abbrev pub Later : JobRecord → Option JobRecord → Type 0
Later r none = ⊥
Later r (some r') = Advances r r'

pub Grows-get_elem? :
    (rs rs' : List JobRecord) (p : ℕ) {r : JobRecord}
    → Grows rs rs'
    → get_elem? rs p ≡ some r
    → Later r (get_elem? rs' p)
Grows-get_elem? [] rs' p g h = cc
Grows-get_elem? (x ∷ rs) [] p g h = elim g [ ]
Grows-get_elem? (x ∷ rs) (x' ∷ rs') zero (a, g) h = subst (λ v. Advances v x') (ground arith) a
Grows-get_elem? (x ∷ rs) (x' ∷ rs') (suc p) (a, g) h = Grows-get_elem? rs rs' p g h

pub update_at-Grows :
    (p : ℕ) (f : JobRecord → JobRecord) (rs : List JobRecord)
    → AllConsistent rs
    → ((r : JobRecord) → IsConsistent r → get_elem? rs p ≡ some r → Advances r (f r))
    → Grows rs (update_at p f rs)
unfolding update_at
update_at-Grows p f [] c h = tt
update_at-Grows zero f (r ∷ rs) (c, cs) h = (h r c refl, Grows-refl rs cs)
update_at-Grows (suc p) f (r ∷ rs) (c, cs) h = (Advances-refl r c, update_at-Grows p f rs cs h)

pub snoc-Grows :
    (rs : List JobRecord) (r : JobRecord)
    → AllConsistent rs
    → IsConsistent r
    → Grows rs (rs ++ r ∷ [])
snoc-Grows [] r c d = (d, tt)
snoc-Grows (x ∷ rs) r (c, cs) d = (Advances-refl x c, snoc-Grows rs r cs d)

pub get_elem?-IsConsistent :
    (rs : List JobRecord) (p : ℕ) {r : JobRecord}
    → AllConsistent rs
    → get_elem? rs p ≡ some r
    → IsConsistent r
get_elem?-IsConsistent [] p c h = cc
get_elem?-IsConsistent (x ∷ rs) zero {r = r} (c, cs) h =
    subst (λ (v : JobRecord). IsConsistent v) {x = x} {y = r} (ground arith) c
get_elem?-IsConsistent (x ∷ rs) (suc p) (c, cs) h = get_elem?-IsConsistent rs p cs h
