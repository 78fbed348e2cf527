-- ===== src/Prelude/Assoc.antt =====
-- Go maps as association lists, with keys compared by a given Boolean equality.
use lightcode.Prelude.Strings.{Text, same, same_iff}
use mathlib.Core.Path.{◌≡◌, refl}
use mathlib.Core.Logic.{◌↔◌}
use mathlib.Core.Bool.{Bool, true, ◌&&◌}
use mathlib.Core.List.{List, [], ◌∷◌}
use mathlib.Core.Option.{Option, none, some}
use native.Mathlib.Omega.{arith}
use lightcode.Prelude.Tests.{if◌then◌else◌, ◌==◌, Bool-cases}
use Prim.Native.Nat.{ℕ, suc, ◌≤◌}
use mathlib.Core.Path.{subst₂}
use mathlib.Core.Logic.{inl, inr}

-- Keys with a Boolean equality.
pub record Key {ℓ} (K : Type ℓ) : Type ℓ where
  pub eqb : K → K → Bool
  pub eqb_iff : (a b : K) → (eqb a b ≡ true) ↔ (a ≡ b)

instance abbrev pub text_key : Key Text
text_key = record { eqb = same; eqb_iff = same_iff }

module _ {ℓ} {K V : Type ℓ} ⦃e : Key K⦄ where
  unfoldable pub lookup : K → List (K × V) → Option V
  lookup k [] = none
  lookup k ((j, v) ∷ m) = if e.eqb j k then some v else lookup k m

  -- `m[k] = v`
  unfoldable pub insert : K → V → List (K × V) → List (K × V)
  insert k v [] = (k, v) ∷ []
  insert k v ((j, w) ∷ m) = if e.eqb j k then (k, v) ∷ m else (j, w) ∷ insert k v m

  pub lookup-insert :
      (k j : K) (v : V) (m : List (K × V))
      → lookup j (insert k v m) ≡ (if e.eqb k j then some v else lookup j m)
  unfolding lookup insert
  lookup-insert k j v [] = refl
  lookup-insert k j v ((i, w) ∷ m) =
      ground (arith, e.eqb_iff k j, e.eqb_iff i k, e.eqb_iff i j, lookup-insert k j v m)

  -- `delete(m, k)`
  unfoldable pub remove : K → List (K × V) → List (K × V)
  remove k [] = []
  remove k ((j, v) ∷ m) = let rest = remove k m in if e.eqb j k then rest else (j, v) ∷ rest

  pub lookup-remove :
      (k j : K) (m : List (K × V))
      → lookup j (remove k m) ≡ (if e.eqb k j then none else lookup j m)
  unfolding lookup remove
  lookup-remove k j [] = ground arith
  lookup-remove k j ((i, w) ∷ m) =
      ground (arith, e.eqb_iff k j, e.eqb_iff i k, e.eqb_iff i j, lookup-remove k j m)

  -- How often a key stands in the list, and a property of all pairs.
  unfoldable pub count_key : K → List (K × V) → ℕ
  count_key k [] = 0
  count_key k ((j, _) ∷ m) = let rest = count_key k m in if e.eqb j k then suc rest else rest

  abbrev pub AllPairs {κ} : (K → V → Type κ) → List (K × V) → Type κ
  AllPairs P [] = Unit
  AllPairs P ((k, v) ∷ m) = P k v × AllPairs P m

  pub count_key-insert :
      (k j : K) (v : V) (m : List (K × V))
      → count_key j (insert k v m)
        ≡ (if e.eqb k j && (count_key j m == 0) then 1 else count_key j m)
  unfolding count_key insert
  count_key-insert k j v [] = ground arith
  count_key-insert k j v ((i, w) ∷ m) =
      ground (arith, e.eqb_iff k j, e.eqb_iff i k, e.eqb_iff i j, count_key-insert k j v m)

  pub count_key-remove-le : (k j : K) (m : List (K × V)) → count_key j (remove k m) ≤ count_key j m
  unfolding count_key remove
  count_key-remove-le k j [] = omega arith
  count_key-remove-le k j ((i, w) ∷ m) = ground (arith, count_key-remove-le k j m)

  pub count_key-lookup : (k : K) (m : List (K × V)) → lookup k m ≡ none → count_key k m ≡ 0
  unfolding count_key lookup
  count_key-lookup k [] h = refl
  count_key-lookup k ((i, w) ∷ m) h = ground (arith, count_key-lookup k m)

  pub count_key-lookup-some :
      (k : K) (m : List (K × V)) {v : V} → lookup k m ≡ some v → ¬ (count_key k m ≡ 0)
  unfolding count_key lookup
  count_key-lookup-some k [] h = cc
  count_key-lookup-some k ((i, w) ∷ m) {v} h = ground (arith, count_key-lookup-some k m {v = v})

module _ {ℓ κ} {K V : Type ℓ} ⦃e : Key K⦄ (P : K → V → Type κ) where
  pub AllPairs-insert :
      (k : K) (v : V) (m : List (K × V)) → P k v → AllPairs P m → AllPairs P (insert k v m)
  unfolding insert
  AllPairs-insert k v [] p h = (p, tt)
  AllPairs-insert k v ((i, w) ∷ m) p h = elim (Bool-cases (e.eqb i k)) [
    | inl x ↦ rw x (p, h.1)
    | inr x ↦ rw x (h.0, AllPairs-insert k v m p h.1)
  ]

  pub AllPairs-remove : (k : K) (m : List (K × V)) → AllPairs P m → AllPairs P (remove k m)
  unfolding remove
  AllPairs-remove k [] h = tt
  AllPairs-remove k ((i, w) ∷ m) h = elim (Bool-cases (e.eqb i k)) [
    | inl x ↦ rw x (AllPairs-remove k m h.1)
    | inr x ↦ rw x (h.0, AllPairs-remove k m h.1)
  ]

  pub AllPairs-lookup :
      (k : K) (m : List (K × V)) {v : V} → lookup k m ≡ some v → AllPairs P m → P k v
  unfolding lookup
  AllPairs-lookup k [] q h = cc
  AllPairs-lookup k ((i, w) ∷ m) {v} q h = elim (Bool-cases (e.eqb i k)) [
    | inl x ↦ subst₂ P ((e.eqb_iff i k).0 x) (let q' : some w ≡ some v = rw x at q in cc) h.0
    | inr x ↦ AllPairs-lookup k m (rw x at q) h.1
  ]

module _ {ℓ κ μ} {K V : Type ℓ} ⦃e : Key K⦄ (P : K → V → Type κ) (Q : K → V → Type μ) where
  -- A property of all pairs may be weakened.
  pub AllPairs-mono :
      ((k : K) (v : V) → P k v → Q k v) → (m : List (K × V)) → AllPairs P m → AllPairs Q m
  AllPairs-mono f [] h = tt
  AllPairs-mono f ((k, v) ∷ m) h = (f k v h.0, AllPairs-mono f m h.1)
