-- ===== src/Agent/Slots.antt =====
-- The slots of agent/tool_corr.go: the scan for a free one ends at the lowest one from the cursor on.
use lightcode.Prelude.{
  ℕ, zero, suc, ◌+◌, ◌≤◌, ◌<◌, ◌≡◌, true, false, List, [], ◌∷◌, if◌then◌else◌, ◌==◌, leb, arith,
  length, if_cases, Bool-cases, inl, inr, ==_iff,
}
use lightcode.Agent.State.{position_key, CallAcc}
use lightcode.Agent.Correlate.{is_claimed, free_slot}

-- How many slots lie at `next` or behind it
abbrev slots_from : ℕ → List (ℕ × CallAcc) → ℕ
slots_from next [] = 0
slots_from next ((p, _) ∷ slots) = (if leb next p then 1 else 0) + slots_from next slots

slots_from-le : (next : ℕ) (slots : List (ℕ × CallAcc)) → slots_from next slots ≤ length slots
slots_from-le next [] = omega arith
slots_from-le next ((p, c) ∷ slots) = ground (arith, slots_from-le next slots)

slots_from-suc-le :
    (next : ℕ) (slots : List (ℕ × CallAcc)) → slots_from (suc next) slots ≤ slots_from next slots
slots_from-suc-le next [] = omega arith
slots_from-suc-le next ((p, c) ∷ slots) = ground (arith, slots_from-suc-le next slots)

-- A claimed slot is one fewer behind it.
slots_from_claimed :
    (next : ℕ) (slots : List (ℕ × CallAcc))
    → is_claimed next slots ≡ true
    → slots_from (suc next) slots < slots_from next slots
unfolding is_claimed
slots_from_claimed next [] h = cc
slots_from_claimed next ((p, c) ∷ slots) h =
    ground (arith, h, slots_from-suc-le next slots, slots_from_claimed next slots)

-- The slot is free, it is the cursor or behind it, and every slot between is claimed.
abbrev pub IsLowestFree : ℕ → ℕ → List (ℕ × CallAcc) → Type 0
IsLowestFree next idx slots =
    (is_claimed idx slots ≡ false)
    × (next ≤ idx)
    × ((p : ℕ) → next ≤ p → p < idx → is_claimed p slots ≡ true)

free_slot-later :
    (next idx : ℕ) (slots : List (ℕ × CallAcc))
    → is_claimed next slots ≡ true
    → IsLowestFree (suc next) idx slots
    → IsLowestFree next idx slots
free_slot-later next idx slots h l = (
  l.0,
  omega (arith, l.1),
  λ p n q. elim (Bool-cases (p == next)) [
    | inl e ↦ rw ((==_iff p next).0 e) h
    | inr e ↦ l.2 p (ground (arith, e)) q
  ],
)

free_slot_from :
    (fuel next : ℕ) (slots : List (ℕ × CallAcc))
    → slots_from next slots < fuel
    → IsLowestFree next (free_slot fuel next slots) slots
unfolding free_slot
free_slot_from zero next slots h = absurd (omega arith)
free_slot_from (suc fuel) next slots h =
    if_cases (λ (idx : ℕ). IsLowestFree next idx slots) (is_claimed next slots) _ _
      (λ e.
        free_slot-later next (free_slot fuel (suc next) slots) slots e
          (free_slot_from fuel (suc next) slots (omega (arith, slots_from_claimed next slots e))))
      λ e. (e, omega arith, λ p n q. absurd (omega (arith, n, q)))

-- The scan for a slot of a new call ends, whatever slots the stream has claimed: it finds a free slot at
-- the cursor or behind it, and every slot between the cursor and that one is claimed.
pub free_slot-IsLowestFree :
    (next : ℕ) (slots : List (ℕ × CallAcc))
    → IsLowestFree next (free_slot (suc (length slots)) next slots) slots
free_slot-IsLowestFree next slots =
    free_slot_from (suc (length slots)) next slots (omega (arith, slots_from-le next slots))
