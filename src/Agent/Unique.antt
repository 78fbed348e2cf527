-- ===== src/Agent/Unique.antt =====
-- The calls of a response that agent/assembly.go completes have different ids.
use lightcode.Prelude.{
  ℕ, ◌≡◌, refl, true, false, some, List, [], ◌∷◌, Text, same, same_iff, leb, arith, if_cases,
  Bool-cases, inl, inr,
}
use lightcode.Prelude.Assoc.{lookup, text_key}
use lightcode.Model.Validate.{is_named}
use lightcode.Agent.State.{CallAcc, AssemblyState, is_complete}
use lightcode.Agent.Correlate.{is_claimed}
use lightcode.Agent.Content.{insert_position, sort_positions}
use lightcode.Agent.Finalize.{emit_calls, build_calls}
use lightcode.Agent.Settle.{unique_from}
use lightcode.Agent.Sorting.{AllPairs-sort_positions}
use lightcode.Agent.Homes.{IsDistinct, IsHome, OrderedIn, IsOrdered}

is_claimed-insert_position :
    (q : ℕ) (x : ℕ × CallAcc) (slots : List (ℕ × CallAcc))
    → is_claimed q (insert_position x slots) ≡ is_claimed q (x ∷ slots)
unfolding is_claimed insert_position
is_claimed-insert_position q x [] = refl
is_claimed-insert_position q x (y ∷ ys) = ground (arith, is_claimed-insert_position q x ys)

insert_position-IsDistinct :
    (x : ℕ × CallAcc) (slots : List (ℕ × CallAcc))
    → is_claimed x.0 slots ≡ false
    → IsDistinct slots
    → IsDistinct (insert_position x slots)
unfolding insert_position is_claimed
insert_position-IsDistinct x [] h k = (refl, tt)
insert_position-IsDistinct x (y ∷ ys) h k =
    if_cases IsDistinct (leb x.0 y.0) (x ∷ y ∷ ys) (y ∷ insert_position x ys) (λ _. (h, k))
      λ _. (
        ground (arith, is_claimed-insert_position y.0 x ys, h, k.0),
        insert_position-IsDistinct x ys (ground (arith, h)) k.1,
      )

is_claimed-sort_positions :
    (q : ℕ) (slots : List (ℕ × CallAcc)) → is_claimed q (sort_positions slots) ≡ is_claimed q slots
unfolding is_claimed sort_positions
is_claimed-sort_positions q [] = refl
is_claimed-sort_positions q (x ∷ xs) =
    ground
      (arith, is_claimed-insert_position q x (sort_positions xs), is_claimed-sort_positions q xs)

sort_positions-IsDistinct :
    (slots : List (ℕ × CallAcc)) → IsDistinct slots → IsDistinct (sort_positions slots)
unfolding sort_positions
sort_positions-IsDistinct [] h = tt
sort_positions-IsDistinct (x ∷ xs) h =
    insert_position-IsDistinct x (sort_positions xs) (rw (is_claimed-sort_positions x.0 xs) h.0)
      (sort_positions-IsDistinct xs h.1)

-- The homes of the seen ids are none of the slots'.
abbrev AreElsewhere : List (Text × ℕ) → List Text → List (ℕ × CallAcc) → Type 0
AreElsewhere ids seen slots =
    (id : Text) (p : ℕ)
    → is_named id seen ≡ true
    → lookup id ids ≡ some p
    → is_claimed p slots ≡ false

not_seen :
    (ids : List (Text × ℕ)) (seen : List Text) (c : CallAcc) (p : ℕ) (slots : List (ℕ × CallAcc))
    → lookup c.id ids ≡ some p
    → AreElsewhere ids seen ((p, c) ∷ slots)
    → is_named c.id seen ≡ false
unfolding is_claimed
not_seen ids seen c p slots home k = elim (Bool-cases (is_named c.id seen)) [
  | inl e ↦ absurd (ground (arith, k c.id p e home))
  | inr e ↦ e
]

AreElsewhere-cons :
    (ids : List (Text × ℕ)) (seen : List Text) (c : CallAcc) (p : ℕ) (slots : List (ℕ × CallAcc))
    → lookup c.id ids ≡ some p
    → is_claimed p slots ≡ false
    → AreElsewhere ids seen ((p, c) ∷ slots)
    → AreElsewhere ids (c.id ∷ seen) slots
unfolding is_named is_claimed
AreElsewhere-cons ids seen c p slots home free k id q n l = elim (Bool-cases (same c.id id)) [
  | inl e ↦ ground (arith, home, free, l, (same_iff c.id id).0 e)
  | inr e ↦ ground (arith, k id q, n, e, l)
]

emit_calls_unique :
    (ids : List (Text × ℕ)) (slots : List (ℕ × CallAcc)) (seen : List Text)
    → OrderedIn ids slots
    → AreElsewhere ids seen slots
    → unique_from seen (emit_calls slots) ≡ true
unfolding emit_calls unique_from is_complete is_claimed is_named
emit_calls_unique ids [] seen h k = refl
emit_calls_unique ids ((p, c) ∷ slots) seen h k =
    if_cases (λ cs. unique_from seen cs ≡ true) (is_complete c) _ _
      (λ e.
        let home : lookup c.id ids ≡ some p = h.0.0 (ground (arith, e)) in
        let rest =
          emit_calls_unique ids slots (c.id ∷ seen) (h.0.1, h.1.1)
            (AreElsewhere-cons ids seen c p slots home h.1.0 k) in
        ground (arith, rest, not_seen ids seen c p slots home k))
      λ _. emit_calls_unique ids slots seen (h.0.1, h.1.1) (λ id q n l. ground (arith, k id q n l))

-- Without a conflict the calls that are built have different ids.
pub build_calls_unique :
    (st : AssemblyState) → IsOrdered st → unique_from [] (build_calls st) ≡ true
unfolding build_calls is_named
build_calls_unique st h =
    emit_calls_unique st.tool_ids (sort_positions st.tool_deltas) []
      (
        AllPairs-sort_positions (IsHome st.tool_ids) st.tool_deltas h.0,
        sort_positions-IsDistinct st.tool_deltas h.1,
      )
      (λ id q n l. absurd (ground (arith, n)))
