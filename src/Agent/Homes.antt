-- ===== src/Agent/Homes.antt =====
-- The identities of agent/tool_corr.go: without a conflict each call stands at its identity's position.
use lightcode.Prelude.{
  ℕ, ◌≡◌, refl, true, false, ◌||◌, Option, none, some, List, [], ◌∷◌, Text, same_iff, is_empty,
  ◌==◌, ==_iff, arith, if_cases, Bool-cases, inl, inr,
}
use lightcode.Prelude.Assoc.{
  lookup, insert, text_key, lookup-insert, AllPairs, AllPairs-insert, AllPairs-lookup,
  AllPairs-mono,
}
use lightcode.Model.{Json}
use lightcode.Model.Stream.{ToolCallFragment}
use lightcode.Agent.State.{position_key, CallAcc, AssemblyState, note_conflict}
use lightcode.Agent.Correlate.{
  fresh_call, call_or_fresh, is_claimed, slot_at, landing, position_of, allocate, materialize,
  correlate_tool_fragment, record_id, note_id, note_wire_type, fill_call, store_call,
  apply_tool_fragment, apply_tool_fragments,
}
use lightcode.Agent.Conflict.{Keeps-empty, store_call-Keeps, apply_tool_fragments-Keeps}

-- No position twice
abbrev pub IsDistinct : List (ℕ × CallAcc) → Type 0
IsDistinct [] = Unit
IsDistinct ((p, _) ∷ slots) = (is_claimed p slots ≡ false) × IsDistinct slots

abbrev pub IsHome : List (Text × ℕ) → ℕ → CallAcc → Type 0
IsHome ids p c = is_empty c.id ≡ false → lookup c.id ids ≡ some p

abbrev pub OrderedIn : List (Text × ℕ) → List (ℕ × CallAcc) → Type 0
OrderedIn ids slots = AllPairs (IsHome ids) slots × IsDistinct slots

abbrev pub IsOrdered : AssemblyState → Type 0
IsOrdered st = OrderedIn st.tool_ids st.tool_deltas

is_claimed-insert :
    (q p : ℕ) (c : CallAcc) (slots : List (ℕ × CallAcc))
    → is_claimed q (insert p c slots) ≡ (p == q || is_claimed q slots)
unfolding is_claimed insert
is_claimed-insert q p c [] = refl
is_claimed-insert q p c ((r, d) ∷ slots) = ground (arith, is_claimed-insert q p c slots)

insert-IsDistinct :
    (p : ℕ) (c : CallAcc) (slots : List (ℕ × CallAcc))
    → IsDistinct slots
    → IsDistinct (insert p c slots)
unfolding insert is_claimed
insert-IsDistinct p c [] h = (refl, tt)
insert-IsDistinct p c ((q, d) ∷ slots) h = elim (Bool-cases (q == p)) [
  | inl e ↦ rw e (rw ((==_iff q p).0 e) at h.0, h.1)
  | inr e ↦
      rw e (ground (arith, is_claimed-insert q p c slots, h.0, e), insert-IsDistinct p c slots h.1)
]

allocate-IsOrdered :
    (o : Option ℕ) (st : AssemblyState) → IsOrdered st → IsOrdered (allocate o st).state
unfolding allocate
allocate-IsOrdered none st h = h
allocate-IsOrdered (some p) st h = h

materialize-IsOrdered : (p : ℕ) (st : AssemblyState) → IsOrdered st → IsOrdered (materialize p st)
unfolding materialize
materialize-IsOrdered p st h =
    if_cases (λ m. AllPairs (IsHome st.tool_ids) m × IsDistinct m) (is_claimed p st.tool_deltas) _ _
      (λ _. h)
      λ _. (
        AllPairs-insert (IsHome st.tool_ids) p fresh_call st.tool_deltas (λ e. cc) h.0,
        insert-IsDistinct p fresh_call st.tool_deltas h.1,
      )

-- The fragment's identity, if it has one, has its home.
abbrev HasHome : Text → ℕ → AssemblyState → Type 0
HasHome id p st = is_empty id ≡ false → lookup id st.tool_ids ≡ some p

IsHome-insert :
    (id : Text) (p : ℕ) (ids : List (Text × ℕ)) (q : ℕ) (c : CallAcc)
    → lookup id ids ≡ none
    → IsHome ids q c
    → IsHome (insert id p ids) q c
IsHome-insert id p ids q c n h e =
    rw (lookup-insert id c.id p ids) (ground (arith, same_iff id c.id, n, h e))

record_id-IsOrdered :
    (id : Text) (p : ℕ) (st : AssemblyState) (o : Option ℕ)
    → lookup id st.tool_ids ≡ o
    → is_empty (record_id id p st o).conflict_detail ≡ true
    → IsOrdered st
    → IsOrdered (record_id id p st o) × HasHome id p (record_id id p st o)
unfolding note_conflict
record_id-IsOrdered id p st none l k h = (
  (
    AllPairs-mono (IsHome st.tool_ids) (IsHome (insert id p st.tool_ids))
        (λ q c. IsHome-insert id p st.tool_ids q c l) st.tool_deltas h.0,
    h.1,
  ),
  λ e. rw (lookup-insert id id p st.tool_ids) (ground (arith, same_iff id id)),
)
record_id-IsOrdered id p st (some prev) l k h = elim (Bool-cases (prev == p)) [
  | inl e ↦ rw e (h, λ _. rw l (ground (arith, e)))
  | inr e ↦ absurd (ground (arith, e, k))
]

note_id-IsOrdered :
    (id : Text) (p : ℕ) (st : AssemblyState)
    → is_empty (note_id id p st).conflict_detail ≡ true
    → IsOrdered st
    → IsOrdered (note_id id p st) × HasHome id p (note_id id p st)
unfolding note_id
note_id-IsOrdered id p st k h =
    if_cases
      (λ (s : AssemblyState). is_empty s.conflict_detail ≡ true → IsOrdered s × HasHome id p s)
      (is_empty id) st (record_id id p st (lookup id st.tool_ids))
      (λ e _. (h, λ n. absurd (ground (arith, n, e))))
      (λ e k'. record_id-IsOrdered id p st (lookup id st.tool_ids) refl k' h) k

note_wire_type_keeps :
    (wt : Text) (c : CallAcc) (st : AssemblyState)
    → ((note_wire_type wt c st).tool_deltas ≡ st.tool_deltas)
      × ((note_wire_type wt c st).tool_ids ≡ st.tool_ids)
unfolding note_wire_type note_conflict
note_wire_type_keeps wt c st = ground arith

slot_at-IsHome :
    (ids : List (Text × ℕ)) (p : ℕ) (slots : List (ℕ × CallAcc))
    → AllPairs (IsHome ids) slots
    → IsHome ids p (slot_at p slots)
unfolding slot_at
slot_at-IsHome ids p slots h = found (lookup p slots) refl
  where
    found : (o : Option CallAcc) → lookup p slots ≡ o → IsHome ids p (call_or_fresh o)
    found none e = λ n. cc
    found (some c) e = AllPairs-lookup (IsHome ids) p slots e h

module _ ⦃json : Json⦄ where
  fill_call-IsHome :
      (f : ToolCallFragment) (c : CallAcc) (p : ℕ) (st : AssemblyState)
      → HasHome f.id p st
      → IsHome st.tool_ids p c
      → IsHome st.tool_ids p (fill_call f c)
  unfolding fill_call
  fill_call-IsHome f c p st h k =
      if_cases (λ (id : Text). is_empty id ≡ false → lookup id st.tool_ids ≡ some p) (is_empty c.id)
        f.id c.id (λ _. h) (λ _. k)

  store_call-IsOrdered :
      (f : ToolCallFragment) (p : ℕ) (st : AssemblyState)
      → HasHome f.id p st
      → IsOrdered st
      → IsOrdered (store_call f p st)
  unfolding store_call
  store_call-IsOrdered f p st k h =
      let c = slot_at p st.tool_deltas in
      rw (note_wire_type_keeps f.wire_type c st).0 (
        rw (note_wire_type_keeps f.wire_type c st).1 (
          AllPairs-insert (IsHome st.tool_ids) p (fill_call f c) st.tool_deltas
              (fill_call-IsHome f c p st k (slot_at-IsHome st.tool_ids p st.tool_deltas h.0)) h.0,
          insert-IsDistinct p (fill_call f c) st.tool_deltas h.1,
        ))

  apply_tool_fragment-IsOrdered :
      (n : ℕ) (f : ToolCallFragment) (st : AssemblyState)
      → is_empty (apply_tool_fragment n f st).conflict_detail ≡ true
      → IsOrdered st
      → IsOrdered (apply_tool_fragment n f st)
  unfolding apply_tool_fragment correlate_tool_fragment
  apply_tool_fragment-IsOrdered n f st k h =
      let o = landing n f.id f.name (position_of f) st in
      let l = allocate o st in
      let m = materialize l.idx l.state in
      let noted =
        note_id-IsOrdered f.id l.idx m
          (Keeps-empty (note_id f.id l.idx m) (store_call f l.idx (note_id f.id l.idx m))
            (store_call-Keeps f l.idx (note_id f.id l.idx m)) k)
          (materialize-IsOrdered l.idx l.state (allocate-IsOrdered o st h)) in
      store_call-IsOrdered f l.idx (note_id f.id l.idx m) noted.1 noted.0

  pub apply_tool_fragments-IsOrdered :
      (n : ℕ) (fs : List ToolCallFragment) (st : AssemblyState)
      → is_empty (apply_tool_fragments n fs st).conflict_detail ≡ true
      → IsOrdered st
      → IsOrdered (apply_tool_fragments n fs st)
  unfolding apply_tool_fragments
  apply_tool_fragments-IsOrdered n [] st k h = h
  apply_tool_fragments-IsOrdered n (f ∷ fs) st k h =
      let next = apply_tool_fragment n f st in
      apply_tool_fragments-IsOrdered n fs next k (
        apply_tool_fragment-IsOrdered n f st
          (Keeps-empty next (apply_tool_fragments n fs next) (apply_tool_fragments-Keeps n fs next)
            k)
          h)
