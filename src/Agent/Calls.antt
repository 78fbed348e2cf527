-- ===== src/Agent/Calls.antt =====
-- The calls of agent/tool_corr.go while they grow, and the calls that are built of them.
use lightcode.Prelude.{ℕ, ◌≡◌, refl, true, Option, none, some, List, [], ◌∷◌, Text, arith, if_cases}
use lightcode.Prelude.Assoc.{lookup, AllPairs, AllPairs-insert, AllPairs-lookup}
use lightcode.Model.{Json}
use lightcode.Model.Extra.{validate_extra_values, validate-finalize, add_all-valid}
use lightcode.Model.Validate.{validate_tool_call, validate_calls}
use lightcode.Model.Stream.{ToolCallFragment, validate_tool_fragments}
use lightcode.Agent.State.{position_key, CallAcc, AssemblyState, note_conflict, is_complete}
use lightcode.Agent.Correlate.{
  fresh_call, call_or_fresh, is_claimed, slot_at, landing, position_of, allocate, materialize,
  correlate_tool_fragment, note_id, note_wire_type, fill_call, store_call, apply_tool_fragment,
  apply_tool_fragments,
}
use lightcode.Agent.Content.{sort_positions}
use lightcode.Agent.Sorting.{AllPairs-sort_positions}
use lightcode.Agent.Finalize.{emit_calls, build_calls}

module _ ⦃json : Json⦄ where
  abbrev pub IsCall : CallAcc → Type 0
  IsCall c = validate_extra_values c.extra.values ≡ true

  abbrev pub AreCalls : List (ℕ × CallAcc) → Type 0
  AreCalls calls = AllPairs (λ _ c. IsCall c) calls

  slot_at-IsCall : (p : ℕ) (calls : List (ℕ × CallAcc)) → AreCalls calls → IsCall (slot_at p calls)
  unfolding slot_at validate_extra_values
  slot_at-IsCall p calls h = found (lookup p calls) refl
    where
      found : (o : Option CallAcc) → lookup p calls ≡ o → IsCall (call_or_fresh o)
      found none e = refl
      found (some c) e = AllPairs-lookup (λ (_ : ℕ) d. IsCall d) p calls e h

  allocate_slots :
      (o : Option ℕ) (st : AssemblyState) → (allocate o st).state.tool_deltas ≡ st.tool_deltas
  unfolding allocate
  allocate_slots none st = refl
  allocate_slots (some p) st = refl

  materialize-AreCalls :
      (p : ℕ) (st : AssemblyState)
      → AreCalls st.tool_deltas
      → AreCalls (materialize p st).tool_deltas
  unfolding materialize validate_extra_values
  materialize-AreCalls p st h =
      if_cases AreCalls (is_claimed p st.tool_deltas) _ _ (λ _. h)
        λ _. AllPairs-insert (λ (_ : ℕ) c. IsCall c) p fresh_call st.tool_deltas refl h

  note_id_slots :
      (id : Text) (p : ℕ) (st : AssemblyState) → (note_id id p st).tool_deltas ≡ st.tool_deltas
  unfolding note_id note_conflict
  note_id_slots id p st = ground arith

  note_wire_type_slots :
      (wt : Text) (c : CallAcc) (st : AssemblyState)
      → (note_wire_type wt c st).tool_deltas ≡ st.tool_deltas
  unfolding note_wire_type note_conflict
  note_wire_type_slots wt c st = ground arith

  store_call-AreCalls :
      (f : ToolCallFragment) (p : ℕ) (st : AssemblyState)
      → validate_extra_values f.extra ≡ true
      → AreCalls st.tool_deltas
      → AreCalls (store_call f p st).tool_deltas
  unfolding store_call fill_call
  store_call-AreCalls f p st v h =
      rw (note_wire_type_slots f.wire_type (slot_at p st.tool_deltas) st) (
        AllPairs-insert (λ (_ : ℕ) c. IsCall c) p _ st.tool_deltas
          (add_all-valid f.extra (slot_at p st.tool_deltas).extra v
            (slot_at-IsCall p st.tool_deltas h))
          h)

  apply_tool_fragment-AreCalls :
      (n : ℕ) (f : ToolCallFragment) (st : AssemblyState)
      → validate_extra_values f.extra ≡ true
      → AreCalls st.tool_deltas
      → AreCalls (apply_tool_fragment n f st).tool_deltas
  unfolding apply_tool_fragment correlate_tool_fragment
  apply_tool_fragment-AreCalls n f st v h =
      let l = allocate (landing n f.id f.name (position_of f) st) st in
      store_call-AreCalls f l.idx (note_id f.id l.idx (materialize l.idx l.state)) v (
        rw (note_id_slots f.id l.idx (materialize l.idx l.state)) (
          materialize-AreCalls l.idx l.state
            (rw (allocate_slots (landing n f.id f.name (position_of f) st) st) h)))

  pub apply_tool_fragments-AreCalls :
      (n : ℕ) (fs : List ToolCallFragment) (st : AssemblyState)
      → validate_tool_fragments fs ≡ none
      → AreCalls st.tool_deltas
      → AreCalls (apply_tool_fragments n fs st).tool_deltas
  unfolding apply_tool_fragments validate_tool_fragments
  apply_tool_fragments-AreCalls n [] st v h = h
  apply_tool_fragments-AreCalls n (f ∷ fs) st v h =
      apply_tool_fragments-AreCalls n fs (apply_tool_fragment n f st) (ground (arith, v))
        (apply_tool_fragment-AreCalls n f st (ground (arith, v)) h)

  emit_calls-valid :
      (calls : List (ℕ × CallAcc)) → AreCalls calls → validate_calls (emit_calls calls) ≡ none
  unfolding emit_calls validate_calls validate_tool_call is_complete
  emit_calls-valid [] h = refl
  emit_calls-valid ((p, c) ∷ calls) h =
      ground (arith, validate-finalize c.extra.values h.0, emit_calls-valid calls h.1)

  -- The calls that are built are valid.
  pub build_calls-valid :
      (st : AssemblyState) → AreCalls st.tool_deltas → validate_calls (build_calls st) ≡ none
  unfolding build_calls
  build_calls-valid st h =
      emit_calls-valid (sort_positions st.tool_deltas)
        (AllPairs-sort_positions (λ (_ : ℕ) c. IsCall c) st.tool_deltas h)
