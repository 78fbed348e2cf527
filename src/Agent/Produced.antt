-- ===== src/Agent/Produced.antt =====
-- What agent/assembly.go makes of a stream is an output that model/output.go accepts.
use lightcode.Prelude.{
  ◌≡◌, refl, Bool, true, false, not, ◌&&◌, ◌||◌, Option, none, some, Text, same, same_refl, codes,
  is_empty, if◌then◌else◌, ltb, arith, if_cases,
}
use lightcode.Model.{Json, complete, ref_eqb, Message, errored, interrupted, Output, Error}
use lightcode.Model.Extra.{validate_extra_values, validate-finalize}
use lightcode.Model.Validate.{
  validate_message, check_source, check_answer, is_assistant, valid_role, is_tool,
  validate_output_message, completed_message, partial_message, has_assistant_payload,
  has_assistant_content, message_has_content, status_rules, valid_output_status, validate_output,
  validate_calls,
}
use lightcode.Agent.State.{
  AssemblyState, note_conflict, note_role, note_finish, has_payload, complete_call_count,
  any_incomplete,
}
use lightcode.Agent.Content.{build_parts}
use lightcode.Agent.Finalize.{
  Finished, finished, panicked, check_establishment, any_incomplete_opaque, pin_incomplete_opaque,
  pin_incomplete_tool_call, pin_role, finish_state_verdict, assemble_message, constructed, accepted,
  completed_value, content_or_none, non_completed_value, completed_output, non_completed_output,
  conclude, finalize_state,
}
use lightcode.Agent.Parts.{ArePairs, built_parts-valid}
use lightcode.Agent.Calls.{AreCalls, build_calls-valid}
use lightcode.Agent.Payload.{message_has_content-assemble, build_calls-count}

-- The output of an assembly is one that its constructor accepts.
abbrev pub Produces : ⦃json : Json⦄ → Finished → Type 0
Produces (finished o) = validate_output o ≡ none
Produces panicked = ⊥

module _ ⦃json : Json⦄ where
  -- What a state needs for its message to be valid
  abbrev pub IsAssembled : AssemblyState → Type 0
  IsAssembled st =
      (complete st.source ≡ true)
      × (validate_extra_values st.msg_extra.values ≡ true)
      × ArePairs st.content
      × AreCalls st.tool_deltas

  message-valid :
      (b : Bool) (st : AssemblyState)
      → IsAssembled st
      → validate_output_message (assemble_message b st) st.source ≡ none
  unfolding validate_output_message validate_message assemble_message check_source check_answer
      is_assistant valid_role is_tool ref_eqb build_parts validate_calls
  message-valid b st h = ground (
    arith,
    h.0,
    built_parts-valid st.content h.2,
    build_calls-valid st h.3,
    validate-finalize st.msg_extra.values h.1,
    same_refl st.source.provider,
    same_refl st.source.model,
  )

  constructed-Produces : (o : Output) → validate_output o ≡ none → Produces (constructed o)
  unfolding constructed
  constructed-Produces o h = checked (validate_output o) refl
    where
      checked : (c : Option Error) → validate_output o ≡ c → Produces (accepted o c)
      checked none e = e
      checked (some x) e = cc

  completed_output-Produces :
      (st : AssemblyState)
      → IsAssembled st
      → any_incomplete_opaque st.content ≡ false
      → (ltb 0 (complete_call_count st.tool_deltas) || has_payload st) ≡ true
      → Produces (completed_output st)
  unfolding completed_output validate_output status_rules completed_message valid_output_status
      has_assistant_payload has_assistant_content assemble_message
  completed_output-Produces st h i p = constructed-Produces (completed_value st) (
      ground (
        arith,
        h.0,
        message-valid true st h,
        message_has_content-assemble true st i,
        build_calls-count st,
        p,
      ))

  partial-valid :
      (st : AssemblyState)
      → IsAssembled st
      → partial_message (content_or_none (assemble_message false st)) st.source ≡ none
  unfolding partial_message assemble_message
  partial-valid st h =
      if_cases (λ (m : Option Message). partial_message m st.source ≡ none)
        (message_has_content (assemble_message false st)) (some (assemble_message false st)) none
        (λ _. rw (message-valid false st h) refl) (λ _. refl)

  errored_output-Produces :
      (detail : Text) (st : AssemblyState)
      → is_empty detail ≡ false
      → IsAssembled st
      → Produces (non_completed_output errored detail st)
  unfolding non_completed_output validate_output status_rules valid_output_status
  errored_output-Produces detail st d h =
      constructed-Produces (non_completed_value errored detail st)
        (ground (arith, h.0, partial-valid st h, d))

  interrupted_output-Produces :
      (detail : Text) (st : AssemblyState)
      → is_empty detail ≡ false
      → IsAssembled st
      → Produces (non_completed_output interrupted detail st)
  unfolding non_completed_output validate_output status_rules valid_output_status
  interrupted_output-Produces detail st d h =
      constructed-Produces (non_completed_value interrupted detail st)
        (ground (arith, h.0, partial-valid st h, d))

  verdict_payload :
      (st : AssemblyState)
      → is_empty (finish_state_verdict st) ≡ true
      → (ltb 0 (complete_call_count st.tool_deltas) || has_payload st) ≡ true
  unfolding finish_state_verdict
  verdict_payload st h = ground (arith, h)

  -- A state without a conflict has no opaque part without its wire type.
  abbrev IsPinned : AssemblyState → Type 0
  IsPinned st = is_empty st.conflict_detail ≡ true → any_incomplete_opaque st.content ≡ false

  conclude-Produces :
      (broken : Bool) (st : AssemblyState)
      → IsAssembled st
      → IsPinned st
      → Produces (conclude broken st)
  unfolding conclude
  conclude-Produces broken st h k =
      if_cases Produces (not (is_empty st.conflict_detail)) _ _
        (λ e. errored_output-Produces st.conflict_detail st (ground (arith, e)) h)
        λ e.
          if_cases Produces (broken && not st.established) _ _
            (λ _. errored_output-Produces (codes "stream read failed") st refl h)
            λ _.
              if_cases Produces (is_empty (finish_state_verdict st)) _ _
                (λ v. completed_output-Produces st h (k (ground (arith, e))) (verdict_payload st v))
                λ v. errored_output-Produces (finish_state_verdict st) st v h

  pin_incomplete_opaque-IsPinned : (st : AssemblyState) → IsPinned (pin_incomplete_opaque st)
  unfolding pin_incomplete_opaque note_conflict
  pin_incomplete_opaque-IsPinned st =
      if_cases IsPinned (any_incomplete_opaque st.content) _ _ (λ e k. ground (arith, k)) (λ e k. e)

  pin_incomplete_tool_call-IsPinned :
      (st : AssemblyState) → IsPinned st → IsPinned (pin_incomplete_tool_call st)
  unfolding pin_incomplete_tool_call note_conflict
  pin_incomplete_tool_call-IsPinned st h =
      if_cases IsPinned (any_incomplete st.tool_deltas) _ _ (λ e k. h (ground (arith, k))) (λ e. h)

  note-IsAssembled :
      (b : Bool) (detail : Text) (st : AssemblyState)
      → IsAssembled st
      → IsAssembled (if b then note_conflict detail st else st)
  unfolding note_conflict
  note-IsAssembled b detail st h = if_cases IsAssembled b _ _ (λ _. h) (λ _. h)

  pub finalize_state-Produces :
      (broken done : Bool) (st : AssemblyState)
      → IsAssembled st
      → Produces (finalize_state broken done st)
  unfolding finalize_state pin_role pin_incomplete_opaque pin_incomplete_tool_call
  finalize_state-Produces broken done st h =
      if_cases Produces
        (is_empty pinned.conflict_detail && broken && not pinned.established && done) _ _
        (λ _. interrupted_output-Produces (codes "stream interrupted") pinned refl opaques)
        λ _.
          conclude-Produces broken (pin_incomplete_tool_call pinned)
            (note-IsAssembled (any_incomplete pinned.tool_deltas) _ pinned opaques)
            (pin_incomplete_tool_call-IsPinned pinned
              (pin_incomplete_opaque-IsPinned (pin_role st)))
    where
      pinned : AssemblyState
      pinned = pin_incomplete_opaque (pin_role st)

      opaques : IsAssembled pinned
      opaques = note-IsAssembled (any_incomplete_opaque (pin_role st).content) _ (pin_role st) (
          note-IsAssembled (not (is_empty st.role) && not (same st.role (codes "assistant"))) _ st
            h)

  pub note_role-IsAssembled :
      (r : Text) (st : AssemblyState) → IsAssembled st → IsAssembled (note_role r st)
  unfolding note_role
  note_role-IsAssembled r st h =
      if_cases IsAssembled (is_empty st.role) _ _ (λ _. h)
        λ _. note-IsAssembled (not (same r st.role)) _ st h

  pub note_finish-IsAssembled :
      (r : Text) (st : AssemblyState) → IsAssembled st → IsAssembled (note_finish r st)
  unfolding note_finish
  note_finish-IsAssembled r st h =
      if_cases IsAssembled (is_empty st.finish_reason) _ _ (λ _. h)
        λ _. note-IsAssembled (not (same r st.finish_reason)) _ st h

  pub check_establishment-IsAssembled :
      (st : AssemblyState) → IsAssembled st → IsAssembled (check_establishment st)
  unfolding check_establishment
  check_establishment-IsAssembled st h =
      if_cases IsAssembled st.established _ _ (λ _. h)
        λ _.
          if_cases IsAssembled (same st.finish_reason (codes "stop")) _ _ (λ _. h)
            λ _.
              if_cases IsAssembled (same st.finish_reason (codes "tool_calls")) _ _ (λ _. h)
                (λ _. h)
