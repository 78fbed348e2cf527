-- ===== src/Agent/Sourced.antt =====
-- The output that agent/assembly.go makes has the identity that it was given.
use lightcode.Prelude.{
  ◌≡◌, refl, Bool, not, ◌&&◌, Option, none, some, List, [], ◌∷◌, Text, codes, is_empty,
  if◌then◌else◌, arith, length, if_cases, ◌∙◌,
}
use lightcode.Model.{Json, ModelRef, Output, OutputStatus, errored, interrupted, Error, TokenCounts}
use lightcode.Model.Validate.{validate_output}
use lightcode.Model.Stream.{StreamDelta, validate_stream_delta}
use lightcode.Agent.{Stream}
use lightcode.Agent.State.{AssemblyState, new_assembly_state, note_conflict, note_role, note_finish}
use lightcode.Agent.Correlate.{apply_tool_event}
use lightcode.Agent.Content.{apply_contents}
use lightcode.Agent.Finalize.{
  Finished, finished, panicked, check_establishment, accepted, constructed, completed_value,
  non_completed_value, completed_output, non_completed_output, conclude, finalize_state,
  finish_state_verdict, pin_role, pin_incomplete_opaque, pin_incomplete_tool_call,
}
use lightcode.Agent.Assemble.{
  note_usage, note_texts, apply_choice, apply_delta, received, receive, receive_all,
  assemble_stream,
}
use lightcode.Agent.Received.{apply_contents-KeepsCalls, apply_tool_fragments-KeepsParts}

notes_source :
    (role reason : Text) (st : AssemblyState)
    → ((note_role role st).source ≡ st.source)
      × ((note_finish reason st).source ≡ st.source)
      × ((check_establishment st).source ≡ st.source)
unfolding note_role note_finish note_conflict check_establishment
notes_source role reason st = ground arith

pins_source :
    (st : AssemblyState)
    → ((pin_role st).source ≡ st.source)
      × ((pin_incomplete_opaque st).source ≡ st.source)
      × ((pin_incomplete_tool_call st).source ≡ st.source)
unfolding pin_role pin_incomplete_opaque pin_incomplete_tool_call note_conflict
pins_source st = ground arith

module _ ⦃json : Json⦄ where
  apply_choice_source :
      (d : StreamDelta) (st : AssemblyState) → (apply_choice d st).source ≡ st.source
  unfolding apply_choice apply_tool_event
  apply_choice_source d st =
      (notes_source [] [] tooled).2
      ∙ (apply_tool_fragments-KeepsParts (length d.tool_fragments) d.tool_fragments filled).0
      ∙ (apply_contents-KeepsCalls d.content_fragments (note_texts d reasoned)).0
      ∙ if_cases (λ (s : AssemblyState). s.source ≡ named.source) (is_empty d.finish_reason) named
          (note_finish d.finish_reason named) (λ _. refl)
          (λ _. (notes_source [] d.finish_reason named).1)
      ∙ if_cases (λ (s : AssemblyState). s.source ≡ st.source) (is_empty d.role) st
          (note_role d.role st) (λ _. refl) (λ _. (notes_source d.role [] st).0)
    where
      named : AssemblyState
      named = if is_empty d.role then st else note_role d.role st

      reasoned : AssemblyState
      reasoned = if is_empty d.finish_reason then named else note_finish d.finish_reason named

      filled : AssemblyState
      filled = apply_contents d.content_fragments (note_texts d reasoned)

      tooled : AssemblyState
      tooled = apply_tool_event d.tool_fragments filled

  note_usage_source :
      (u : Option TokenCounts) (st : AssemblyState) → (note_usage u st).source ≡ st.source
  note_usage_source none st = refl
  note_usage_source (some u) st = refl

  received_source :
      (d : StreamDelta) (st : AssemblyState) (c : Option Error)
      → (received d st c).source ≡ st.source
  unfolding apply_delta note_conflict
  received_source d st (some e) = refl
  received_source d st none =
      if_cases (λ (s : AssemblyState). s.source ≡ st.source) d.has_choice _ _
        (λ _. apply_choice_source d (note_usage d.usage st) ∙ note_usage_source d.usage st)
        λ _. note_usage_source d.usage st

  receive_all_source :
      (ds : List StreamDelta) (st : AssemblyState) → (receive_all ds st).source ≡ st.source
  unfolding receive_all receive
  receive_all_source [] st = refl
  receive_all_source (d ∷ ds) st =
      receive_all_source ds (receive d st) ∙ received_source d st (validate_stream_delta d)

  -- An output has the identity.
  abbrev pub HasSource : ModelRef → Finished → Type 0
  HasSource source (finished o) = o.source ≡ source
  HasSource source panicked = Unit {0}

  constructed-HasSource :
      (source : ModelRef) (o : Output) → o.source ≡ source → HasSource source (constructed o)
  unfolding constructed
  constructed-HasSource source o h = checked (validate_output o)
    where
      checked : (c : Option Error) → HasSource source (accepted o c)
      checked none = h
      checked (some e) = tt

  outputs-HasSource :
      (source : ModelRef) (status : OutputStatus) (detail : Text) (st : AssemblyState)
      → st.source ≡ source
      → HasSource source (completed_output st)
        × HasSource source (non_completed_output status detail st)
  unfolding completed_output non_completed_output
  outputs-HasSource source status detail st h = (
    constructed-HasSource source (completed_value st) h,
    constructed-HasSource source (non_completed_value status detail st) h,
  )

  conclude-HasSource :
      (source : ModelRef) (broken : Bool) (st : AssemblyState)
      → st.source ≡ source
      → HasSource source (conclude broken st)
  unfolding conclude
  conclude-HasSource source broken st h =
      if_cases (HasSource source) (not (is_empty st.conflict_detail)) _ _
        (λ _. (outputs-HasSource source errored st.conflict_detail st h).1)
        λ _.
          if_cases (HasSource source) (broken && not st.established) _ _
            (λ _. (outputs-HasSource source errored (codes "stream read failed") st h).1)
            λ _.
              if_cases (HasSource source) (is_empty (finish_state_verdict st)) _ _
                (λ _. (outputs-HasSource source errored [] st h).0)
                λ _. (outputs-HasSource source errored (finish_state_verdict st) st h).1

  -- The output's identity is the given one.
  pub assemble_stream-HasSource :
      (source : ModelRef) (stream : Stream) → HasSource source (assemble_stream source stream)
  unfolding assemble_stream finalize_state
  assemble_stream-HasSource source stream =
      if_cases (HasSource source)
        (is_empty pinned.conflict_detail && stream.broken && not pinned.established && stream.done)
        _ _ (λ _. (outputs-HasSource source interrupted (codes "stream interrupted") pinned kept).1)
        λ _.
          conclude-HasSource source stream.broken (pin_incomplete_tool_call pinned)
            ((pins_source pinned).2 ∙ kept)
    where
      st : AssemblyState
      st = receive_all stream.deltas (new_assembly_state source)

      pinned : AssemblyState
      pinned = pin_incomplete_opaque (pin_role st)

      kept : pinned.source ≡ source
      kept =
          (pins_source (pin_role st)).1
          ∙ (pins_source st).0
          ∙ receive_all_source stream.deltas (new_assembly_state source)
