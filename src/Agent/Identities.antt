-- ===== src/Agent/Identities.antt =====
-- Every output that agent/assembly.go makes has calls with different ids.
use mathlib.Core.Path.{subst₂}
use lightcode.Prelude.{
  ◌≡◌, refl, Bool, true, false, not, ◌&&◌, Option, none, some, List, [], ◌∷◌, Text, codes, is_empty,
  if◌then◌else◌, arith, length, if_cases, sym,
}
use lightcode.Model.{
  Json, ModelRef, complete, Message, Output, OutputStatus, errored, interrupted, Error, TokenCounts,
}
use lightcode.Model.Validate.{validate_output, message_has_content}
use lightcode.Model.Stream.{StreamDelta, validate_stream_delta}
use lightcode.Agent.{Stream}
use lightcode.Agent.State.{AssemblyState, new_assembly_state, note_conflict, note_role, note_finish}
use lightcode.Agent.Correlate.{apply_tool_fragments, apply_tool_event}
use lightcode.Agent.Content.{apply_contents}
use lightcode.Agent.Finalize.{
  Finished, finished, panicked, check_establishment, assemble_message, accepted, constructed,
  completed_value, non_completed_value, completed_output, non_completed_output, conclude,
  finalize_state, finish_state_verdict, pin_role, pin_incomplete_opaque, pin_incomplete_tool_call,
}
use lightcode.Agent.Assemble.{
  note_usage, note_texts, apply_choice, apply_delta, received, receive, receive_all,
  assemble_stream,
}
use lightcode.Agent.Settle.{unique_from, calls_of, calls_in}
use lightcode.Agent.Received.{apply_contents-KeepsCalls, assemble_stream-Produces}
use lightcode.Agent.Produced.{Produces}
use lightcode.Agent.Homes.{OrderedIn, IsOrdered, apply_tool_fragments-IsOrdered}
use lightcode.Agent.Unique.{build_calls_unique}
use lightcode.Agent.Conflict.{
  Keeps-empty, pins-Keeps, apply_choice-Keeps, received-Keeps, check_establishment-Keeps,
}

-- The order of the calls may be relied on while there is no conflict.
abbrev IsCalm : AssemblyState → Type 0
IsCalm st = is_empty st.conflict_detail ≡ true → IsOrdered st

-- The calls and their identities are the same.
abbrev KeepsOrder : AssemblyState → AssemblyState → Type 0
KeepsOrder st st' = (st'.tool_ids ≡ st.tool_ids) × (st'.tool_deltas ≡ st.tool_deltas)

KeepsOrder-IsOrdered : (st st' : AssemblyState) → KeepsOrder st st' → IsOrdered st → IsOrdered st'
KeepsOrder-IsOrdered st st' k h = subst₂ OrderedIn (sym k.0) (sym k.1) h

notes_order :
    (role reason : Text) (st : AssemblyState)
    → KeepsOrder st (note_role role st)
      × KeepsOrder st (note_finish reason st)
      × KeepsOrder st (check_establishment st)
unfolding note_role note_finish note_conflict check_establishment
notes_order role reason st = ground arith

pins_order :
    (st : AssemblyState)
    → KeepsOrder st (pin_role st)
      × KeepsOrder st (pin_incomplete_opaque st)
      × KeepsOrder st (pin_incomplete_tool_call st)
unfolding pin_role pin_incomplete_opaque pin_incomplete_tool_call note_conflict
pins_order st = ground arith

module _ ⦃json : Json⦄ where
  apply_choice-IsCalm :
      (d : StreamDelta) (st : AssemblyState) → IsCalm st → IsCalm (apply_choice d st)
  unfolding apply_choice apply_tool_event
  apply_choice-IsCalm d st h e =
      KeepsOrder-IsOrdered tooled (apply_choice d st) (notes_order [] [] tooled).2 (
        apply_tool_fragments-IsOrdered (length d.tool_fragments) d.tool_fragments filled
          (Keeps-empty tooled (apply_choice d st) (check_establishment-Keeps tooled) e)
          (KeepsOrder-IsOrdered reasoned filled
            (let k = apply_contents-KeepsCalls d.content_fragments (note_texts d reasoned) in
              (k.3, k.2))
            (KeepsOrder-IsOrdered named reasoned
              (if_cases (KeepsOrder named) (is_empty d.finish_reason) named
                (note_finish d.finish_reason named) (λ _. (refl, refl))
                λ _. (notes_order [] d.finish_reason named).1)
              (KeepsOrder-IsOrdered st named
                (if_cases (KeepsOrder st) (is_empty d.role) st (note_role d.role st)
                  (λ _. (refl, refl)) λ _. (notes_order d.role [] st).0)
                (h (Keeps-empty st (apply_choice d st) (apply_choice-Keeps d st) e))))))
    where
      named : AssemblyState
      named = if is_empty d.role then st else note_role d.role st

      reasoned : AssemblyState
      reasoned = if is_empty d.finish_reason then named else note_finish d.finish_reason named

      filled : AssemblyState
      filled = apply_contents d.content_fragments (note_texts d reasoned)

      tooled : AssemblyState
      tooled = apply_tool_fragments (length d.tool_fragments) d.tool_fragments filled

  note_usage-IsCalm :
      (u : Option TokenCounts) (st : AssemblyState) → IsCalm st → IsCalm (note_usage u st)
  note_usage-IsCalm none st h = h
  note_usage-IsCalm (some u) st h = h

  received-IsCalm :
      (d : StreamDelta) (st : AssemblyState) (c : Option Error)
      → IsCalm st
      → IsCalm (received d st c)
  unfolding apply_delta note_conflict
  received-IsCalm d st (some x) h =
      λ e. h (Keeps-empty st (received d st (some x)) (received-Keeps d st (some x)) e)
  received-IsCalm d st none h =
      let used = note_usage-IsCalm d.usage st h in
      if_cases IsCalm d.has_choice _ _ (λ _. apply_choice-IsCalm d (note_usage d.usage st) used)
        (λ _. used)

  receive_all-IsCalm :
      (ds : List StreamDelta) (st : AssemblyState) → IsCalm st → IsCalm (receive_all ds st)
  unfolding receive_all receive
  receive_all-IsCalm [] st h = h
  receive_all-IsCalm (d ∷ ds) st h =
      receive_all-IsCalm ds (receive d st) (received-IsCalm d st (validate_stream_delta d) h)

  abbrev HasUniqueCalls : Finished → Type 0
  HasUniqueCalls (finished o) = unique_from [] (calls_of o) ≡ true
  HasUniqueCalls panicked = Unit {0}

  constructed-HasUniqueCalls :
      (o : Output) → unique_from [] (calls_of o) ≡ true → HasUniqueCalls (constructed o)
  unfolding constructed
  constructed-HasUniqueCalls o h = checked (validate_output o)
    where
      checked : (c : Option Error) → HasUniqueCalls (accepted o c)
      checked none = h
      checked (some e) = tt

  completed-HasUniqueCalls :
      (st : AssemblyState) → IsOrdered st → HasUniqueCalls (completed_output st)
  unfolding completed_output calls_of calls_in assemble_message
  completed-HasUniqueCalls st h =
      constructed-HasUniqueCalls (completed_value st) (build_calls_unique st h)

  partial-HasUniqueCalls :
      (status : OutputStatus) (detail : Text) (st : AssemblyState)
      → HasUniqueCalls (non_completed_output status detail st)
  unfolding non_completed_output calls_of calls_in assemble_message unique_from
  partial-HasUniqueCalls status detail st =
      constructed-HasUniqueCalls (non_completed_value status detail st) (
        if_cases (λ (m : Option Message). unique_from [] (calls_in m) ≡ true)
          (message_has_content (assemble_message false st)) (some (assemble_message false st)) none
          (λ _. refl) (λ _. refl))

  conclude-HasUniqueCalls :
      (broken : Bool) (st : AssemblyState) → IsCalm st → HasUniqueCalls (conclude broken st)
  unfolding conclude
  conclude-HasUniqueCalls broken st h =
      if_cases HasUniqueCalls (not (is_empty st.conflict_detail)) _ _
        (λ _. partial-HasUniqueCalls errored st.conflict_detail st)
        λ e.
          if_cases HasUniqueCalls (broken && not st.established) _ _
            (λ _. partial-HasUniqueCalls errored (codes "stream read failed") st)
            λ _.
              if_cases HasUniqueCalls (is_empty (finish_state_verdict st)) _ _
                (λ _. completed-HasUniqueCalls st (h (ground (arith, e))))
                λ _. partial-HasUniqueCalls errored (finish_state_verdict st) st

  pins-IsCalm :
      (st : AssemblyState)
      → IsCalm st
      → IsCalm (pin_incomplete_tool_call (pin_incomplete_opaque (pin_role st)))
  pins-IsCalm st h e = KeepsOrder-IsOrdered pinned last (pins_order pinned).2 (
      KeepsOrder-IsOrdered roled pinned (pins_order roled).1 (
        KeepsOrder-IsOrdered st roled (pins_order st).0 (
          h (
            Keeps-empty st roled (pins-Keeps st).0 (
              Keeps-empty roled pinned (pins-Keeps roled).1
                (Keeps-empty pinned last (pins-Keeps pinned).2 e))))))
    where
      roled : AssemblyState
      roled = pin_role st

      pinned : AssemblyState
      pinned = pin_incomplete_opaque roled

      last : AssemblyState
      last = pin_incomplete_tool_call pinned

  finalize_state-HasUniqueCalls :
      (broken done : Bool) (st : AssemblyState)
      → IsCalm st
      → HasUniqueCalls (finalize_state broken done st)
  unfolding finalize_state
  finalize_state-HasUniqueCalls broken done st h =
      let pinned = pin_incomplete_opaque (pin_role st) in
      if_cases HasUniqueCalls
        (is_empty pinned.conflict_detail && broken && not pinned.established && done) _ _
        (λ _. partial-HasUniqueCalls interrupted (codes "stream interrupted") pinned)
        λ _. conclude-HasUniqueCalls broken (pin_incomplete_tool_call pinned) (pins-IsCalm st h)

  -- The output exists, and its calls have different ids.
  abbrev pub IsIdentified : Finished → Type 0
  IsIdentified (finished o) = unique_from [] (calls_of o) ≡ true
  IsIdentified panicked = ⊥

  identified : (f : Finished) → Produces f → HasUniqueCalls f → IsIdentified f
  identified (finished o) p h = h
  identified panicked p h = p

  -- Under a complete source every stream is assembled into an output in which no two tool calls have the
  -- same id, however the stream's fragments interleave positions, ids and continuations.
  pub assemble_stream-IsIdentified :
      (source : ModelRef) (stream : Stream)
      → complete source ≡ true
      → IsIdentified (assemble_stream source stream)
  unfolding assemble_stream
  assemble_stream-IsIdentified source stream c =
      identified _ (assemble_stream-Produces source stream c) (
        finalize_state-HasUniqueCalls stream.broken stream.done
          (receive_all stream.deltas (new_assembly_state source))
          (receive_all-IsCalm stream.deltas (new_assembly_state source) (λ _. (tt, tt))))
