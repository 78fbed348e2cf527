-- ===== src/Agent/Received.antt =====
-- A stream's deltas keep the state of agent/assembly.go well formed, so each stream has an output.
use mathlib.Core.Path.{subst}
use lightcode.Prelude.{
  ℕ, ◌≡◌, refl, true, Option, none, some, List, [], ◌∷◌, Text, sym, is_empty, if◌then◌else◌, arith,
  if_cases, length,
}
use lightcode.Prelude.Assoc.{insert}
use lightcode.Model.{
  Json, ModelRef, complete, PartKind, text_part, image_url, opaque, other_kind, Error, TokenCounts,
}
use lightcode.Model.Extra.{validate_extra_values, add_all-valid}
use lightcode.Model.Stream.{
  ContentFragment, ToolCallFragment, StreamDelta, validate_stream_delta, validate_content_fragments,
  validate_tool_fragments,
}
use lightcode.Agent.{Stream}
use lightcode.Agent.State.{
  position_key, PartAcc, AssemblyState, new_assembly_state, note_conflict, note_role, note_finish,
}
use lightcode.Agent.Correlate.{
  natural, landing, position_of, allocate, materialize, correlate_tool_fragment, note_id,
  note_wire_type, store_call, apply_tool_fragment, apply_tool_fragments, apply_tool_event,
}
use lightcode.Agent.Content.{part_at, fill_part, kind_conflict, apply_content, apply_contents}
use lightcode.Agent.Assemble.{
  note_usage, note_texts, apply_choice, apply_delta, received, receive, receive_all,
  assemble_stream,
}
use lightcode.Agent.Parts.{apply_contents-ArePairs, ArePairs}
use lightcode.Agent.Calls.{apply_tool_fragments-AreCalls, AreCalls}
use lightcode.Agent.Produced.{
  Produces, IsAssembled, note_role-IsAssembled, note_finish-IsAssembled,
  check_establishment-IsAssembled, finalize_state-Produces,
}

module _ ⦃json : Json⦄ where
  -- Content fragments leave the rest of the state.
  abbrev pub KeepsCalls : AssemblyState → AssemblyState → Type 0
  KeepsCalls st st' =
      (st'.source ≡ st.source)
      × (st'.msg_extra ≡ st.msg_extra)
      × (st'.tool_deltas ≡ st.tool_deltas)
      × (st'.tool_ids ≡ st.tool_ids)

  -- Tool fragments leave the rest of the state.
  abbrev pub KeepsParts : AssemblyState → AssemblyState → Type 0
  KeepsParts st st' =
      (st'.source ≡ st.source) × (st'.msg_extra ≡ st.msg_extra) × (st'.content ≡ st.content)

  kind_conflict-KeepsCalls :
      (f : ContentFragment) (acc : PartAcc) (k : PartKind) (st : AssemblyState)
      → KeepsCalls st (kind_conflict f acc k st)
  unfolding kind_conflict note_conflict
  kind_conflict-KeepsCalls f acc text_part st = ground arith
  kind_conflict-KeepsCalls f acc image_url st = ground arith
  kind_conflict-KeepsCalls f acc opaque st = ground arith
  kind_conflict-KeepsCalls f acc (other_kind _) st = ground arith

  apply_content-KeepsCalls :
      (f : ContentFragment) (st : AssemblyState) → KeepsCalls st (apply_content f st)
  unfolding apply_content note_conflict
  apply_content-KeepsCalls f st =
      let p = natural f.position in
      let acc = part_at p st.content in
      ground (
        arith,
        kind_conflict-KeepsCalls f acc f.kind
            (record st { content = insert p (fill_part f acc) st.content }),
      )

  pub apply_contents-KeepsCalls :
      (fs : List ContentFragment) (st : AssemblyState) → KeepsCalls st (apply_contents fs st)
  unfolding apply_contents
  apply_contents-KeepsCalls [] st = (refl, refl, refl, refl)
  apply_contents-KeepsCalls (f ∷ fs) st =
      ground
        (arith, apply_contents-KeepsCalls fs (apply_content f st), apply_content-KeepsCalls f st)

  store_call-KeepsParts :
      (f : ToolCallFragment) (p : ℕ) (st : AssemblyState) → KeepsParts st (store_call f p st)
  unfolding store_call note_wire_type note_conflict
  store_call-KeepsParts f p st = ground arith

  correlated-KeepsParts :
      (o : Option ℕ) (st : AssemblyState)
      → KeepsParts st (materialize (allocate o st).idx (allocate o st).state)
  unfolding materialize allocate
  correlated-KeepsParts none st = (refl, refl, refl)
  correlated-KeepsParts (some p) st = (refl, refl, refl)

  note_id-KeepsParts : (id : Text) (p : ℕ) (st : AssemblyState) → KeepsParts st (note_id id p st)
  unfolding note_id note_conflict
  note_id-KeepsParts id p st = ground arith

  apply_tool_fragment-KeepsParts :
      (n : ℕ) (f : ToolCallFragment) (st : AssemblyState)
      → KeepsParts st (apply_tool_fragment n f st)
  unfolding apply_tool_fragment correlate_tool_fragment
  apply_tool_fragment-KeepsParts n f st =
      let o = landing n f.id f.name (position_of f) st in
      let l = allocate o st in
      let m = materialize l.idx l.state in
      ground (
        arith,
        store_call-KeepsParts f l.idx (note_id f.id l.idx m),
        note_id-KeepsParts f.id l.idx m,
        correlated-KeepsParts o st,
      )

  pub apply_tool_fragments-KeepsParts :
      (n : ℕ) (fs : List ToolCallFragment) (st : AssemblyState)
      → KeepsParts st (apply_tool_fragments n fs st)
  unfolding apply_tool_fragments
  apply_tool_fragments-KeepsParts n [] st = (refl, refl, refl)
  apply_tool_fragments-KeepsParts n (f ∷ fs) st = ground (
    arith,
    apply_tool_fragments-KeepsParts n fs (apply_tool_fragment n f st),
    apply_tool_fragment-KeepsParts n f st,
  )

  note_choice : StreamDelta → AssemblyState → AssemblyState
  note_choice d st =
      let named = if is_empty d.role then st else note_role d.role st in
      if is_empty d.finish_reason then named else note_finish d.finish_reason named

  note_choice-IsAssembled :
      (d : StreamDelta) (st : AssemblyState) → IsAssembled st → IsAssembled (note_choice d st)
  unfolding note_choice
  note_choice-IsAssembled d st h =
      if_cases IsAssembled (is_empty d.finish_reason) named (note_finish d.finish_reason named)
        (λ _. ok) (λ _. note_finish-IsAssembled d.finish_reason named ok)
    where
      named : AssemblyState
      named = if is_empty d.role then st else note_role d.role st

      ok : IsAssembled named
      ok =
          if_cases IsAssembled (is_empty d.role) st (note_role d.role st) (λ _. h)
            λ _. note_role-IsAssembled d.role st h

  apply_contents-IsAssembled :
      (fs : List ContentFragment) (st : AssemblyState)
      → validate_content_fragments fs ≡ none
      → IsAssembled st
      → IsAssembled (apply_contents fs st)
  apply_contents-IsAssembled fs st v h =
      let same = apply_contents-KeepsCalls fs st in
      (
        rw same.0 h.0,
        rw same.1 h.1,
        apply_contents-ArePairs fs st v h.2,
        subst AreCalls (sym same.2) h.3,
      )

  apply_tool_event-IsAssembled :
      (fs : List ToolCallFragment) (st : AssemblyState)
      → validate_tool_fragments fs ≡ none
      → IsAssembled st
      → IsAssembled (apply_tool_event fs st)
  unfolding apply_tool_event
  apply_tool_event-IsAssembled fs st v h =
      let same = apply_tool_fragments-KeepsParts (length fs) fs st in
      (
        rw same.0 h.0,
        rw same.1 h.1,
        subst ArePairs (sym same.2) h.2,
        apply_tool_fragments-AreCalls (length fs) fs st v h.3,
      )

  note_texts-IsAssembled :
      (d : StreamDelta) (st : AssemblyState)
      → validate_extra_values d.message_extra ≡ true
      → IsAssembled st
      → IsAssembled (note_texts d st)
  note_texts-IsAssembled d st v h =
      (h.0, add_all-valid d.message_extra st.msg_extra v h.1, h.2, h.3)

  apply_choice-IsAssembled :
      (d : StreamDelta) (st : AssemblyState)
      → validate_stream_delta d ≡ none
      → IsAssembled st
      → IsAssembled (apply_choice d st)
  unfolding apply_choice validate_stream_delta note_choice
  apply_choice-IsAssembled d st v h = check_establishment-IsAssembled _ (
      apply_tool_event-IsAssembled d.tool_fragments _ (ground (arith, v)) (
        apply_contents-IsAssembled d.content_fragments _ (ground (arith, v)) (
          note_texts-IsAssembled d (note_choice d st) (ground (arith, v))
            (note_choice-IsAssembled d st h))))

  note_usage-IsAssembled :
      (u : Option TokenCounts) (st : AssemblyState) → IsAssembled st → IsAssembled (note_usage u st)
  note_usage-IsAssembled none st h = h
  note_usage-IsAssembled (some u) st h = h

  received-IsAssembled :
      (d : StreamDelta) (st : AssemblyState) (c : Option Error)
      → validate_stream_delta d ≡ c
      → IsAssembled st
      → IsAssembled (received d st c)
  unfolding apply_delta note_conflict
  received-IsAssembled d st (some _) v h = h
  received-IsAssembled d st none v h =
      let used = note_usage-IsAssembled d.usage st h in
      if_cases IsAssembled d.has_choice _ _ (λ _. apply_choice-IsAssembled d _ v used) (λ _. used)

  receive_all-IsAssembled :
      (ds : List StreamDelta) (st : AssemblyState)
      → IsAssembled st
      → IsAssembled (receive_all ds st)
  unfolding receive_all receive
  receive_all-IsAssembled [] st h = h
  receive_all-IsAssembled (d ∷ ds) st h =
      receive_all-IsAssembled ds (receive d st)
        (received-IsAssembled d st (validate_stream_delta d) refl h)

  -- Under a complete source every stream, whatever it delivers and however it ends, is assembled into
  -- an output that passes the rules of model outputs, and no construction panics.
  pub assemble_stream-Produces :
      (source : ModelRef) (stream : Stream)
      → complete source ≡ true
      → Produces (assemble_stream source stream)
  unfolding assemble_stream validate_extra_values
  assemble_stream-Produces source stream h =
      finalize_state-Produces stream.broken stream.done
        (receive_all stream.deltas (new_assembly_state source))
        (receive_all-IsAssembled stream.deltas (new_assembly_state source) (h, refl, tt, tt))
