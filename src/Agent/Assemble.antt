-- ===== src/Agent/Assemble.antt =====
-- agent/assembly.go: one accepted stream becomes one output.
use lightcode.Prelude.{Option, none, some, List, [], ◌∷◌, ◌++◌, codes, is_empty, if◌then◌else◌}
use lightcode.Model.{Json, ModelRef, complete, TokenCounts}
use lightcode.Model.Extra.{add_all}
use lightcode.Model.Validate.{Check}
use lightcode.Model.Stream.{StreamDelta, validate_stream_delta}
use lightcode.Agent.{Stream, Reply, answered, refused, at_agent}
use lightcode.Agent.State.{AssemblyState, new_assembly_state, note_conflict, note_role, note_finish}
use lightcode.Agent.Correlate.{apply_tool_event}
use lightcode.Agent.Content.{apply_contents}
use lightcode.Agent.Finalize.{Finished, check_establishment, finalize_state}

abbrev pub note_usage : Option TokenCounts → AssemblyState → AssemblyState
note_usage none st = st
note_usage (some u) st = record st { usage = some u }

module _ ⦃json : Json⦄ where
  abbrev pub note_texts : StreamDelta → AssemblyState → AssemblyState
  note_texts d st = record st {
    refusal = st.refusal ++ d.refusal_fragment;
    msg_extra = add_all d.message_extra st.msg_extra;
  }

  unfoldable pub apply_choice : StreamDelta → AssemblyState → AssemblyState
  unfolding note_role note_finish add_all apply_contents apply_tool_event check_establishment
  apply_choice d st =
      let named = if is_empty d.role then st else note_role d.role st in
      let reasoned =
        if is_empty d.finish_reason then named else note_finish d.finish_reason named in
      let filled = apply_contents d.content_fragments (note_texts d reasoned) in
      check_establishment (apply_tool_event d.tool_fragments filled)

  unfoldable pub apply_delta : StreamDelta → AssemblyState → AssemblyState
  unfolding apply_choice
  apply_delta d st =
      let used = note_usage d.usage st in if d.has_choice then apply_choice d used else used

  abbrev pub received : StreamDelta → AssemblyState → Check → AssemblyState
  received d st none = apply_delta d st
  received d st (some _) = note_conflict (codes "received stream delta rejected") st

  unfoldable pub receive : StreamDelta → AssemblyState → AssemblyState
  unfolding apply_delta validate_stream_delta note_conflict
  receive d st = received d st (validate_stream_delta d)

  unfoldable pub receive_all : List StreamDelta → AssemblyState → AssemblyState
  unfolding receive
  receive_all [] st = st
  receive_all (d ∷ ds) st = receive_all ds (receive d st)

  unfoldable pub assemble_stream : ModelRef → Stream → Finished
  unfolding receive_all finalize_state
  assemble_stream source stream =
      finalize_state stream.broken stream.done
        (receive_all stream.deltas (new_assembly_state source))

  -- `none` stands for a nil stream; the run's context is there.
  unfoldable pub assemble : ModelRef → Option Stream → Reply Finished
  unfolding assemble_stream complete
  assemble source none = refused at_agent
  assemble source (some stream) =
      if complete source then answered (assemble_stream source stream) else refused at_agent
