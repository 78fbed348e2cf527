-- ===== src/Agent/Decided.antt =====
-- The first conflict of a stream in agent/assembly.go decides its output.
use mathlib.Core.Path.{subst}
use lightcode.Prelude.{
  ◌≡◌, refl, Bool, true, false, not, ◌&&◌, Option, none, some, List, ◌++◌, Text, is_empty, arith,
  if_cases, sym,
}
use lightcode.Model.{Json, ModelRef, complete, errored, Error}
use lightcode.Model.Validate.{validate_output}
use lightcode.Model.Stream.{StreamDelta}
use lightcode.Agent.State.{AssemblyState, new_assembly_state}
use lightcode.Agent.Finalize.{
  Finished, finished, panicked, pin_incomplete_opaque, pin_incomplete_tool_call, pin_role,
  non_completed_output, conclude, finalize_state, accepted, constructed, non_completed_value,
}
use lightcode.Agent.Assemble.{assemble_stream, receive_all}
use lightcode.Agent.Received.{assemble_stream-Produces}
use lightcode.Agent.Produced.{Produces}
use lightcode.Agent.Conflict.{pins-Keeps, Keeps-trans, receive_all-Keeps, receive_all-append}

module _ ⦃json : Json⦄ where
  -- An output that is errored with a detail
  abbrev IsErroredWith : Text → Finished → Type 0
  IsErroredWith detail (finished o) = (o.status ≡ errored) × (o.detail ≡ detail)
  IsErroredWith detail panicked = Unit {0}

  errored-IsErroredWith :
      (detail : Text) (st : AssemblyState)
      → IsErroredWith detail (non_completed_output errored detail st)
  unfolding non_completed_output constructed
  errored-IsErroredWith detail st =
      checked (validate_output (non_completed_value errored detail st))
    where
      checked :
          (c : Option Error)
          → IsErroredWith detail (accepted (non_completed_value errored detail st) c)
      checked none = (refl, refl)
      checked (some e) = tt

  finalize_state-errored :
      (broken done : Bool) (st : AssemblyState)
      → is_empty st.conflict_detail ≡ false
      → IsErroredWith st.conflict_detail (finalize_state broken done st)
  unfolding finalize_state conclude
  finalize_state-errored broken done st e =
      if_cases (IsErroredWith st.conflict_detail)
        (is_empty pinned.conflict_detail && broken && not pinned.established && done) _ _
        (λ h. absurd (ground (arith, h, before, e)))
        λ _.
          if_cases (IsErroredWith st.conflict_detail) (not (is_empty last.conflict_detail)) _ _
            (λ _.
              subst (λ d. IsErroredWith d (non_completed_output errored last.conflict_detail last))
                after (errored-IsErroredWith last.conflict_detail last))
            λ h. absurd (ground (arith, h, after, e))
    where
      roled : AssemblyState
      roled = pin_role st

      pinned : AssemblyState
      pinned = pin_incomplete_opaque roled

      last : AssemblyState
      last = pin_incomplete_tool_call pinned

      before : pinned.conflict_detail ≡ st.conflict_detail
      before = Keeps-trans st roled pinned (pins-Keeps st).0 (pins-Keeps roled).1 e

      after : last.conflict_detail ≡ st.conflict_detail
      after = Keeps-trans st pinned last (λ _. before) (pins-Keeps pinned).2 e

  -- The same, and no panic
  abbrev pub IsErrored : Text → Finished → Type 0
  IsErrored detail (finished o) = (o.status ≡ errored) × (o.detail ≡ detail)
  IsErrored detail panicked = ⊥

  without_panic :
      (detail : Text) (f : Finished) → Produces f → IsErroredWith detail f → IsErrored detail f
  without_panic detail (finished o) p h = h
  without_panic detail panicked p h = p

  -- The first conflict decides: once the first deltas of a stream have left a conflict, the output is
  -- errored with that conflict's detail, whatever deltas follow, however the stream ends, and whether or
  -- not a completion had been established. The source identity is complete.
  pub assemble_stream-conflict :
      (source : ModelRef) (before after : List StreamDelta) (broken done : Bool)
      → complete source ≡ true
      → is_empty (receive_all before (new_assembly_state source)).conflict_detail ≡ false
      → IsErrored (receive_all before (new_assembly_state source)).conflict_detail (
          assemble_stream source
            (record { deltas = before ++ after; broken = broken; done = done }))
  unfolding assemble_stream
  assemble_stream-conflict source before after broken done c e =
      let first = receive_all before (new_assembly_state source) in
      let kept = receive_all-Keeps after first e in
      without_panic first.conflict_detail _
        (assemble_stream-Produces source
          (record { deltas = before ++ after; broken = broken; done = done }) c)
        (subst
          (λ (s : AssemblyState).
            IsErroredWith first.conflict_detail (finalize_state broken done s))
          (sym (receive_all-append before after (new_assembly_state source)))
          (subst (λ d. IsErroredWith d (finalize_state broken done (receive_all after first))) kept
            (finalize_state-errored broken done (receive_all after first) (rw kept e))))
