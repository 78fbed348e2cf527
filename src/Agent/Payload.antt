-- ===== src/Agent/Payload.antt =====
-- What hasPayload and completeCallCount count is in the message that agent/message_build.go builds.
use lightcode.Prelude.{ℕ, ◌≡◌, refl, Bool, false, not, List, [], ◌∷◌, ltb, arith, ◌∙◌}
use lightcode.Model.{Extra}
use lightcode.Model.Extra.{has_values, finalize}
use lightcode.Model.Validate.{part_has_payload, any_payload, no_calls, message_has_content}
use lightcode.Agent.State.{
  CallAcc, PartAcc, AssemblyState, part_non_empty, any_part, has_payload, complete_call_count,
}
use lightcode.Agent.Content.{
  insert_position, sort_positions, finished_part, emit_parts, build_parts,
}
use lightcode.Agent.Finalize.{any_incomplete_opaque, emit_calls, build_calls, assemble_message}

pub has_values-finalize : (e : Extra) → has_values (finalize e) ≡ has_values e
unfolding has_values finalize
has_values-finalize [] = refl
has_values-finalize ((k, v) ∷ e) = ground (arith, has_values-finalize e)

any_part-insert :
    (x : ℕ × PartAcc) (parts : List (ℕ × PartAcc))
    → any_part (insert_position x parts) ≡ any_part (x ∷ parts)
unfolding any_part insert_position
any_part-insert x [] = refl
any_part-insert x (y ∷ ys) = ground (arith, any_part-insert x ys)

any_part-sort : (parts : List (ℕ × PartAcc)) → any_part (sort_positions parts) ≡ any_part parts
unfolding any_part sort_positions
any_part-sort [] = refl
any_part-sort (x ∷ xs) = any_part-insert x (sort_positions xs) ∙ ground (arith, any_part-sort xs)

any_incomplete-insert :
    (x : ℕ × PartAcc) (parts : List (ℕ × PartAcc))
    → any_incomplete_opaque (insert_position x parts) ≡ any_incomplete_opaque (x ∷ parts)
unfolding any_incomplete_opaque insert_position
any_incomplete-insert x [] = refl
any_incomplete-insert x (y ∷ ys) = ground (arith, any_incomplete-insert x ys)

any_incomplete-sort :
    (parts : List (ℕ × PartAcc))
    → any_incomplete_opaque (sort_positions parts) ≡ any_incomplete_opaque parts
unfolding any_incomplete_opaque sort_positions
any_incomplete-sort [] = refl
any_incomplete-sort (x ∷ xs) =
    any_incomplete-insert x (sort_positions xs) ∙ ground (arith, any_incomplete-sort xs)

finished_payload : (acc : PartAcc) → part_has_payload (finished_part acc) ≡ part_non_empty acc
unfolding part_has_payload finished_part part_non_empty
finished_payload acc = rw (has_values-finalize acc.extra.values) refl

any_payload-emit :
    (parts : List (ℕ × PartAcc))
    → any_incomplete_opaque parts ≡ false
    → any_payload (emit_parts parts) ≡ any_part parts
unfolding any_payload emit_parts any_part any_incomplete_opaque
any_payload-emit [] h = refl
any_payload-emit ((p, acc) ∷ parts) h =
    ground (arith, finished_payload acc, any_payload-emit parts, h)

-- Without an incomplete opaque part the message has content exactly when the state has a payload.
pub message_has_content-assemble :
    (b : Bool) (st : AssemblyState)
    → any_incomplete_opaque st.content ≡ false
    → message_has_content (assemble_message b st) ≡ has_payload st
unfolding message_has_content assemble_message has_payload build_parts
message_has_content-assemble b st h = ground (
  arith,
  has_values-finalize st.msg_extra.values,
  any_payload-emit (sort_positions st.content),
  any_incomplete-sort st.content,
  any_part-sort st.content,
  h,
)

emitted-insert :
    (x : ℕ × CallAcc) (calls : List (ℕ × CallAcc))
    → no_calls (emit_calls (insert_position x calls)) ≡ no_calls (emit_calls (x ∷ calls))
unfolding emit_calls insert_position
emitted-insert x [] = refl
emitted-insert x (y ∷ ys) = ground (arith, emitted-insert x ys)

emitted-sort :
    (calls : List (ℕ × CallAcc))
    → no_calls (emit_calls (sort_positions calls)) ≡ not (ltb 0 (complete_call_count calls))
unfolding emit_calls sort_positions complete_call_count
emitted-sort [] = refl
emitted-sort (x ∷ xs) = emitted-insert x (sort_positions xs) ∙ ground (arith, emitted-sort xs)

-- Calls are built exactly when a call is complete.
pub build_calls-count :
    (st : AssemblyState)
    → no_calls (build_calls st) ≡ not (ltb 0 (complete_call_count st.tool_deltas))
unfolding build_calls
build_calls-count st = emitted-sort st.tool_deltas
