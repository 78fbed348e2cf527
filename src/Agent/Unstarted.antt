-- ===== src/Agent/Unstarted.antt =====
-- The calls that a run hands back, and validateUnstartedCalls of agent/settlement.go.
use lightcode.Prelude.{
  ℕ, suc, ◌≤◌, ◌≡◌, refl, true, false, Option, none, some, List, [], ◌∷◌, ◌++◌, Text, same_refl,
  arith, length, length-append, sym, ◌∙◌,
}
use mathlib.Core.Path.{subst}
use mathlib.Core.List.{append_assoc}
use lightcode.Model.{
  ModelRef, Message, completed, errored, interrupted, other_output, Json, ToolCall, OutputStatus,
  Output,
}
use lightcode.Model.Validate.{
  is_named, validate_tool_call, validate_calls, validate_output, validate_message,
  validate_output_message, completed_message, partial_message, status_rules,
}
use lightcode.Agent.Settle.{
  unique_from, index_of, correlate_unstarted, validate_unstarted_calls, correlate_with, calls_of,
  is_completed, calls_in,
}

-- An id that is seen is no id of the calls behind.
unique-seen :
    (seen : List Text) (pre suf : List ToolCall) (c : ToolCall)
    → unique_from seen (pre ++ c ∷ suf) ≡ true
    → is_named c.id seen ≡ false
unfolding unique_from is_named
unique-seen seen [] suf c h = ground (arith, h)
unique-seen seen (p ∷ pre) suf c h = ground (arith, h, unique-seen (p.id ∷ seen) pre suf c)

-- With unique ids a call is found where it stands.
pub index_of-position :
    (seen : List Text) (pre suf : List ToolCall) (c : ToolCall)
    → unique_from seen (pre ++ c ∷ suf) ≡ true
    → index_of c.id (pre ++ c ∷ suf) ≡ some (length pre)
unfolding unique_from is_named index_of
index_of-position seen [] suf c h = rw (same_refl c.id) refl
index_of-position seen (p ∷ pre) suf c h =
    ground
      (arith, h, unique-seen (p.id ∷ seen) pre suf c, index_of-position (p.id ∷ seen) pre suf c)

module _ ⦃json : Json⦄ where
  validate_calls-middle :
      (pre suf : List ToolCall) (c : ToolCall)
      → validate_calls (pre ++ c ∷ suf) ≡ none
      → validate_tool_call c ≡ none
  unfolding validate_calls
  validate_calls-middle [] suf c h = ground (arith, h)
  validate_calls-middle (p ∷ pre) suf c h = ground (arith, h, validate_calls-middle pre suf c)

  -- A suffix of a valid list of calls with unique ids passes the correlation from each lower bound.
  correlate-suffix :
      (suf pre calls : List ToolCall) (low : ℕ)
      → calls ≡ pre ++ suf
      → low ≤ length pre
      → unique_from [] calls ≡ true
      → validate_calls calls ≡ none
      → correlate_unstarted low suf calls ≡ none
  unfolding correlate_unstarted
  correlate-suffix [] pre calls low e l u v = refl
  correlate-suffix (c ∷ cs) pre calls low e l u v =
      let at : index_of c.id calls ≡ some (length pre) =
        subst (λ (l : List ToolCall). index_of c.id l ≡ some (length pre)) (sym e)
          (index_of-position [] pre cs c (subst (λ l. unique_from [] l ≡ true) e u)) in
      let ok : validate_tool_call c ≡ none =
        validate_calls-middle pre cs c (subst (λ l. validate_calls l ≡ none) e v) in
      let ih =
        correlate-suffix cs (pre ++ c ∷ []) calls (suc (length pre))
          (e ∙ sym (append_assoc pre (c ∷ []) cs)) (omega (arith, length-append pre (c ∷ []))) u
          v in
      rw (at, ok) (ground (arith, ih, l))

  message-calls :
      (m : Message) (source : ModelRef)
      → validate_output_message m source ≡ none
      → validate_calls m.tool_calls ≡ none
  unfolding validate_output_message validate_message
  message-calls m source h = ground (arith, h)

  completed-calls :
      (m : Option Message) (source : ModelRef)
      → completed_message m source ≡ none
      → validate_calls (calls_in m) ≡ none
  unfolding completed_message calls_in validate_calls
  completed-calls none source h = cc
  completed-calls (some m) source h = message-calls m source (ground (arith, h))

  partial-calls :
      (m : Option Message) (source : ModelRef)
      → partial_message m source ≡ none
      → validate_calls (calls_in m) ≡ none
  unfolding partial_message calls_in validate_calls
  partial-calls none source h = refl
  partial-calls (some m) source h = message-calls m source (ground (arith, h))

  status-calls :
      (o : Output) (s : OutputStatus) → status_rules o s ≡ none → validate_calls (calls_of o) ≡ none
  unfolding status_rules calls_of
  status-calls o completed h = completed-calls o.message o.source (ground (arith, h))
  status-calls o errored h = partial-calls o.message o.source (ground (arith, h))
  status-calls o interrupted h = partial-calls o.message o.source (ground (arith, h))
  status-calls o (other_output _) h = cc

  -- The calls of a valid output are valid.
  pub output-calls : (o : Output) → validate_output o ≡ none → validate_calls (calls_of o) ≡ none
  unfolding validate_output
  output-calls o h = status-calls o o.status (ground (arith, h))

  -- Each suffix of the calls of a valid completed output with unique ids may be handed back.
  pub unstarted-suffix :
      (o : Output) (pre suf : List ToolCall)
      → validate_output o ≡ none
      → unique_from [] (calls_of o) ≡ true
      → is_completed o.status ≡ true
      → calls_of o ≡ pre ++ suf
      → validate_unstarted_calls suf (some o) ≡ none
  unfolding validate_unstarted_calls correlate_with
  unstarted-suffix o pre [] v u c e = refl
  unstarted-suffix o pre (x ∷ suf) v u c e =
      rw c (correlate-suffix (x ∷ suf) pre (calls_of o) 0 e (omega arith) u (output-calls o v))
