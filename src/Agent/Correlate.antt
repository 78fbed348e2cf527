-- ===== src/Agent/Correlate.antt =====
-- agent/tool_corr.go: which call a fragment belongs to, and what it adds to that call.
use lightcode.Prelude.{
  ℕ, zero, suc, Bool, false, not, ◌&&◌, ◌||◌, Option, none, some, List, [], ◌∷◌, ◌++◌, Text, same,
  codes, is_empty, if◌then◌else◌, ◌==◌, length,
}
use lightcode.Prelude.Int.{ℤ, pos, negsuc}
use lightcode.Prelude.Assoc.{lookup, insert, text_key}
use lightcode.Model.{Json}
use lightcode.Model.Extra.{new_extra_accumulator, add_all}
use lightcode.Model.Stream.{ToolCallFragment}
use lightcode.Agent.State.{position_key, CallAcc, AssemblyState, note_conflict, conflict_if}

-- The positions of a checked delta are not negative.
abbrev pub natural : ℤ → ℕ
natural (pos n) = n
natural (negsuc n) = 0

abbrev pub fresh_call : CallAcc
fresh_call = record { id = []; wire_type = []; name = []; args = []; extra = new_extra_accumulator }

unfoldable pub is_claimed : ℕ → List (ℕ × CallAcc) → Bool
is_claimed idx [] = false
is_claimed idx ((p, _) ∷ slots) = p == idx || is_claimed idx slots

abbrev pub call_or_fresh : Option CallAcc → CallAcc
call_or_fresh none = fresh_call
call_or_fresh (some c) = c

unfoldable pub slot_at : ℕ → List (ℕ × CallAcc) → CallAcc
unfolding lookup
slot_at idx slots = call_or_fresh (lookup idx slots)

-- A fragment without identity: a single one continues the last call, and one of several its own slot.
unfoldable pub continuation : ℕ → Option ℕ → AssemblyState → Option ℕ
unfolding is_claimed
continuation event_count none st = st.last_tool_idx
continuation event_count (some p) st =
    if is_claimed p st.tool_deltas
    then elim st.last_tool_idx [
      | some last ↦ some (if event_count == 1 then last else p)
      | none ↦ some p
    ]
    else st.last_tool_idx

-- The slot of a fragment with a position may be its own, one without an identity, or a new one.
unfoldable pub accepts : Text → CallAcc → Bool
accepts id slot = is_empty slot.id || not (is_empty id) && same slot.id id

unfoldable pub landing : ℕ → Text → Text → Option ℕ → AssemblyState → Option ℕ
unfolding continuation accepts is_claimed slot_at lookup
landing event_count id name position st =
    if is_empty id && is_empty name then continuation event_count position st else elim position [
      | some p ↦
          if not (is_claimed p st.tool_deltas) || accepts id (slot_at p st.tool_deltas)
          then some p
          else none
      | none ↦ if is_empty id then none else lookup id st.tool_ids
    ]

-- The scan for the lowest free slot; the fuel is one more than there are slots.
unfoldable pub free_slot : ℕ → ℕ → List (ℕ × CallAcc) → ℕ
unfolding is_claimed
free_slot zero next slots = next
free_slot (suc fuel) next slots =
    let later = free_slot fuel (suc next) slots in if is_claimed next slots then later else next

pub record Landed : Type 0 where
  pub idx : ℕ
  pub state : AssemblyState

unfoldable pub allocate : Option ℕ → AssemblyState → Landed
unfolding free_slot
allocate (some idx) st = record { idx = idx; state = st }
allocate none st =
    let idx = free_slot (suc (length st.tool_deltas)) st.next_tool_idx st.tool_deltas in
    record { idx = idx; state = record st { next_tool_idx = suc idx } }

unfoldable pub materialize : ℕ → AssemblyState → AssemblyState
unfolding is_claimed insert
materialize idx st = record st {
  tool_deltas =
      if is_claimed idx st.tool_deltas
      then st.tool_deltas
      else insert idx fresh_call st.tool_deltas;
}

abbrev pub position_of : ToolCallFragment → Option ℕ
position_of frag = elim frag.position [ some z ↦ some (natural z) | none ↦ none ]

unfoldable pub correlate_tool_fragment : ℕ → ToolCallFragment → AssemblyState → Landed
unfolding landing allocate materialize
correlate_tool_fragment event_count frag st =
    let l = allocate (landing event_count frag.id frag.name (position_of frag) st) st in
    record { idx = l.idx; state = materialize l.idx l.state }

abbrev pub record_id : Text → ℕ → AssemblyState → Option ℕ → AssemblyState
record_id id idx st (some prev) =
    conflict_if (not (prev == idx)) (codes "tool call id maps to conflicting positions") st
record_id id idx st none = record st { tool_ids = insert id idx st.tool_ids }

-- A call's identity has one position.
unfoldable pub note_id : Text → ℕ → AssemblyState → AssemblyState
unfolding lookup insert note_conflict
note_id id idx st = if is_empty id then st else record_id id idx st (lookup id st.tool_ids)

unfoldable pub note_wire_type : Text → CallAcc → AssemblyState → AssemblyState
unfolding note_conflict
note_wire_type wt entry st =
    if is_empty wt
    then st
    else if is_empty entry.wire_type
    then conflict_if (not (same wt (codes "function")))
        (codes "supplied tool call wire type is not function") st
    else conflict_if (not (same wt entry.wire_type))
        (codes "tool call wire type conflicts with earlier supplied type") st

module _ ⦃json : Json⦄ where
  unfoldable pub fill_call : ToolCallFragment → CallAcc → CallAcc
  unfolding add_all
  fill_call frag entry = record {
    id = if is_empty entry.id then frag.id else entry.id;
    wire_type = if is_empty entry.wire_type then frag.wire_type else entry.wire_type;
    name = entry.name ++ frag.name;
    args = entry.args ++ frag.argument_fragment;
    extra = add_all frag.extra entry.extra;
  }

  unfoldable pub store_call : ToolCallFragment → ℕ → AssemblyState → AssemblyState
  unfolding fill_call slot_at insert note_wire_type
  store_call frag idx st =
      let entry = slot_at idx st.tool_deltas in
      let noted = note_wire_type frag.wire_type entry st in
      record noted {
        tool_deltas = insert idx (fill_call frag entry) noted.tool_deltas;
        last_tool_idx = some idx;
      }

  unfoldable pub apply_tool_fragment : ℕ → ToolCallFragment → AssemblyState → AssemblyState
  unfolding correlate_tool_fragment note_id store_call
  apply_tool_fragment event_count frag st =
      let l = correlate_tool_fragment event_count frag st in
      store_call frag l.idx (note_id frag.id l.idx l.state)

  unfoldable pub apply_tool_fragments : ℕ → List ToolCallFragment → AssemblyState → AssemblyState
  unfolding apply_tool_fragment
  apply_tool_fragments event_count [] st = st
  apply_tool_fragments event_count (f ∷ fs) st =
      apply_tool_fragments event_count fs (apply_tool_fragment event_count f st)

  unfoldable pub apply_tool_event : List ToolCallFragment → AssemblyState → AssemblyState
  unfolding apply_tool_fragments
  apply_tool_event frags st = apply_tool_fragments (length frags) frags st
