-- ===== src/Agent/State.antt =====
-- The state of agent/assembly.go, and what its smaller methods note.
use lightcode.Prelude.{
  ℕ, suc, Bool, true, false, not, ◌&&◌, ◌||◌, Option, none, List, [], ◌∷◌, Text, same, codes,
  is_empty, if◌then◌else◌, ◌==◌, ==_iff,
}
use lightcode.Prelude.Assoc.{Key}
use lightcode.Model.{ModelRef, PartKind, TokenCounts}
use lightcode.Model.Extra.{ExtraAccumulator, new_extra_accumulator, has_values}

instance abbrev pub position_key : Key ℕ
position_key = record { eqb = ◌==◌; eqb_iff = ==_iff }

pub record CallAcc : Type 0 where
  pub id : Text
  pub wire_type : Text
  pub name : Text
  pub args : Text
  pub extra : ExtraAccumulator

pub record PartAcc : Type 0 where
  pub kind : PartKind
  pub opaque : Text
  pub text : Text
  pub url : Text
  pub extra : ExtraAccumulator

-- `content` holds the positions in the order in which they are first seen.
pub record AssemblyState : Type 0 where
  pub source : ModelRef
  pub refusal : Text
  pub role : Text
  pub finish_reason : Text
  pub conflict_detail : Text
  pub established : Bool
  pub usage : Option TokenCounts
  pub msg_extra : ExtraAccumulator
  pub content : List (ℕ × PartAcc)
  pub tool_deltas : List (ℕ × CallAcc)
  pub tool_ids : List (Text × ℕ)
  pub next_tool_idx : ℕ
  pub last_tool_idx : Option ℕ

abbrev pub new_assembly_state : ModelRef → AssemblyState
new_assembly_state source = record {
  source = source;
  refusal = [];
  role = [];
  finish_reason = [];
  conflict_detail = [];
  established = false;
  usage = none;
  msg_extra = new_extra_accumulator;
  content = [];
  tool_deltas = [];
  tool_ids = [];
  next_tool_idx = 0;
  last_tool_idx = none;
}

-- The details are the fixed words of the messages; the values that they quote are left out.
unfoldable pub note_conflict : Text → AssemblyState → AssemblyState
note_conflict detail st = record st {
  conflict_detail = if is_empty st.conflict_detail then detail else st.conflict_detail;
}

abbrev pub conflict_if : Bool → Text → AssemblyState → AssemblyState
conflict_if b detail st = if b then note_conflict detail st else st

unfoldable pub note_role : Text → AssemblyState → AssemblyState
unfolding note_conflict
note_role r st =
    if is_empty st.role
    then record st { role = r }
    else conflict_if (not (same r st.role)) (codes "conflicting response roles") st

unfoldable pub note_finish : Text → AssemblyState → AssemblyState
unfolding note_conflict
note_finish fr st =
    if is_empty st.finish_reason
    then record st { finish_reason = fr }
    else conflict_if (not (same fr st.finish_reason)) (codes "conflicting finish reasons") st

unfoldable pub part_non_empty : PartAcc → Bool
part_non_empty p =
    not (is_empty p.text)
    || not (is_empty p.url)
    || not (is_empty p.opaque)
    || has_values p.extra.values

unfoldable pub any_part : List (ℕ × PartAcc) → Bool
any_part [] = false
any_part ((_, p) ∷ ps) = part_non_empty p || any_part ps

unfoldable pub has_payload : AssemblyState → Bool
unfolding any_part
has_payload st = not (is_empty st.refusal) || any_part st.content || has_values st.msg_extra.values

unfoldable pub is_complete : CallAcc → Bool
is_complete c = not (is_empty c.id) && not (is_empty c.name)

unfoldable pub no_slots : List (ℕ × CallAcc) → Bool
no_slots [] = true
no_slots (_ ∷ _) = false

-- Whether firstIncompleteToolSlot finds a slot; which one it finds is only reported.
unfoldable pub any_incomplete : List (ℕ × CallAcc) → Bool
unfolding is_complete
any_incomplete [] = false
any_incomplete ((_, c) ∷ cs) = not (is_complete c) || any_incomplete cs

unfoldable pub complete_call_count : List (ℕ × CallAcc) → ℕ
unfolding is_complete
complete_call_count [] = 0
complete_call_count ((_, c) ∷ cs) =
    let rest = complete_call_count cs in if is_complete c then suc rest else rest
