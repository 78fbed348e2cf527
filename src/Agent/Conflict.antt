-- ===== src/Agent/Conflict.antt =====
-- A conflict of a stream in agent/assembly.go is kept by all that follows.
use lightcode.Prelude.{
  ℕ, ◌≡◌, refl, true, false, Option, none, some, List, [], ◌∷◌, ◌++◌, Text, is_empty, if◌then◌else◌,
  arith, length, if_cases, Bool-cases, inl, inr, ◌∙◌,
}
use lightcode.Model.{Json, PartKind, text_part, image_url, opaque, other_kind, Error, TokenCounts}
use lightcode.Model.Stream.{ContentFragment, ToolCallFragment, StreamDelta, validate_stream_delta}
use lightcode.Agent.State.{
  position_key, PartAcc, AssemblyState, note_conflict, note_role, note_finish,
}
use lightcode.Agent.Correlate.{
  natural, landing, position_of, allocate, materialize, correlate_tool_fragment, note_id,
  note_wire_type, store_call, apply_tool_fragment, apply_tool_fragments, apply_tool_event,
}
use lightcode.Prelude.Assoc.{insert}
use lightcode.Agent.Content.{part_at, fill_part, kind_conflict, apply_content, apply_contents}
use lightcode.Agent.Finalize.{
  check_establishment, pin_incomplete_opaque, pin_incomplete_tool_call, pin_role,
}
use lightcode.Agent.Assemble.{
  note_usage, note_texts, apply_choice, apply_delta, received, receive, receive_all,
}

-- A state's detail, when there is one, is the one of the state before.
abbrev pub Keeps : AssemblyState → AssemblyState → Type 0
Keeps st st' = is_empty st.conflict_detail ≡ false → st'.conflict_detail ≡ st.conflict_detail

pub Keeps-trans : (a b c : AssemblyState) → Keeps a b → Keeps b c → Keeps a c
Keeps-trans a b c h k e = k (rw (h e) e) ∙ h e

-- Without a detail behind there is none before.
pub Keeps-empty :
    (st st' : AssemblyState)
    → Keeps st st'
    → is_empty st'.conflict_detail ≡ true
    → is_empty st.conflict_detail ≡ true
Keeps-empty st st' h e = elim (Bool-cases (is_empty st.conflict_detail)) [
  | inl k ↦ k
  | inr k ↦ absurd (ground (arith, e, h k, k))
]

module _ ⦃json : Json⦄ where
  pub note_role-Keeps : (r : Text) (st : AssemblyState) → Keeps st (note_role r st)
  unfolding note_role note_conflict
  note_role-Keeps r st e = ground (arith, e)

  pub note_finish-Keeps : (r : Text) (st : AssemblyState) → Keeps st (note_finish r st)
  unfolding note_finish note_conflict
  note_finish-Keeps r st e = ground (arith, e)

  pub check_establishment-Keeps : (st : AssemblyState) → Keeps st (check_establishment st)
  unfolding check_establishment
  check_establishment-Keeps st e = ground arith

  kind_conflict-Keeps :
      (f : ContentFragment) (acc : PartAcc) (k : PartKind) (st : AssemblyState)
      → Keeps st (kind_conflict f acc k st)
  unfolding kind_conflict note_conflict
  kind_conflict-Keeps f acc text_part st e = refl
  kind_conflict-Keeps f acc image_url st e = ground (arith, e)
  kind_conflict-Keeps f acc opaque st e = ground (arith, e)
  kind_conflict-Keeps f acc (other_kind _) st e = refl

  apply_content-Keeps : (f : ContentFragment) (st : AssemblyState) → Keeps st (apply_content f st)
  unfolding apply_content note_conflict
  apply_content-Keeps f st e =
      let p = natural f.position in
      let acc = part_at p st.content in
      ground (
        arith,
        e,
        kind_conflict-Keeps f acc f.kind
            (record st { content = insert p (fill_part f acc) st.content }),
      )

  pub apply_contents-Keeps :
      (fs : List ContentFragment) (st : AssemblyState) → Keeps st (apply_contents fs st)
  unfolding apply_contents
  apply_contents-Keeps [] st = λ e. refl
  apply_contents-Keeps (f ∷ fs) st =
      Keeps-trans st (apply_content f st) (apply_contents fs (apply_content f st))
        (apply_content-Keeps f st) (apply_contents-Keeps fs (apply_content f st))

  pub store_call-Keeps :
      (f : ToolCallFragment) (p : ℕ) (st : AssemblyState) → Keeps st (store_call f p st)
  unfolding store_call note_wire_type note_conflict
  store_call-Keeps f p st e = ground (arith, e)

  note_id-Keeps : (id : Text) (p : ℕ) (st : AssemblyState) → Keeps st (note_id id p st)
  unfolding note_id note_conflict
  note_id-Keeps id p st e = ground (arith, e)

  correlated-Keeps :
      (o : Option ℕ) (st : AssemblyState)
      → Keeps st (materialize (allocate o st).idx (allocate o st).state)
  unfolding materialize allocate
  correlated-Keeps none st e = refl
  correlated-Keeps (some p) st e = refl

  apply_tool_fragment-Keeps :
      (n : ℕ) (f : ToolCallFragment) (st : AssemblyState) → Keeps st (apply_tool_fragment n f st)
  unfolding apply_tool_fragment correlate_tool_fragment
  apply_tool_fragment-Keeps n f st =
      let o = landing n f.id f.name (position_of f) st in
      let l = allocate o st in
      let m = materialize l.idx l.state in
      let noted = note_id f.id l.idx m in
      Keeps-trans st m (store_call f l.idx noted) (correlated-Keeps o st) (
        Keeps-trans m noted (store_call f l.idx noted) (note_id-Keeps f.id l.idx m)
          (store_call-Keeps f l.idx noted))

  pub apply_tool_fragments-Keeps :
      (n : ℕ) (fs : List ToolCallFragment) (st : AssemblyState)
      → Keeps st (apply_tool_fragments n fs st)
  unfolding apply_tool_fragments
  apply_tool_fragments-Keeps n [] st = λ e. refl
  apply_tool_fragments-Keeps n (f ∷ fs) st =
      Keeps-trans st (apply_tool_fragment n f st)
        (apply_tool_fragments n fs (apply_tool_fragment n f st)) (apply_tool_fragment-Keeps n f st)
        (apply_tool_fragments-Keeps n fs (apply_tool_fragment n f st))

  pub apply_choice-Keeps : (d : StreamDelta) (st : AssemblyState) → Keeps st (apply_choice d st)
  unfolding apply_choice apply_tool_event
  apply_choice-Keeps d st = Keeps-trans st named (apply_choice d st) named-Keeps (
      Keeps-trans named reasoned (apply_choice d st) reasoned-Keeps (
        Keeps-trans reasoned filled (apply_choice d st)
          (apply_contents-Keeps d.content_fragments (note_texts d reasoned))
          (Keeps-trans filled tooled (apply_choice d st)
            (apply_tool_fragments-Keeps (length d.tool_fragments) d.tool_fragments filled)
            (check_establishment-Keeps tooled))))
    where
      named : AssemblyState
      named = if is_empty d.role then st else note_role d.role st

      reasoned : AssemblyState
      reasoned = if is_empty d.finish_reason then named else note_finish d.finish_reason named

      filled : AssemblyState
      filled = apply_contents d.content_fragments (note_texts d reasoned)

      tooled : AssemblyState
      tooled = apply_tool_fragments (length d.tool_fragments) d.tool_fragments filled

      named-Keeps : Keeps st named
      named-Keeps =
          if_cases (Keeps st) (is_empty d.role) st (note_role d.role st) (λ _ e. refl)
            λ _. note_role-Keeps d.role st

      reasoned-Keeps : Keeps named reasoned
      reasoned-Keeps =
          if_cases (Keeps named) (is_empty d.finish_reason) named
            (note_finish d.finish_reason named) (λ _ e. refl)
            λ _. note_finish-Keeps d.finish_reason named

  note_usage-Keeps : (u : Option TokenCounts) (st : AssemblyState) → Keeps st (note_usage u st)
  note_usage-Keeps none st e = refl
  note_usage-Keeps (some u) st e = refl

  pub received-Keeps :
      (d : StreamDelta) (st : AssemblyState) (c : Option Error) → Keeps st (received d st c)
  unfolding apply_delta note_conflict
  received-Keeps d st (some _) = λ e. ground (arith, e)
  received-Keeps d st none =
      let used = note_usage d.usage st in
      if_cases (Keeps st) d.has_choice (apply_choice d used) used
        (λ _.
          Keeps-trans st used (apply_choice d used) (note_usage-Keeps d.usage st)
            (apply_choice-Keeps d used))
        λ _. note_usage-Keeps d.usage st

  pub receive_all-Keeps :
      (ds : List StreamDelta) (st : AssemblyState) → Keeps st (receive_all ds st)
  unfolding receive_all receive
  receive_all-Keeps [] st = λ e. refl
  receive_all-Keeps (d ∷ ds) st =
      Keeps-trans st (receive d st) (receive_all ds (receive d st))
        (received-Keeps d st (validate_stream_delta d)) (receive_all-Keeps ds (receive d st))

  pub receive_all-append :
      (before after : List StreamDelta) (st : AssemblyState)
      → receive_all (before ++ after) st ≡ receive_all after (receive_all before st)
  unfolding receive_all
  receive_all-append [] after st = refl
  receive_all-append (d ∷ before) after st = receive_all-append before after (receive d st)

  pub pins-Keeps :
      (st : AssemblyState)
      → (Keeps st (pin_role st))
        × (Keeps st (pin_incomplete_opaque st))
        × (Keeps st (pin_incomplete_tool_call st))
  unfolding pin_role pin_incomplete_opaque pin_incomplete_tool_call note_conflict
  pins-Keeps st = (λ e. ground (arith, e), λ e. ground (arith, e), λ e. ground (arith, e))
