-- ===== src/Storage/Entries.antt =====
-- insertEntry and ReadEntries of internal/storage/memory.go together: a committed entry is read
-- back after all earlier ones.
use mathlib.Core.Path.{subst}
use lightcode.Prelude.{
  ℕ, ◌≡◌, ◌≢◌, refl, Bool, ◌||◌, List, [], ◌∷◌, ◌++◌, Text, arith, same, same_refl, All, is_empty,
  if◌then◌else◌, inl, inr, ◌∙◌,
}
use lightcode.Prelude.Int.{ℤ, pos, ltb_ℤ, ◌<ℤ◌, ◌≤ℤ◌, ◌+ℤ◌, +ℤ_parts}
use lightcode.Prelude.Assoc.{lookup-insert}
use lightcode.Storage.{Entry, EntryDraft, Error, Result, ok, err, text_key, register_key}
use lightcode.Storage.State.{State, entries_of, has_session, max_from, max_sequence}
use lightcode.Storage.Validate.{validate_entry_draft}
use lightcode.Storage.Read.{read_entries, collect_entries}
use lightcode.Storage.Write.{insert_entry}
use lightcode.Storage.Outcome.{Appends, append_to, new_entry, insert_entry-cases}
use lightcode.Storage.Invariant.{IsWellFormed, Rising}
use lightcode.Storage.Invariant.Rising.{low-le-max_from, All-le-max_from}
use lightcode.Storage.Invariant.Append.{insert_entry-IsWellFormed}

-- The entries above a sequence, as a plain filter.
pub above : ℤ → List Entry → List Entry
above after [] = []
above after (e ∷ es) =
    let rest = above after es in if ltb_ℤ after e.sequence then e ∷ rest else rest

module _ (json_valid : Text → Bool) where
  -- Entries that the invariant covers all pass the stored-envelope check.
  pub collect_entries_lem :
      (sid : Text) (low after : ℤ) (es : List Entry)
      → Rising json_valid sid low es
      → collect_entries json_valid after es ≡ ok (above after es)
  unfolding collect_entries above
  collect_entries_lem sid low after [] h = refl
  collect_entries_lem sid low after (e ∷ es) h =
      ground (arith, h.3, collect_entries_lem sid e.sequence after es h.4)

  -- On a well-formed state a read never reports corruption: it is refused for its arguments or for
  -- an absent session, and otherwise returns exactly the session's entries after the given
  -- sequence, in order.
  pub read_entries_lem :
      (s : State) (sid : Text) (after : ℤ)
      → IsWellFormed json_valid s
      → read_entries json_valid s sid after ≡ (
          if is_empty sid || ltb_ℤ after (pos 0)
          then err Error.invalid
          else if has_session s sid
          then ok (above after (entries_of s sid))
          else err Error.not_found)
  unfolding read_entries
  read_entries_lem s sid after w = ground (
    arith,
    w.no_orphans sid,
    collect_entries_lem sid (pos 0) after (entries_of s sid) (w.rising sid),
  )

  above-append :
      (after : ℤ) (xs ys : List Entry) → above after (xs ++ ys) ≡ above after xs ++ above after ys
  unfolding above
  above-append after [] ys = refl
  above-append after (x ∷ xs) ys = ground (arith, above-append after xs ys)

  above_max : (low after : ℤ) (es : List Entry) → max_from low es ≤ℤ after → above after es ≡ []
  unfolding above max_from
  above_max low after [] h = refl
  above_max low after (e ∷ es) h = ground (
    arith,
    above_max e.sequence after es,
    above_max low after es,
    low-le-max_from e.sequence es,
    low-le-max_from low es,
  )

  -- What a successful insertion appends, with the state that it leaves.
  record Appended (s s' : State) (draft : EntryDraft) (now : ℕ) (e : Entry) : Type 0 where
    pub facts : Appends json_valid s draft now
    pub entry : e ≡ new_entry s draft now
    pub state : s' ≡ append_to s draft.session_id (new_entry s draft now)

  appended :
      (s s' : State) (draft : EntryDraft) (now : ℕ) (e : Entry)
      → insert_entry json_valid s draft now ≡ (s', ok e)
      → Appended s s' draft now e
  appended s s' draft now e h = elim (insert_entry-cases json_valid s draft now) [
    | inl (x, p) ↦ absurd (ground (arith, p, h))
    | inr a ↦ record {
      facts = a;
      entry = ground (arith, a.outcome, h);
      state = ground (arith, a.outcome, h);
    }
  ]

  All-lt-next : (low : ℤ) (es : List Entry) → All (λ e. e.sequence <ℤ (max_from low es +ℤ pos 1)) es
  All-lt-next low es = go es (All-le-max_from low es)
    where
      go :
          (xs : List Entry)
          → All (λ e. e.sequence ≤ℤ max_from low es) xs
          → All (λ e. e.sequence <ℤ (max_from low es +ℤ pos 1)) xs
      go [] h = tt
      go (x ∷ xs) h = (omega (arith, h.0, +ℤ_parts (max_from low es) (pos 1)), go xs h.1)

  module _ (s : State) (draft : EntryDraft) (now : ℕ) (a : Appends json_valid s draft now) where
    entries_of-append_to :
        (e : Entry) (j : Text)
        → entries_of (append_to s draft.session_id e) j ≡ (
            if same draft.session_id j
            then entries_of s draft.session_id ++ e ∷ []
            else entries_of s j)
    unfolding entries_of
    entries_of-append_to e j = ground (
      arith,
      lookup-insert draft.session_id j (entries_of s draft.session_id ++ e ∷ []) s.entries,
    )

    append_to-read :
        now ≢ 0
        → IsWellFormed json_valid s
        → read_entries json_valid
            (append_to s draft.session_id (new_entry s draft now))
            draft.session_id
            (max_sequence (entries_of s draft.session_id))
          ≡ ok (new_entry s draft now ∷ [])
    unfolding has_session validate_entry_draft above max_sequence
    append_to-read clock w =
        let e = new_entry s draft now in
        let sid = draft.session_id in
        let old = entries_of s sid in
        let w' =
          subst (λ (r : State × Result Entry). IsWellFormed json_valid r.0) a.outcome
            (insert_entry-IsWellFormed json_valid s w draft now clock) in
        read_entries_lem (append_to s sid e) sid (max_sequence old) w'
        ∙ ground (
          arith,
          a.owned,
          a.draft_valid,
          low-le-max_from (pos 0) old,
          entries_of-append_to e sid,
          same_refl sid,
          above-append (max_sequence old) old (e ∷ []),
          above_max (pos 0) (max_sequence old) old (omega arith),
          +ℤ_parts (max_sequence old) (pos 1),
        )

  -- If the clock is not at its zero time, a successful insertion into a well-formed state puts one entry behind the session's others: its sequence is above all of
  -- theirs, a read after their highest sequence returns it alone, and the list of any other session
  -- stays as it is.
  pub insert_entry-read :
      (s s' : State) (draft : EntryDraft) (now : ℕ) (e : Entry) (j : Text)
      → now ≢ 0
      → IsWellFormed json_valid s
      → insert_entry json_valid s draft now ≡ (s', ok e)
      → let old = entries_of s draft.session_id in
        All (λ x. x.sequence <ℤ e.sequence) old
        × (read_entries json_valid s' draft.session_id (max_sequence old) ≡ ok (e ∷ []))
        × (entries_of s' j ≡ (if same draft.session_id j then old ++ e ∷ [] else entries_of s j))
  unfolding max_sequence
  insert_entry-read s s' draft now e j clock w h =
      let a = appended s s' draft now e h in
      let next = new_entry s draft now in
      rw (a.entry, a.state)
        (
          All-lt-next (pos 0) (entries_of s draft.session_id),
          append_to-read s draft now a.facts clock w,
          entries_of-append_to s draft now a.facts next j,
        )
