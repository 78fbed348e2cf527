-- ===== src/Storage/Invariant/Append.antt =====
-- insertEntry of internal/storage/memory.go keeps the invariant.
use lightcode.Prelude.{
  ℕ, ◌≤◌, ◌≡◌, ◌≢◌, refl, Bool, true, false, none, [], ◌∷◌, ◌++◌, Text, same, same_iff, arith,
  Bool-cases, inl, inr,
}
use lightcode.Prelude.Int.{pos, max_int64, eqb_ℤ, ◌<ℤ◌, ◌≤ℤ◌, ◌+ℤ◌, +ℤ_parts}
use lightcode.Prelude.Assoc.{lookup-insert, count_key-insert}
use lightcode.Storage.{Entry, EntryDraft, text_key, register_key}
use lightcode.Storage.Validate.{validate_entry_draft, validate_stored_entry}
use lightcode.Storage.State.{
  State, entries_of, has_session, session_orphaned, has_entry_id, max_sequence,
}
use lightcode.Storage.Write.{insert_entry}
use lightcode.Storage.Outcome.{Appends, append_to, new_entry, insert_entry-cases}
use lightcode.Storage.Invariant.{IsWellFormed, Rising, count_entries}
use lightcode.Storage.Invariant.Rising.{Rising-snoc, low-le-max_from, max_sequence-bounded}
use lightcode.Storage.Invariant.Unique.{count_id-append, count_entries-insert, count_entries_absent}

module _ (json_valid : Text → Bool) (s : State) (w : IsWellFormed json_valid s) where
  module _ (sid : Text) (e : Entry) where
    append_to-no_orphans :
        has_session s sid ≡ true → (j : Text) → session_orphaned (append_to s sid e) j ≡ false
    unfolding session_orphaned
    append_to-no_orphans here j =
        let old = w.no_orphans j in
        ground (
          arith,
          lookup-insert sid j (entries_of s sid ++ e ∷ []) s.entries,
          same_iff sid j,
          w.no_orphans j,
        )

    append_to_unique :
        has_entry_id e.id s.entries ≡ false
        → (id : Text) → count_entries id (append_to s sid e).entries ≤ 1
    unfolding count_entries entries_of
    append_to_unique fresh id = ground (
      arith,
      count_entries-insert id sid (entries_of s sid ++ e ∷ []) s.entries,
      count_id-append id (entries_of s sid) (e ∷ []),
      count_entries_absent e.id s.entries,
      same_iff e.id id,
      w.unique_entries id,
    )

    append_to-Rising :
        e.session_id ≡ sid
        → max_sequence (entries_of s sid) <ℤ e.sequence
        → e.sequence ≤ℤ max_int64
        → validate_stored_entry json_valid e ≡ none
        → (j : Text) → Rising json_valid j (pos 0) (entries_of (append_to s sid e) j)
    unfolding entries_of max_sequence
    append_to-Rising i m b v j = elim (Bool-cases (same sid j)) [
      | inl x ↦
          rw (lookup-insert, x)
            (rw (← (same_iff sid j).0 x)
              (Rising-snoc json_valid sid (pos 0) (entries_of s sid) e i m b v (w.rising sid)))
      | inr x ↦ rw (lookup-insert, x) (w.rising j)
    ]

    append_to-IsWellFormed :
        has_session s sid ≡ true
        → has_entry_id e.id s.entries ≡ false
        → e.session_id ≡ sid
        → max_sequence (entries_of s sid) <ℤ e.sequence
        → e.sequence ≤ℤ max_int64
        → validate_stored_entry json_valid e ≡ none
        → IsWellFormed json_valid (append_to s sid e)
    append_to-IsWellFormed here fresh i m b v = record {
      no_orphans = append_to-no_orphans here;
      rising = append_to-Rising i m b v;
      filed = w.filed;
      unique_keys = w.unique_keys;
      unique_lists = λ j. rw count_key-insert (ground (arith, w.unique_lists j));
      unique_entries = append_to_unique fresh;
      unique_operations = w.unique_operations;
    }

  -- The sequence after the highest is positive and above it, where the guard leaves room.
  next_sequence :
      (draft : EntryDraft)
      → eqb_ℤ (max_sequence (entries_of s draft.session_id)) max_int64 ≡ false
      → let highest = max_sequence (entries_of s draft.session_id) in
        (highest <ℤ (highest +ℤ pos 1))
        × ((highest +ℤ pos 1) ≤ℤ max_int64)
        × (pos 0 <ℤ (highest +ℤ pos 1))
  unfolding max_sequence
  next_sequence draft room =
      let es = entries_of s draft.session_id in
      ground (
        arith,
        max_sequence-bounded json_valid draft.session_id es (w.rising draft.session_id),
        low-le-max_from (pos 0) es,
        +ℤ_parts (max_sequence es) (pos 1),
      )

  new_entry-valid :
      (draft : EntryDraft) (now : ℕ)
      → now ≢ 0
      → Appends json_valid s draft now
      → validate_stored_entry json_valid (new_entry s draft now) ≡ none
  unfolding validate_entry_draft validate_stored_entry
  new_entry-valid draft now clock a = ground (arith, a.draft_valid, (next_sequence draft a.room).2)

  pub insert_entry-IsWellFormed :
      (draft : EntryDraft) (now : ℕ)
      → now ≢ 0
      → IsWellFormed json_valid (insert_entry json_valid s draft now).0
  insert_entry-IsWellFormed draft now clock = elim (insert_entry-cases json_valid s draft now) [
    | inl (e, p) ↦ rw p w
    | inr a ↦
        let (above, bounded, _) = next_sequence draft a.room in
        rw a.outcome (
          append_to-IsWellFormed draft.session_id (new_entry s draft now) a.owned a.fresh refl above
            bounded (new_entry-valid draft now clock a))
  ]
