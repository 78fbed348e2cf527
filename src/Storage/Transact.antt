-- ===== src/Storage/Transact.antt =====
-- Transact of internal/storage/memory.go as a whole.
use lightcode.Prelude.{
  ◌≡◌, ◌≢◌, ◌⊎◌, refl, Bool, none, some, Option, List, Text, arith, Bool-cases, Option-cases, inl,
  inr,
}
use lightcode.Prelude.Assoc.{lookup, count_key}
use lightcode.Storage.{Entry, Register, Error, Result, ok, err}
use lightcode.Storage.State.{State, new_state, entries_of, session_orphaned, any_register}
use lightcode.Storage.Write.{insert_entry, insert_register, replace_register}
use lightcode.Storage.Txn.{
  Txn, begin, latch, guard_write, txn_delete_session, txn_read_entries, txn_read_register,
  txn_insert_entry, txn_insert_register, txn_replace_register,
}
use lightcode.Storage.Memory.{Script, Ending, returned, panicked, run, transact, finish}
use lightcode.Storage.Invariant.{IsWellFormed, count_entries, count_operations}
use lightcode.Storage.Invariant.Append.{insert_entry-IsWellFormed}
use lightcode.Storage.Invariant.Registers.{
  insert_register-IsWellFormed, replace_register-IsWellFormed,
}
use lightcode.Storage.Invariant.Delete.{delete_session-IsWellFormed}

-- Every insertion of the callback reads a time that is not the zero time.
abbrev pub HasClock : Script → Type 0
HasClock (Script.returns e) = Unit
HasClock Script.panics = Unit
HasClock (Script.read_entries sid after k) = (r : Result (List Entry)) → HasClock (k r)
HasClock (Script.read_register key k) = (r : Result Register) → HasClock (k r)
HasClock (Script.insert_entry draft now k) = (now ≢ 0) × ((r : Result Entry) → HasClock (k r))
HasClock (Script.insert_register draft k) = (r : Result Register) → HasClock (k r)
HasClock (Script.replace_register key expected payload k) = (r : Result Register) → HasClock (k r)
HasClock (Script.delete_session sid k) = (r : Option Error) → HasClock (k r)

-- The state that a guarded mutation leaves is the old one or the mutation's.
settle-state {ℓ} :
    {A : Type ℓ} (P : State → Type 0) (t : Txn) (r : State × Result A)
    → P t.state
    → P r.0
    → P (guard_write t r).0.state
unfolding latch
settle-state P t (s, ok a) h k = elim (Bool-cases t.closed) [ inl c ↦ rw c h | inr c ↦ rw c k ]
settle-state P t (s, err e) h k = elim (Bool-cases t.closed) [ inl c ↦ rw c h | inr c ↦ rw c k ]

module _ (json_valid : Text → Bool) where
  pub new_state-IsWellFormed : IsWellFormed json_valid new_state
  unfolding session_orphaned any_register entries_of count_entries count_operations lookup count_key
  new_state-IsWellFormed = record {
    no_orphans = λ sid. refl;
    rising = λ sid. tt;
    filed = tt;
    unique_keys = λ key. omega arith;
    unique_lists = λ sid. omega arith;
    unique_entries = λ id. omega arith;
    unique_operations = λ id. omega arith;
  }

  delete-IsWellFormed :
      (t : Txn) (sid : Text)
      → IsWellFormed json_valid t.state
      → IsWellFormed json_valid (txn_delete_session t sid).0.state
  unfolding txn_delete_session
  delete-IsWellFormed t sid h = elim (Bool-cases t.closed) [
    | inl c ↦ rw c h
    | inr c ↦ rw c (delete_session-IsWellFormed json_valid t.state h sid)
  ]

  run-IsWellFormed :
      (script : Script) (t : Txn)
      → HasClock script
      → IsWellFormed json_valid t.state
      → IsWellFormed json_valid (run json_valid script t).0.state
  unfolding run txn_insert_entry txn_insert_register txn_replace_register
  run-IsWellFormed (Script.returns e) t c h = h
  run-IsWellFormed Script.panics t c h = h
  run-IsWellFormed (Script.read_entries sid after k) t c h =
      let r = txn_read_entries json_valid t sid after in run-IsWellFormed (k r) t (c r) h
  run-IsWellFormed (Script.read_register key k) t c h =
      let r = txn_read_register json_valid t key in run-IsWellFormed (k r) t (c r) h
  run-IsWellFormed (Script.insert_entry draft now k) t c h =
      let (t', r) = txn_insert_entry json_valid t draft now in
      run-IsWellFormed (k r) t' (c.1 r) (
        settle-state (IsWellFormed json_valid) t (insert_entry json_valid t.state draft now) h
          (insert_entry-IsWellFormed json_valid t.state h draft now c.0))
  run-IsWellFormed (Script.insert_register draft k) t c h =
      let (t', r) = txn_insert_register json_valid t draft in
      run-IsWellFormed (k r) t' (c r) (
        settle-state (IsWellFormed json_valid) t (insert_register json_valid t.state draft) h
          (insert_register-IsWellFormed json_valid t.state h draft))
  run-IsWellFormed (Script.replace_register key expected payload k) t c h =
      let (t', r) = txn_replace_register json_valid t key expected payload in
      run-IsWellFormed (k r) t' (c r) (
        settle-state (IsWellFormed json_valid) t
          (replace_register json_valid t.state key expected payload) h
          (replace_register-IsWellFormed json_valid t.state h key expected payload))
  run-IsWellFormed (Script.delete_session sid k) t c h =
      let (t', r) = txn_delete_session t sid in
      run-IsWellFormed (k r) t' (c r) (delete-IsWellFormed t sid h)

  -- Whatever the callback does and however it ends, and whatever the context answers, `Transact`
  -- takes a well-formed state to a well-formed one, if the clock is never at its zero time.
  pub transact-IsWellFormed :
      (s : State) (before locked after : Option Error) (script : Script)
      → HasClock script
      → IsWellFormed json_valid s
      → IsWellFormed json_valid (transact json_valid s before locked after script).0
  unfolding transact
  transact-IsWellFormed s (some e) locked after script c h = h
  transact-IsWellFormed s none (some e) after script c h = h
  transact-IsWellFormed s none none after script c h =
      finished after (run json_valid script (begin s)) (run-IsWellFormed script (begin s) c h)
    where
      finished :
          (after : Option Error) (r : Txn × Ending)
          → IsWellFormed json_valid r.0.state
          → IsWellFormed json_valid (finish s after r).0
      finished after (t, panicked) k = h
      finished after (t, returned (some e)) k = h
      finished after (t, returned none) k = elim (Option-cases t.latched) [
        | inr (e, p) ↦ rw p h
        | inl p ↦ elim (Option-cases after) [ inr (e, q) ↦ rw (p, q) h | inl q ↦ rw (p, q) k ]
      ]

  -- `Transact` returns nil exactly in the first case: the context is live at all three points, the
  -- callback returned nil and no error was latched, and then the callback's state is committed. In
  -- every other case, a panic included, the committed state is the one from before.
  pub transact_atomic :
      (s : State) (before locked after : Option Error) (script : Script)
      → let (t, ending) = run json_valid script (begin s) in
        let outcome = transact json_valid s before locked after script in
        ((outcome ≡ (t.state, returned none))
          × (before ≡ none)
          × (locked ≡ none)
          × (after ≡ none)
          × (ending ≡ returned none)
          × (t.latched ≡ none))
        ⊎ ((outcome.0 ≡ s) × (outcome.1 ≢ returned none))
  unfolding transact
  transact_atomic s (some e) locked after script = inr (refl, λ p. cc)
  transact_atomic s none (some e) after script = inr (refl, λ p. cc)
  transact_atomic s none none after script = finished after (run json_valid script (begin s))
    where
      finished :
          (after : Option Error) (r : Txn × Ending)
          → ((finish s after r ≡ (r.0.state, returned none))
              × (◌≡◌ {A = Option Error} none none)
              × (◌≡◌ {A = Option Error} none none)
              × (after ≡ none)
              × (r.1 ≡ returned none)
              × (r.0.latched ≡ none))
            ⊎ (((finish s after r).0 ≡ s) × ((finish s after r).1 ≢ returned none))
      finished after (t, panicked) = inr (refl, λ p. cc)
      finished after (t, returned (some e)) = inr (refl, λ p. cc)
      finished after (t, returned none) = elim (Option-cases t.latched) [
        | inr (e, p) ↦ inr (ground arith, ground arith)
        | inl p ↦ elim (Option-cases after) [
          | inr (e, q) ↦ inr (ground arith, ground arith)
          | inl q ↦ inl (ground arith, refl, refl, q, refl, p)
        ]
      ]
