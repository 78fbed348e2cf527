-- ===== src/Storage/Invariant/Registers.antt =====
-- insertRegister and replaceRegister of internal/storage/memory.go keep the invariant.
use lightcode.Prelude.{◌≡◌, Bool, true, false, some, Text, same_iff, arith, inl, inr}
use lightcode.Prelude.Int.{ℤ, pos, ◌+ℤ◌, +ℤ_parts}
use lightcode.Prelude.Assoc.{
  lookup, insert, lookup-insert, count_key, count_key-insert, AllPairs-insert, AllPairs-lookup,
  count_key-lookup-some,
}
use lightcode.Storage.{RegisterKey, RegisterDraft, Register, register_key, key_eqb_iff}
use lightcode.Storage.Validate.{validate_register_key, validate_stored_register}
use lightcode.Storage.State.{
  State, entries_of, has_session, session_orphaned, has_operation_id, is_operation, session_key,
}
use lightcode.Storage.Write.{insert_register, replace_register}
use lightcode.Storage.Outcome.{
  Adds, Replaces, new_register, insert_register-cases, replace_register-cases,
}
use lightcode.Storage.Invariant.{IsWellFormed, IsFiled}
use lightcode.Storage.Invariant.Filed.{
  any_register-insert, lookup_none-any_register, session_key_lem,
}
use lightcode.Storage.Invariant.Unique.{count_operations-insert, count_operations_absent}

module _ (json_valid : Text → Bool) (s : State) (w : IsWellFormed json_valid s) where
  -- Writing a register under its key, where the session exists or is the register itself.
  put_register-IsWellFormed :
      (key : RegisterKey) (r : Register)
      → IsFiled json_valid key r
      → (is_operation key.kind ≡ true → has_session s key.session_id ≡ true)
      → (count_key key s.registers ≡ 0
          → is_operation key.kind ≡ true
          → has_operation_id key.operation_id s.registers ≡ false)
      → IsWellFormed json_valid (record s { registers = insert key r s.registers })
  unfolding session_orphaned entries_of
  put_register-IsWellFormed key r f owned fresh = record {
    no_orphans = λ j. ground (
      arith,
      w.no_orphans j,
      w.no_orphans key.session_id,
      lookup-insert key (session_key j) r s.registers,
      any_register-insert j key r s.registers,
      key_eqb_iff key (session_key j),
      same_iff key.session_id j,
      session_key_lem key f.key_valid,
      owned,
    );
    rising = w.rising;
    filed = AllPairs-insert (IsFiled json_valid) key r s.registers f w.filed;
    unique_keys = λ k. rw count_key-insert (ground (arith, w.unique_keys k));
    unique_lists = w.unique_lists;
    unique_entries = w.unique_entries;
    unique_operations = λ id. ground (
      arith,
      w.unique_operations id,
      count_operations-insert id key r s.registers,
      count_operations_absent key.operation_id s.registers,
      same_iff key.operation_id id,
      fresh,
    );
  }

  new_register-IsFiled :
      (draft : RegisterDraft)
      → Adds json_valid s draft
      → IsFiled json_valid draft.key (new_register draft)
  unfolding validate_register_key validate_stored_register
  new_register-IsFiled draft a = ground (arith, a.key_valid, a.payload_valid)

  pub insert_register-IsWellFormed :
      (draft : RegisterDraft) → IsWellFormed json_valid (insert_register json_valid s draft).0
  insert_register-IsWellFormed draft = elim (insert_register-cases json_valid s draft) [
    | inl (e, p) ↦ rw p w
    | inr a ↦ rw a.outcome (
        put_register-IsWellFormed draft.key (new_register draft) (new_register-IsFiled draft a)
          (λ o. (a.operation_owned o).0) (λ _ o. (a.operation_owned o).1))
  ]

  next-IsFiled :
      (key : RegisterKey) (expected : ℤ) (payload : Text)
      (a : Replaces json_valid s key expected payload)
      → IsFiled json_valid key
          (record a.current { revision = a.current.revision +ℤ pos 1; payload = payload })
  unfolding validate_stored_register
  next-IsFiled key expected payload a =
      let old = AllPairs-lookup (IsFiled json_valid) key s.registers a.present w.filed in
      ground (
        arith,
        old.under,
        old.key_valid,
        old.valid,
        old.bounded,
        a.room,
        a.payload_valid,
        +ℤ_parts a.current.revision (pos 1),
      )

  -- A register that is there, of a session that is no orphan, has its session's register.
  owner :
      (key : RegisterKey) {r : Register}
      → lookup key s.registers ≡ some r
      → session_orphaned s key.session_id ≡ false
      → has_session s key.session_id ≡ true
  unfolding session_orphaned
  owner key {r} p h = ground (arith, lookup_none-any_register key s.registers)

  not-zero :
      (key : RegisterKey) {r : Register}
      → lookup key s.registers ≡ some r
      → ¬ (count_key key s.registers ≡ 0)
  not-zero key p = count_key-lookup-some key s.registers p

  pub replace_register-IsWellFormed :
      (key : RegisterKey) (expected : ℤ) (payload : Text)
      → IsWellFormed json_valid (replace_register json_valid s key expected payload).0
  replace_register-IsWellFormed key expected payload =
      elim (replace_register-cases json_valid s key expected payload) [
        | inl (e, p) ↦ rw p w
        | inr a ↦ rw a.outcome (
            put_register-IsWellFormed key _ (next-IsFiled key expected payload a)
              (λ _. owner key a.present a.owned) (λ c. absurd (not-zero key a.present c)))
      ]
