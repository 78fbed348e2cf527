-- ===== src/Storage/Deleting.antt =====
-- deleteSession of internal/storage/memory.go as its readers see it.
use lightcode.Prelude.{
  ◌≡◌, ◌≢◌, refl, Bool, true, false, ◌||◌, none, List, [], ◌∷◌, Text, arith, if◌then◌else◌, inl,
  inr, ◌∙◌, same, same_iff, same_refl, is_empty,
}
use lightcode.Prelude.Int.{ℤ, pos, ltb_ℤ}
use lightcode.Prelude.Assoc.{lookup, lookup-remove, remove}
use lightcode.Storage.{RegisterKey, Register, Error, err, text_key, register_key, key_eqb_iff}
use lightcode.Storage.State.{
  State, has_session, session_key, registered, operations_of, without_session, checked,
}
use lightcode.Storage.Validate.{validate_register_key}
use lightcode.Storage.Read.{read_entries, read_register, read_registers}
use lightcode.Storage.Write.{delete_session}
use lightcode.Storage.Invariant.Delete.{
  erase, delete_session-cases, has_session-erase, entries_of-erase, session_orphaned-erase,
}
use lightcode.Storage.Invariant.Filed.{lookup-without_session}

lookup-erase :
    (s : State) (sid : Text) (key : RegisterKey)
    → lookup key (erase s sid).registers
      ≡ (if same key.session_id sid then none else lookup key s.registers)
lookup-erase s sid key = ground (
  arith,
  lookup-without_session sid key (remove (session_key sid) s.registers),
  lookup-remove (session_key sid) key s.registers,
  key_eqb_iff (session_key sid) key,
  same_iff key.session_id sid,
)

-- Another session's registers are left, in their order.
registered-erase :
    (sid j : Text) (m : List (RegisterKey × Register))
    → same sid j ≡ false
    → registered j (without_session sid (remove (session_key sid) m)) ≡ registered j m
unfolding registered without_session remove
registered-erase sid j [] h = refl
registered-erase sid j ((k, r) ∷ m) h = ground (
  arith,
  registered-erase sid j m h,
  key_eqb_iff k (session_key sid),
  same_iff k.session_id sid,
  same_iff k.session_id j,
  same_iff sid j,
)

operations_of-erase :
    (sid j : Text) (m : List (RegisterKey × Register))
    → same sid j ≡ false
    → operations_of j (without_session sid (remove (session_key sid) m)) ≡ operations_of j m
unfolding operations_of without_session remove
operations_of-erase sid j [] h = refl
operations_of-erase sid j ((k, r) ∷ m) h = ground (
  arith,
  operations_of-erase sid j m h,
  key_eqb_iff k (session_key sid),
  same_iff k.session_id sid,
  same_iff k.session_id j,
  same_iff sid j,
)

module _ (json_valid : Text → Bool) (s : State) (sid : Text) where
  read_entries-erase :
      (j : Text) (after : ℤ)
      → read_entries json_valid (erase s sid) j after ≡ (
          if is_empty j || ltb_ℤ after (pos 0)
          then err Error.invalid
          else if same sid j
          then err Error.not_found
          else read_entries json_valid s j after)
  unfolding read_entries
  read_entries-erase j after =
      ground
        (arith, has_session-erase s sid j, entries_of-erase s sid j, session_orphaned-erase s sid j)

  read_register-erase :
      (key : RegisterKey)
      → read_register json_valid (erase s sid) key ≡ (
          if same key.session_id sid
          then checked (validate_register_key key) (err Error.not_found)
          else read_register json_valid s key)
  unfolding read_register
  read_register-erase key = ground (
    arith,
    lookup-erase s sid key,
    session_orphaned-erase s sid key.session_id,
    same_iff sid key.session_id,
    same_iff key.session_id sid,
  )

  read_registers-erase :
      (j : Text)
      → same sid j ≡ false
      → read_registers json_valid (erase s sid) j ≡ read_registers json_valid s j
  unfolding read_registers
  read_registers-erase j h = ground (
    arith,
    lookup-erase s sid (session_key j),
    same_iff sid j,
    same_iff j sid,
    session_orphaned-erase s sid j,
    registered-erase sid j s.registers h,
    operations_of-erase sid j s.registers h,
  )

  read_registers-erase_self :
      is_empty sid ≡ false → read_registers json_valid (erase s sid) sid ≡ err Error.not_found
  unfolding read_registers
  read_registers-erase_self named =
      ground (
        arith,
        lookup-erase s sid (session_key sid),
        same_refl sid,
        session_orphaned-erase s sid sid,
      )

  -- Deleting a session that exists succeeds, and then nothing of it is found: not by a read of its
  -- entries after a sequence that is not negative, of a register under a valid key, or of all its
  -- registers. The identity of the session is not empty.
  pub delete_session-gone :
      (after : ℤ) (key : RegisterKey)
      → is_empty sid ≡ false
      → has_session s sid ≡ true
      → ltb_ℤ after (pos 0) ≡ false
      → key.session_id ≡ sid
      → validate_register_key key ≡ none
      → let (s', e) = delete_session s sid in
        (e ≡ none)
        × (read_entries json_valid s' sid after ≡ err Error.not_found)
        × (read_register json_valid s' key ≡ err Error.not_found)
        × (read_registers json_valid s' sid ≡ err Error.not_found)
  delete_session-gone after key named here natural own valid =
      let done : delete_session s sid ≡ (erase s sid, none) =
        unfold delete_session in ground arith in
      rw done (
        refl,
        read_entries-erase sid after ∙ ground (arith, same_refl sid),
        read_register-erase key ∙ ground (arith, same_iff key.session_id sid),
        read_registers-erase_self named,
      )

  -- Whatever a deletion answers, each read of another session answers as before.
  pub delete_session-others :
      (j : Text) (after : ℤ) (key : RegisterKey)
      → sid ≢ j
      → key.session_id ≡ j
      → let s' = (delete_session s sid).0 in
        (read_entries json_valid s' j after ≡ read_entries json_valid s j after)
        × (read_register json_valid s' key ≡ read_register json_valid s key)
        × (read_registers json_valid s' j ≡ read_registers json_valid s j)
  delete_session-others j after key ne own = elim (delete_session-cases s sid) [
    | inl (e, p) ↦ rw p (refl, refl, refl)
    | inr (h, p) ↦
        let differ : same sid j ≡ false = ground (arith, same_iff sid j) in
        rw p (
          read_entries-erase j after ∙ (unfold read_entries in ground arith),
          read_register-erase key
              ∙ ground (arith, same_iff key.session_id sid, same_iff sid key.session_id),
          read_registers-erase j differ,
        )
  ]
