-- ===== src/Storage/Invariant.antt =====
-- The invariant of the envelopes that internal/storage/memory.go keeps.
pub mod Rising
pub mod Filed
pub mod Unique
pub mod Append
pub mod Registers
pub mod Delete
use lightcode.Prelude.{
  ℕ, ◌+◌, ◌≤◌, ◌≡◌, Bool, false, ◌&&◌, none, List, [], ◌∷◌, Text, same, if◌then◌else◌,
}
use lightcode.Prelude.Int.{ℤ, pos, max_int64, ◌<ℤ◌, ◌≤ℤ◌}
use lightcode.Prelude.Assoc.{AllPairs, count_key}
use lightcode.Storage.{Entry, RegisterKey, Register, text_key, register_key}
use lightcode.Storage.Validate.{
  validate_stored_entry, validate_register_key, validate_stored_register,
}
use lightcode.Storage.State.{State, entries_of, session_orphaned, is_operation}

-- How many entries of a list, and of all lists, carry an identity.
unfoldable pub count_id : Text → List Entry → ℕ
count_id id [] = 0
count_id id (e ∷ es) = (if same e.id id then 1 else 0) + count_id id es

unfoldable pub count_entries : Text → List (Text × List Entry) → ℕ
unfolding count_id
count_entries id [] = 0
count_entries id ((_, list) ∷ m) = count_id id list + count_entries id m

unfoldable pub count_operations : Text → List (RegisterKey × Register) → ℕ
count_operations id [] = 0
count_operations id ((key, _) ∷ m) =
    (if is_operation key.kind && same key.operation_id id then 1 else 0) + count_operations id m

module _ (json_valid : Text → Bool) where
  -- A session's entries carry its identity, are valid, and their sequences rise from above `low`.
  abbrev pub Rising : Text → ℤ → List Entry → Type 0
  Rising sid low [] = Unit {0}
  Rising sid low (e ∷ es) =
      (e.session_id ≡ sid)
      × (low <ℤ e.sequence)
      × (e.sequence ≤ℤ max_int64)
      × (validate_stored_entry json_valid e ≡ none)
      × Rising sid e.sequence es

  -- A register stands under its own valid key.
  pub record IsFiled (key : RegisterKey) (r : Register) : Type 0 where
    pub under : r.key ≡ key
    pub key_valid : validate_register_key key ≡ none
    pub valid : validate_stored_register json_valid r ≡ none
    pub bounded : r.revision ≤ℤ max_int64

  pub record IsWellFormed (s : State) : Type 0 where
    pub no_orphans : (sid : Text) → session_orphaned s sid ≡ false
    pub rising : (sid : Text) → Rising sid (pos 0) (entries_of s sid)
    pub filed : AllPairs IsFiled s.registers
    pub unique_keys : (key : RegisterKey) → count_key key s.registers ≤ 1
    pub unique_lists : (sid : Text) → count_key sid s.entries ≤ 1
    pub unique_entries : (id : Text) → count_entries id s.entries ≤ 1
    pub unique_operations : (id : Text) → count_operations id s.registers ≤ 1
