-- ===== src/Storage/Validate.antt =====
-- The validators of internal/storage/memory.go. `json_valid` stands for encoding/json's `Valid`.
use lightcode.Prelude.{
  Bool, true, false, not, Option, none, some, Text, is_empty, ◌==◌, if◌then◌else◌,
}
use lightcode.Prelude.Int.{ℤ, pos, ltb_ℤ}
use lightcode.Storage.{
  EntryKind, RegisterKind, EntryDraft, Entry, RegisterKey, Register, Error, other_entry, session,
  operation, other_register, invalid, corrupt,
}

unfoldable pub valid_entry_kind : EntryKind → Bool
valid_entry_kind (other_entry _) = false
valid_entry_kind _ = true

unfoldable pub valid_register_kind : RegisterKind → Bool
valid_register_kind (other_register _) = false
valid_register_kind _ = true

-- `x <= 0`
abbrev pub not_positive : ℤ → Bool
not_positive x = not (ltb_ℤ (pos 0) x)

-- A key's identity must be absent for a session and present for an operation.
abbrev pub key_shape : RegisterKind → Text → Bool
key_shape session operation_id = is_empty operation_id
key_shape operation operation_id = not (is_empty operation_id)
key_shape (other_register _) operation_id = false

unfoldable pub validate_register_key : RegisterKey → Option Error
validate_register_key key =
    if is_empty key.session_id
    then some invalid
    else if key_shape key.kind key.operation_id
    then none
    else some invalid

module _ (json_valid : Text → Bool) where
  unfoldable pub validate_entry_draft : EntryDraft → Option Error
  unfolding valid_entry_kind
  validate_entry_draft draft =
      if is_empty draft.session_id
      then some invalid
      else if is_empty draft.id
      then some invalid
      else if not (valid_entry_kind draft.kind)
      then some invalid
      else if not (json_valid draft.payload)
      then some invalid
      else none

  unfoldable pub validate_stored_entry : Entry → Option Error
  unfolding valid_entry_kind
  validate_stored_entry entry =
      if is_empty entry.session_id
      then some (corrupt entry.session_id)
      else if is_empty entry.id
      then some (corrupt entry.session_id)
      else if not (valid_entry_kind entry.kind)
      then some (corrupt entry.session_id)
      else if not_positive entry.sequence
      then some (corrupt entry.session_id)
      else if entry.committed_at == 0
      then some (corrupt entry.session_id)
      else if not (json_valid entry.payload)
      then some (corrupt entry.session_id)
      else none

  unfoldable pub validate_stored_register : Register → Option Error
  unfolding valid_register_kind
  validate_stored_register register =
      if is_empty register.key.session_id
      then some (corrupt register.key.session_id)
      else if not (valid_register_kind register.key.kind)
      then some (corrupt register.key.session_id)
      else if not (key_shape register.key.kind register.key.operation_id)
      then some (corrupt register.key.session_id)
      else if not_positive register.revision
      then some (corrupt register.key.session_id)
      else if not (json_valid register.payload)
      then some (corrupt register.key.session_id)
      else none
