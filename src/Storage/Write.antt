-- ===== src/Storage/Write.antt =====
-- The mutations of memoryState in internal/storage/memory.go. Each returns the state that it leaves
-- beside its result.
use lightcode.Prelude.{
  ℕ, Bool, not, Option, none, some, [], ◌∷◌, ◌++◌, Text, is_empty, if◌then◌else◌,
}
use lightcode.Prelude.Assoc.{lookup, insert, remove}
use lightcode.Prelude.Int.{ℤ, pos, eqb_ℤ, max_int64, ◌+ℤ◌}
use lightcode.Storage.{text_key, register_key}
use lightcode.Storage.{
  EntryDraft, Entry, RegisterKey, RegisterDraft, Register, Error, Result, invalid, conflict,
  storage, corrupt, ok, err,
}
use lightcode.Storage.Validate.{validate_entry_draft, validate_register_key, not_positive}
use lightcode.Storage.State.{
  State, session_key, entries_of, has_session, session_orphaned, has_entry_id, is_operation,
  has_operation_id, max_sequence, missing, entry_of, without_session,
}

module _ (json_valid : Text → Bool) where
  unfoldable pub insert_entry : State → EntryDraft → ℕ → State × Result Entry
  insert_entry s draft now = elim (validate_entry_draft json_valid draft) [
    | some e ↦ (s, err e)
    | none ↦
        if not (has_session s draft.session_id)
        then (s, err (missing s draft.session_id))
        else if has_entry_id draft.id s.entries
        then (s, err conflict)
        else (let list = entries_of s draft.session_id in
            let highest = max_sequence list in
            let entry = entry_of draft (highest +ℤ pos 1) now in
            if eqb_ℤ highest max_int64 then (s, err storage) else (
              record s { entries = insert draft.session_id (list ++ entry ∷ []) s.entries },
              ok entry,
            ))
  ]

  abbrev stored : State → RegisterDraft → State × Result Register
  stored s draft =
      let register : Register = record {
        key = draft.key;
        revision = pos 1;
        payload = draft.payload;
      } in
      elim (lookup draft.key s.registers) [
        | some _ ↦ (s, err conflict)
        | none ↦ (record s { registers = insert draft.key register s.registers }, ok register)
      ]

  unfoldable pub insert_register : State → RegisterDraft → State × Result Register
  insert_register s draft = elim (validate_register_key draft.key) [
    | some e ↦ (s, err e)
    | none ↦
        if not (json_valid draft.payload)
        then (s, err invalid)
        else if is_operation draft.key.kind
        then (if not (has_session s draft.key.session_id)
            then (s, err (missing s draft.key.session_id))
            else if has_operation_id draft.key.operation_id s.registers
            then (s, err conflict)
            else stored s draft)
        else if session_orphaned s draft.key.session_id
        then (s, err (corrupt draft.key.session_id))
        else stored s draft
  ]

  unfoldable pub replace_register : State → RegisterKey → ℤ → Text → State × Result Register
  replace_register s key expected payload = elim (validate_register_key key) [
    | some e ↦ (s, err e)
    | none ↦
        if not_positive expected
        then (s, err invalid)
        else if not (json_valid payload)
        then (s, err invalid)
        else elim (lookup key s.registers) [
          | none ↦ (s, err (missing s key.session_id))
          | some current ↦
              if session_orphaned s key.session_id
              then (s, err (corrupt key.session_id))
              else if not (eqb_ℤ current.revision expected)
              then (s, err conflict)
              else if eqb_ℤ current.revision max_int64
              then (s, err storage)
              else (let next : Register = record current {
                revision = current.revision +ℤ pos 1;
                payload = payload;
              } in
                  (record s { registers = insert key next s.registers }, ok next))
        ]
  ]

unfoldable pub delete_session : State → Text → State × Option Error
delete_session s sid =
    if is_empty sid
    then (s, some invalid)
    else if has_session s sid
    then (
      record s {
        registers = without_session sid (remove (session_key sid) s.registers);
        entries = remove sid s.entries;
      },
      none,
    )
    else (s, some (missing s sid))
