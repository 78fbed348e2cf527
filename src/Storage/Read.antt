-- ===== src/Storage/Read.antt =====
-- The reads of memoryState in internal/storage/memory.go.
use lightcode.Prelude.{
  sort_texts, Bool, false, not, ◌||◌, none, some, List, [], ◌∷◌, Text, same, is_empty, ◌==◌, length,
  if◌then◌else◌, suc,
}
use lightcode.Prelude.Assoc.{lookup}
use lightcode.Prelude.Int.{ℤ, pos, ltb_ℤ}
use lightcode.Storage.{register_key}
use lightcode.Storage.{Entry, RegisterKey, Register, Result, invalid, not_found, corrupt, ok, err}
use lightcode.Storage.Validate.{
  validate_register_key, validate_stored_entry, validate_stored_register,
}
use lightcode.Storage.State.{
  State, session_key, entries_of, has_session, session_orphaned, missing, registered, operations_of,
  sort_operations, cons_ok, checked,
}

module _ (json_valid : Text → Bool) where
  unfoldable pub collect_entries : ℤ → List Entry → Result (List Entry)
  collect_entries after [] = ok []
  collect_entries after (e ∷ es) =
      let rest = collect_entries after es in
      if not (ltb_ℤ after e.sequence)
      then rest
      else checked (validate_stored_entry json_valid e) (cons_ok e rest)

  unfoldable pub read_entries : State → Text → ℤ → Result (List Entry)
  read_entries s sid after =
      if is_empty sid
      then err invalid
      else if ltb_ℤ after (pos 0)
      then err invalid
      else if has_session s sid
      then collect_entries after (entries_of s sid)
      else err (missing s sid)

  unfoldable pub read_register : State → RegisterKey → Result Register
  read_register s key = checked (validate_register_key key) (
      if session_orphaned s key.session_id
      then err (corrupt key.session_id)
      else elim (lookup key s.registers) [
        | none ↦ err not_found
        | some r ↦ checked (validate_stored_register json_valid r) (ok r)
      ])

  unfoldable pub collect_registers : List Register → Result (List Register)
  collect_registers [] = ok []
  collect_registers (r ∷ rs) =
      let rest = collect_registers rs in
      checked (validate_stored_register json_valid r) (cons_ok r rest)

  unfoldable pub read_registers : State → Text → Result (List Register)
  read_registers s sid =
      if is_empty sid
      then err invalid
      else if session_orphaned s sid
      then err (corrupt sid)
      else elim (lookup (session_key sid) s.registers) [
        | none ↦ err not_found
        | some r ↦
            let operations = operations_of sid s.registers in
            checked (validate_stored_register json_valid r) (
              if registered sid s.registers == suc (length operations)
              then cons_ok r (collect_registers (sort_operations operations))
              else err (corrupt sid))
      ]

-- listSessionIDs: the identities seen in a map, sorted by sort.Strings
unfoldable pub contains : Text → List Text → Bool
contains t [] = false
contains t (x ∷ xs) = same x t || contains t xs

unfoldable pub add_id : Text → List Text → List Text
unfolding contains
add_id t seen = if contains t seen then seen else t ∷ seen

unfoldable pub seen_entries : List (Text × List Entry) → List Text
unfolding add_id
seen_entries [] = []
seen_entries ((sid, _) ∷ m) = add_id sid (seen_entries m)

unfoldable pub seen_registers : List Text → List (RegisterKey × Register) → List Text
unfolding add_id
seen_registers seen [] = seen
seen_registers seen ((key, _) ∷ m) = add_id key.session_id (seen_registers seen m)

unfoldable pub list_session_ids : State → List Text
unfolding sort_texts seen_registers seen_entries
list_session_ids s = sort_texts (seen_registers (seen_entries s.entries) s.registers)
