-- ===== src/Storage/Memory.antt =====
-- Memory of internal/storage/memory.go: committed state behind reads and `Transact`. The callback
-- is a tree of calls, each followed by what the callback does with the reply; what a context's
-- Err() returns at each point is an argument.
use lightcode.Prelude.{ℕ, Option, none, some, List, Text}
use lightcode.Prelude.Int.{ℤ}
use lightcode.Storage.{
  EntryDraft, Entry, RegisterKey, RegisterDraft, Register, Error, Result, ok, err,
}
use lightcode.Prelude.{Bool}
use lightcode.Storage.State.{State}
use lightcode.Storage.Read
use lightcode.Storage.Txn.{
  Txn, begin, txn_delete_session, txn_read_entries, txn_read_register, txn_insert_entry,
  txn_insert_register, txn_replace_register,
}

-- `func(harness.Transaction) error`. The time that an insertion reads comes with its call.
pub data Script : Type 0 where
  returns : Option Error → Script
  panics : Script
  read_entries : Text → ℤ → (Result (List Entry) → Script) → Script
  read_register : RegisterKey → (Result Register → Script) → Script
  insert_entry : EntryDraft → ℕ → (Result Entry → Script) → Script
  insert_register : RegisterDraft → (Result Register → Script) → Script
  replace_register : RegisterKey → ℤ → Text → (Result Register → Script) → Script
  delete_session : Text → (Option Error → Script) → Script

pub data Ending : Type 0 where
  returned : Option Error → Ending
  panicked : Ending

-- What `Transact` does once the callback is over: commit only a clean return.
abbrev pub finish : State → Option Error → Txn × Ending → State × Ending
finish s after (t, panicked) = (s, panicked)
finish s after (t, returned (some e)) = (s, returned (some e))
finish s after (t, returned none) = elim t.latched [
  | some e ↦ (s, returned (some e))
  | none ↦ elim after [ some e ↦ (s, returned (some e)) | none ↦ (t.state, returned none) ]
]

-- A committed read: the context is asked before and after the lock is taken.
abbrev pub locked_read {ℓ} : {A : Type ℓ} → Option Error → Option Error → Result A → Result A
locked_read (some e) locked r = err e
locked_read none (some e) r = err e
locked_read none none r = r

module _ (json_valid : Text → Bool) where
  unfoldable pub run : Script → Txn → Txn × Ending
  run (returns e) t = (t, returned e)
  run panics t = (t, panicked)
  run (read_entries sid after k) t = run (k (txn_read_entries json_valid t sid after)) t
  run (read_register key k) t = run (k (txn_read_register json_valid t key)) t
  run (insert_entry draft now k) t =
      let (t', r) = txn_insert_entry json_valid t draft now in run (k r) t'
  run (insert_register draft k) t =
      let (t', r) = txn_insert_register json_valid t draft in run (k r) t'
  run (replace_register key expected payload k) t =
      let (t', r) = txn_replace_register json_valid t key expected payload in run (k r) t'
  run (delete_session sid k) t = let (t', r) = txn_delete_session t sid in run (k r) t'

  unfoldable pub transact :
      State → Option Error → Option Error → Option Error → Script → State × Ending
  transact s (some e) locked after script = (s, returned (some e))
  transact s none (some e) after script = (s, returned (some e))
  transact s none none after script = finish s after (run script (begin s))

  unfoldable pub memory_read_entries :
      State → Option Error → Option Error → Text → ℤ → Result (List Entry)
  memory_read_entries s before locked sid after =
      locked_read before locked (Read.read_entries json_valid s sid after)

  unfoldable pub memory_read_register :
      State → Option Error → Option Error → RegisterKey → Result Register
  memory_read_register s before locked key =
      locked_read before locked (Read.read_register json_valid s key)

  unfoldable pub memory_read_registers :
      State → Option Error → Option Error → Text → Result (List Register)
  memory_read_registers s before locked sid =
      locked_read before locked (Read.read_registers json_valid s sid)

unfoldable pub memory_list_session_ids : State → Option Error → Option Error → Result (List Text)
memory_list_session_ids s before locked = locked_read before locked (ok (Read.list_session_ids s))
