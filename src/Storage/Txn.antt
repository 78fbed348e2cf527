-- ===== src/Storage/Txn.antt =====
-- memoryTxn of internal/storage/memory.go: a transaction works on its own copy of the state and
-- keeps the first error of conflict or storage class.
use lightcode.Prelude.{ℕ, Bool, true, false, Option, none, some, List, Text, if◌then◌else◌}
use lightcode.Prelude.Int.{ℤ}
use lightcode.Storage.{
  EntryDraft, Entry, RegisterKey, RegisterDraft, Register, Error, Result, invalid, conflict,
  storage, ok, err,
}
use lightcode.Storage.State.{State}
use lightcode.Storage.Read.{read_entries, read_register}
use lightcode.Storage.Write.{insert_entry, insert_register, replace_register, delete_session}

pub record Txn : Type 0 where
  pub state : State
  pub latched : Option Error
  pub closed : Bool

abbrev pub begin : State → Txn
begin s = record { state = s; latched = none; closed = false }

-- errors.Is against ErrConflict and ErrStorage
abbrev pub is_latching : Error → Bool
is_latching conflict = true
is_latching storage = true
is_latching _ = false

abbrev first_latched : Option Error → Error → Option Error
first_latched (some old) e = some old
first_latched none e = if is_latching e then some e else none

unfoldable pub latch : Txn → Error → Txn
latch t e = record t { latched = first_latched t.latched e }

-- A mutation's outcome, put back into the transaction: an error is latched.
abbrev pub settle {ℓ} : {A : Type ℓ} → Txn → State × Result A → Txn × Result A
settle t (s, ok a) = (record t { state = s }, ok a)
settle t (s, err e) = (latch (record t { state = s }) e, err e)

abbrev pub guard_read {ℓ} : {A : Type ℓ} → Txn → Result A → Result A
guard_read t r = if t.closed then err invalid else r

abbrev pub guard_write {ℓ} : {A : Type ℓ} → Txn → State × Result A → Txn × Result A
guard_write t r = if t.closed then (t, err invalid) else settle t r

abbrev put_state : Txn → State × Option Error → Txn × Option Error
put_state t (s, e) = (record t { state = s }, e)

unfoldable pub txn_delete_session : Txn → Text → Txn × Option Error
txn_delete_session t sid =
    if t.closed then (t, some invalid) else put_state t (delete_session t.state sid)

module _ (json_valid : Text → Bool) where
  unfoldable pub txn_read_entries : Txn → Text → ℤ → Result (List Entry)
  txn_read_entries t sid after = guard_read t (read_entries json_valid t.state sid after)

  unfoldable pub txn_read_register : Txn → RegisterKey → Result Register
  txn_read_register t key = guard_read t (read_register json_valid t.state key)

  unfoldable pub txn_insert_entry : Txn → EntryDraft → ℕ → Txn × Result Entry
  unfolding latch
  txn_insert_entry t draft now = guard_write t (insert_entry json_valid t.state draft now)

  unfoldable pub txn_insert_register : Txn → RegisterDraft → Txn × Result Register
  unfolding latch
  txn_insert_register t draft = guard_write t (insert_register json_valid t.state draft)

  unfoldable pub txn_replace_register : Txn → RegisterKey → ℤ → Text → Txn × Result Register
  unfolding latch
  txn_replace_register t key expected payload =
      guard_write t (replace_register json_valid t.state key expected payload)
