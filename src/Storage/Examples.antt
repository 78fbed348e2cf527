-- ===== src/Storage/Examples.antt =====
-- One session in a store: the theorems about internal/storage/memory.go at concrete inputs.
use mathlib.Core.Path.{subst}
use mathlib.Core.List.{Perm}
use lightcode.Prelude.{
  ap, ◌≡◌, ◌≢◌, ◌⊎◌, refl, Bool, true, false, none, some, Option, List, [], ◌∷◌, ◌++◌, Text, same,
  All, arith, if◌then◌else◌,
}
use lightcode.Prelude.Int.{ℤ, pos, ◌<ℤ◌, ◌+ℤ◌}
use lightcode.Prelude.Assoc.{lookup, insert}
use lightcode.Storage.{
  Entry, EntryDraft, RegisterKey, RegisterDraft, Register, Error, ok, err, operation, input,
  text_key, register_key, key_eqb, kind_eqb,
}
use lightcode.Storage.Validate.{
  validate_entry_draft, validate_register_key, validate_stored_register,
}
use lightcode.Storage.State.{
  State, new_state, session_key, entries_of, has_session, session_orphaned, max_sequence,
  operations_of, registered, sort_operations, insert_sorted, has_entry_id, any_register,
  has_operation_id,
}
use lightcode.Storage.Read.{read_entries, read_register, read_registers, collect_registers}
use lightcode.Storage.Write.{insert_entry, insert_register, replace_register, delete_session}
use lightcode.Storage.Txn.{Txn, begin, txn_insert_entry, txn_insert_register}
use lightcode.Storage.Memory
use lightcode.Storage.Memory.{Script, returned, run, transact}
use lightcode.Storage.Invariant.{IsWellFormed}
use lightcode.Storage.Transact.{
  HasClock, new_state-IsWellFormed, transact-IsWellFormed, transact_atomic,
}
use lightcode.Storage.Guarantees.{reported, transact_no_ignored_failure}
use lightcode.Storage.Entries.{insert_entry-read}
use lightcode.Storage.Revisions.{replace_register-read}
use lightcode.Storage.Reading.{read_registers-sorted, Ordered}
use lightcode.Storage.Deleting.{delete_session-gone, delete_session-others}

abbrev accepts : Text → Bool
accepts _ = true

abbrev sid : Text
sid = 115 ∷ []

abbrev own_key : RegisterKey
own_key = session_key sid

abbrev run_key : RegisterKey
run_key = record { session_id = sid; kind = operation; operation_id = 111 ∷ [] }

abbrev entry_draft : Text → EntryDraft
entry_draft id = record {
  session_id = sid;
  id = id;
  operation_id = [];
  kind = input;
  payload = 123 ∷ 125 ∷ [];
}

abbrev register_draft : RegisterKey → RegisterDraft
register_draft key = record { key = key; payload = 123 ∷ 125 ∷ [] }

abbrev first : Entry
first = record {
  session_id = sid;
  id = 97 ∷ [];
  sequence = pos 1;
  operation_id = [];
  kind = input;
  committed_at = 5;
  payload = 123 ∷ 125 ∷ [];
}

abbrev register_at : RegisterKey → ℤ → Text → Register
register_at key revision payload = record { key = key; revision = revision; payload = payload }

-- A session with an operation and an entry
abbrev setup : Script
setup = Script.insert_register (register_draft own_key) λ _.
    Script.insert_register (register_draft run_key)
      λ _. Script.insert_entry (entry_draft (97 ∷ [])) 5 λ _. Script.returns none

abbrev seeded : State
seeded = record {
  entries = (sid, first ∷ []) ∷ [];
  registers =
      (own_key, register_at own_key (pos 1) (123 ∷ 125 ∷ []))
      ∷ (run_key, register_at run_key (pos 1) (123 ∷ 125 ∷ []))
      ∷ [];
}

setup-seeded : transact accepts new_state none none none setup ≡ (seeded, returned none)
unfolding transact run txn_insert_entry txn_insert_register insert_entry insert_register
    validate_entry_draft validate_register_key has_session session_orphaned has_entry_id
    any_register has_operation_id max_sequence entries_of lookup insert key_eqb same ◌+ℤ◌ kind_eqb
setup-seeded = refl

setup-HasClock : HasClock setup
setup-HasClock = λ _ _. (λ e. omega arith, λ _. tt)

transact-IsWellFormed_example :
    IsWellFormed accepts (transact accepts new_state none none none setup).0
transact-IsWellFormed_example =
    transact-IsWellFormed accepts new_state none none none setup setup-HasClock
      (new_state-IsWellFormed accepts)

seeded-IsWellFormed : IsWellFormed accepts seeded
seeded-IsWellFormed =
    subst (λ (r : State × Memory.Ending). IsWellFormed accepts r.0) setup-seeded
      transact-IsWellFormed_example

-- A callback that repeats an identity and ignores the conflict
abbrev clash : Script
clash =
    Script.insert_entry (entry_draft (98 ∷ [])) 6
      λ _. Script.insert_entry (entry_draft (98 ∷ [])) 7 λ _. Script.returns none

transact_atomic_example :
    let (t, ending) = run accepts clash (begin seeded) in
    let outcome = transact accepts seeded none none none clash in
    ((outcome ≡ (t.state, returned none))
      × (◌≡◌ {A = Option Error} none none)
      × (◌≡◌ {A = Option Error} none none)
      × (◌≡◌ {A = Option Error} none none)
      × (ending ≡ returned none)
      × (t.latched ≡ none))
    ⊎ ((outcome.0 ≡ seeded) × (outcome.1 ≢ returned none))
transact_atomic_example = transact_atomic accepts seeded none none none clash

transact_no_ignored_failure_example : reported accepts setup (begin new_state) ≡ false
transact_no_ignored_failure_example =
    transact_no_ignored_failure accepts new_state none none none setup
      (ap (λ (r : State × Memory.Ending). r.1) setup-seeded)

abbrev kept : Txn
kept = record { state = seeded; latched = none; closed = true }

abbrev second : Entry
second = record first { id = 98 ∷ []; sequence = pos 2; committed_at = 6 }

abbrev grown : State
grown = record seeded { entries = (sid, first ∷ second ∷ []) ∷ [] }

second_inserted : insert_entry accepts seeded (entry_draft (98 ∷ [])) 6 ≡ (grown, ok second)
unfolding insert_entry validate_entry_draft has_session session_orphaned has_entry_id max_sequence
    entries_of lookup insert key_eqb same ◌+ℤ◌ kind_eqb
second_inserted = refl

insert_entry-read_example :
    let old = entries_of seeded sid in
    All (λ x. x.sequence <ℤ second.sequence) old
    × (read_entries accepts grown sid (max_sequence old) ≡ ok (second ∷ []))
    × (entries_of grown sid ≡ (if same sid sid then old ++ second ∷ [] else entries_of seeded sid))
insert_entry-read_example =
    insert_entry-read accepts seeded grown (entry_draft (98 ∷ [])) 6 second sid (λ e. omega arith)
      seeded-IsWellFormed second_inserted

abbrev changed : Register
changed = register_at run_key (pos 2) (49 ∷ [])

abbrev replaced : State
replaced = record seeded {
  registers = (own_key, register_at own_key (pos 1) (123 ∷ 125 ∷ [])) ∷ (run_key, changed) ∷ [];
}

run_replaced : replace_register accepts seeded run_key (pos 1) (49 ∷ []) ≡ (replaced, ok changed)
unfolding replace_register validate_register_key has_session session_orphaned lookup insert key_eqb
    same ◌+ℤ◌ kind_eqb
run_replaced = refl

replace_register-read_example :
    ((old : Register) × (lookup run_key seeded.registers ≡ some old) × (old.revision ≡ pos 1))
    × (changed.revision ≡ pos 1 +ℤ pos 1)
    × (pos 1 <ℤ changed.revision)
    × (changed.payload ≡ 49 ∷ [])
    × (read_register accepts replaced run_key ≡ ok changed)
    × (lookup own_key replaced.registers
        ≡ (if key_eqb run_key own_key then some changed else lookup own_key seeded.registers))
replace_register-read_example =
    replace_register-read accepts seeded replaced run_key (pos 1) (49 ∷ []) changed own_key
      seeded-IsWellFormed run_replaced

seeded_read :
    read_registers accepts seeded sid
    ≡ ok (
        register_at own_key (pos 1) (123 ∷ 125 ∷ [])
        ∷ register_at run_key (pos 1) (123 ∷ 125 ∷ [])
        ∷ [])
unfolding read_registers validate_stored_register has_session session_orphaned any_register lookup
    key_eqb same kind_eqb operations_of registered collect_registers sort_operations insert_sorted
seeded_read = refl

read_registers-sorted_example :
    (r : Register) × (operations : List Register) × (register_at own_key (pos 1) (123 ∷ 125 ∷ [])
        ∷ register_at run_key (pos 1) (123 ∷ 125 ∷ [])
        ∷ []
      ≡ r ∷ operations)
    × (r.key ≡ session_key sid)
    × Ordered operations
    × Perm operations (operations_of sid seeded.registers)
read_registers-sorted_example =
    read_registers-sorted accepts seeded sid _ seeded-IsWellFormed seeded_read

delete_session-gone_example :
    let (s', e) = delete_session seeded sid in
    (e ≡ none)
    × (read_entries accepts s' sid (pos 0) ≡ err Error.not_found)
    × (read_register accepts s' run_key ≡ err Error.not_found)
    × (read_registers accepts s' sid ≡ err Error.not_found)
unfolding has_session lookup key_eqb same kind_eqb validate_register_key
delete_session-gone_example =
    delete_session-gone accepts seeded sid (pos 0) run_key refl refl refl refl refl

abbrev other_key : RegisterKey
other_key = session_key (120 ∷ [])

delete_session-others_example :
    let s' = (delete_session seeded sid).0 in
    (read_entries accepts s' (120 ∷ []) (pos 0) ≡ read_entries accepts seeded (120 ∷ []) (pos 0))
    × (read_register accepts s' other_key ≡ read_register accepts seeded other_key)
    × (read_registers accepts s' (120 ∷ []) ≡ read_registers accepts seeded (120 ∷ []))
delete_session-others_example =
    delete_session-others accepts seeded sid (120 ∷ []) (pos 0) other_key (λ e. ground arith) refl
