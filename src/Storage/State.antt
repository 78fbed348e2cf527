-- ===== src/Storage/State.antt =====
-- memoryState of internal/storage/memory.go: its reads and lookups. Copies of payloads are the payloads themselves here.
use lightcode.Prelude.{
  ℕ, Bool, true, false, not, ◌&&◌, ◌||◌, Option, none, some, List, [], ◌∷◌, Text, same, text_leb,
  if◌then◌else◌, suc,
}
use lightcode.Prelude.Assoc.{lookup}
use lightcode.Prelude.Int.{ℤ, pos, ltb_ℤ}
use lightcode.Storage.{text_key, register_key}
use lightcode.Storage.{
  RegisterKind, EntryDraft, Entry, RegisterKey, Register, Error, Result, session, operation,
  other_register, not_found, corrupt, ok, err,
}

pub record State : Type 0 where
  pub entries : List (Text × List Entry)
  pub registers : List (RegisterKey × Register)

abbrev pub new_state : State
new_state = record { entries = []; registers = [] }

abbrev pub session_key : Text → RegisterKey
session_key sid = record { session_id = sid; kind = session; operation_id = [] }

abbrev pub is_some {ℓ} : {A : Type ℓ} → Option A → Bool
is_some none = false
is_some (some _) = true

-- A missing key of a map of slices is the nil slice.
abbrev pub or_nil {ℓ} : {A : Type ℓ} → Option (List A) → List A
or_nil none = []
or_nil (some l) = l

unfoldable pub entries_of : State → Text → List Entry
entries_of s sid = or_nil (lookup sid s.entries)

unfoldable pub has_session : State → Text → Bool
has_session s sid = is_some (lookup (session_key sid) s.registers)

unfoldable pub any_register : Text → List (RegisterKey × Register) → Bool
any_register sid [] = false
any_register sid ((key, _) ∷ m) = same key.session_id sid || any_register sid m

abbrev pub is_nil {ℓ} : {A : Type ℓ} → List A → Bool
is_nil [] = true
is_nil (_ ∷ _) = false

unfoldable pub session_orphaned : State → Text → Bool
unfolding has_session entries_of
session_orphaned s sid =
    if has_session s sid
    then false
    else if not (is_nil (entries_of s sid))
    then true
    else any_register sid s.registers

unfoldable pub list_has_id : Text → List Entry → Bool
list_has_id id [] = false
list_has_id id (e ∷ es) = same e.id id || list_has_id id es

unfoldable pub has_entry_id : Text → List (Text × List Entry) → Bool
unfolding list_has_id
has_entry_id id [] = false
has_entry_id id ((_, list) ∷ m) = list_has_id id list || has_entry_id id m

abbrev pub is_operation : RegisterKind → Bool
is_operation operation = true
is_operation session = false
is_operation (other_register _) = false

unfoldable pub has_operation_id : Text → List (RegisterKey × Register) → Bool
has_operation_id id [] = false
has_operation_id id ((key, _) ∷ m) =
    is_operation key.kind && same key.operation_id id || has_operation_id id m

unfoldable pub max_from : ℤ → List Entry → ℤ
max_from highest [] = highest
max_from highest (e ∷ es) = max_from (if ltb_ℤ highest e.sequence then e.sequence else highest) es

-- The loop starts at zero.
unfoldable pub max_sequence : List Entry → ℤ
unfolding max_from
max_sequence list = max_from (pos 0) list

-- The error of an absent session, or of one that only its dependents have.
abbrev pub missing : State → Text → Error
missing s sid = if session_orphaned s sid then corrupt sid else not_found

-- The registers of a session: how many there are, and those of operations.
unfoldable pub registered : Text → List (RegisterKey × Register) → ℕ
registered sid [] = 0
registered sid ((key, _) ∷ m) =
    let rest = registered sid m in if same key.session_id sid then suc rest else rest

unfoldable pub operations_of : Text → List (RegisterKey × Register) → List Register
operations_of sid [] = []
operations_of sid ((key, r) ∷ m) =
    let rest = operations_of sid m in
    if same key.session_id sid && is_operation key.kind then r ∷ rest else rest

-- sort.Slice by operation identity
unfoldable pub insert_sorted : Register → List Register → List Register
insert_sorted r [] = r ∷ []
insert_sorted r (x ∷ xs) =
    let rest = insert_sorted r xs in
    if text_leb r.key.operation_id x.key.operation_id then r ∷ x ∷ xs else x ∷ rest

unfoldable pub sort_operations : List Register → List Register
unfolding insert_sorted
sort_operations [] = []
sort_operations (x ∷ xs) = insert_sorted x (sort_operations xs)

abbrev pub cons_ok {ℓ} : {A : Type ℓ} → A → Result (List A) → Result (List A)
cons_ok a (ok list) = ok (a ∷ list)
cons_ok a (err e) = err e

abbrev pub checked {ℓ} : {A : Type ℓ} → Option Error → Result A → Result A
checked none r = r
checked (some e) r = err e

abbrev pub entry_of : EntryDraft → ℤ → ℕ → Entry
entry_of draft sequence now = record {
  session_id = draft.session_id;
  id = draft.id;
  sequence = sequence;
  operation_id = draft.operation_id;
  kind = draft.kind;
  committed_at = now;
  payload = draft.payload;
}

-- `delete` of every register of a session
unfoldable pub without_session :
    Text → List (RegisterKey × Register) → List (RegisterKey × Register)
without_session sid [] = []
without_session sid ((key, r) ∷ m) =
    let rest = without_session sid m in if same key.session_id sid then rest else (key, r) ∷ rest
