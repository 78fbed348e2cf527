-- ===== src/Storage/Outcome.antt =====
-- The outcomes of the mutations of internal/storage/memory.go: a refusal that leaves the state, or
-- the one change that the call makes, with what its guards have established.
use lightcode.Prelude.{
  ℕ, ◌≡◌, ◌⊎◌, Bool, true, false, none, some, [], ◌∷◌, ◌++◌, Text, arith, Bool-cases, Option-cases,
  inl, inr,
}
use lightcode.Prelude.Int.{ℤ, pos, max_int64, eqb_ℤ, ◌+ℤ◌}
use lightcode.Prelude.Assoc.{lookup, insert}
use mathlib.Core.Bool.{false≢true}
use mathlib.Core.Path.{sym, ◌∙◌}
use lightcode.Storage.{
  Entry, EntryDraft, RegisterKey, RegisterDraft, Register, Error, Result, ok, err, text_key,
  register_key,
}
use lightcode.Storage.Validate.{validate_entry_draft, validate_register_key, not_positive}
use lightcode.Storage.State.{
  State, entries_of, has_session, session_orphaned, has_entry_id, has_operation_id, is_operation,
  max_sequence, entry_of, missing,
}
use lightcode.Storage.Write.{insert_entry, insert_register, replace_register}

abbrev pub append_to : State → Text → Entry → State
append_to s sid e = record s { entries = insert sid (entries_of s sid ++ e ∷ []) s.entries }

abbrev pub put_register : State → Register → State
put_register s r = record s { registers = insert r.key r s.registers }

-- A call that ends in an error and changes nothing.
abbrev pub Refused {ℓ} : {A : Type ℓ} → State → State × Result A → Type ℓ
Refused s outcome = (e : Error) × (outcome ≡ (s, err e))

abbrev pub new_entry : State → EntryDraft → ℕ → Entry
new_entry s draft now = entry_of draft (max_sequence (entries_of s draft.session_id) +ℤ pos 1) now

abbrev pub new_register : RegisterDraft → Register
new_register draft = record { key = draft.key; revision = pos 1; payload = draft.payload }

module _ (json_valid : Text → Bool) (s : State) where
  pub record Appends (draft : EntryDraft) (now : ℕ) : Type 0 where
    pub draft_valid : validate_entry_draft json_valid draft ≡ none
    pub owned : has_session s draft.session_id ≡ true
    pub fresh : has_entry_id draft.id s.entries ≡ false
    pub room : eqb_ℤ (max_sequence (entries_of s draft.session_id)) max_int64 ≡ false
    pub outcome :
        insert_entry json_valid s draft now
        ≡ (append_to s draft.session_id (new_entry s draft now), ok (new_entry s draft now))

  pub insert_entry-cases :
      (draft : EntryDraft) (now : ℕ)
      → Refused s (insert_entry json_valid s draft now) ⊎ Appends draft now
  unfolding insert_entry
  insert_entry-cases draft now = elim (Option-cases (validate_entry_draft json_valid draft)) [
    | inr (e, p) ↦ inl (e, ground arith)
    | inl p ↦ elim (Bool-cases (has_session s draft.session_id)) [
      | inr q ↦ inl (missing s draft.session_id, ground arith)
      | inl q ↦ elim (Bool-cases (has_entry_id draft.id s.entries)) [
        | inl r ↦ inl (Error.conflict, ground arith)
        | inr r ↦
            elim (Bool-cases (eqb_ℤ (max_sequence (entries_of s draft.session_id)) max_int64)) [
              | inl t ↦ inl (Error.storage, ground arith)
              | inr t ↦ inr (record {
                draft_valid = p;
                owned = q;
                fresh = r;
                room = t;
                outcome = ground arith;
              })
            ]
      ]
    ]
  ]

  pub record Adds (draft : RegisterDraft) : Type 0 where
    pub key_valid : validate_register_key draft.key ≡ none
    pub payload_valid : json_valid draft.payload ≡ true
    pub absent : lookup draft.key s.registers ≡ none
    pub operation_owned :
        is_operation draft.key.kind ≡ true
        → (has_session s draft.key.session_id ≡ true)
          × (has_operation_id draft.key.operation_id s.registers ≡ false)
    pub session_clean :
        is_operation draft.key.kind ≡ false → session_orphaned s draft.key.session_id ≡ false
    pub outcome :
        insert_register json_valid s draft
        ≡ (put_register s (new_register draft), ok (new_register draft))

  pub record Replaces (key : RegisterKey) (expected : ℤ) (payload : Text) : Type 0 where
    pub key_valid : validate_register_key key ≡ none
    pub positive : not_positive expected ≡ false
    pub payload_valid : json_valid payload ≡ true
    pub current : Register
    pub present : lookup key s.registers ≡ some current
    pub owned : session_orphaned s key.session_id ≡ false
    pub fits : eqb_ℤ current.revision expected ≡ true
    pub room : eqb_ℤ current.revision max_int64 ≡ false
    pub outcome :
        let next : Register = record current {
          revision = current.revision +ℤ pos 1;
          payload = payload;
        } in
        replace_register json_valid s key expected payload
        ≡ (record s { registers = insert key next s.registers }, ok next)

  -- A register that is there already refuses the insertion, under one error or another.
  already :
      (draft : RegisterDraft) (old : Register)
      → validate_register_key draft.key ≡ none
      → json_valid draft.payload ≡ true
      → lookup draft.key s.registers ≡ some old
      → Refused s (insert_register json_valid s draft)
  unfolding insert_register
  already draft old p q r = elim (Bool-cases (is_operation draft.key.kind)) [
    | inl o ↦ elim (Bool-cases (has_session s draft.key.session_id)) [
      | inl h ↦ (Error.conflict, ground arith)
      | inr h ↦ (missing s draft.key.session_id, ground arith)
    ]
    | inr o ↦ elim (Bool-cases (session_orphaned s draft.key.session_id)) [
      | inl h ↦ (Error.corrupt draft.key.session_id, ground arith)
      | inr h ↦ (Error.conflict, ground arith)
    ]
  ]

  added :
      (draft : RegisterDraft)
      → validate_register_key draft.key ≡ none
      → json_valid draft.payload ≡ true
      → lookup draft.key s.registers ≡ none
      → Refused s (insert_register json_valid s draft) ⊎ Adds draft
  unfolding insert_register
  added draft p q r = elim (Bool-cases (is_operation draft.key.kind)) [
    | inl o ↦ elim (Bool-cases (has_session s draft.key.session_id)) [
      | inr h ↦ inl (missing s draft.key.session_id, ground arith)
      | inl h ↦ elim (Bool-cases (has_operation_id draft.key.operation_id s.registers)) [
        | inl d ↦ inl (Error.conflict, ground arith)
        | inr d ↦ inr (record {
          key_valid = p;
          payload_valid = q;
          absent = r;
          operation_owned = λ _. (h, d);
          session_clean = λ n. cc;
          outcome = ground arith;
        })
      ]
    ]
    | inr o ↦ elim (Bool-cases (session_orphaned s draft.key.session_id)) [
      | inl h ↦ inl (Error.corrupt draft.key.session_id, ground arith)
      | inr h ↦ inr (record {
        key_valid = p;
        payload_valid = q;
        absent = r;
        operation_owned = λ n. absurd (false≢true (sym o ∙ n));
        session_clean = λ _. h;
        outcome = ground arith;
      })
    ]
  ]

  replaced :
      (key : RegisterKey) (expected : ℤ) (payload : Text) (current : Register)
      → validate_register_key key ≡ none
      → not_positive expected ≡ false
      → json_valid payload ≡ true
      → lookup key s.registers ≡ some current
      → Refused s (replace_register json_valid s key expected payload)
        ⊎ Replaces key expected payload
  unfolding replace_register
  replaced key expected payload current p q r t =
      elim (Bool-cases (session_orphaned s key.session_id)) [
        | inl h ↦ inl (Error.corrupt key.session_id, ground arith)
        | inr h ↦ elim (Bool-cases (eqb_ℤ current.revision expected)) [
          | inr f ↦ inl (Error.conflict, ground arith)
          | inl f ↦ elim (Bool-cases (eqb_ℤ current.revision max_int64)) [
            | inl m ↦ inl (Error.storage, ground arith)
            | inr m ↦ inr (record {
              key_valid = p;
              positive = q;
              payload_valid = r;
              current = current;
              present = t;
              owned = h;
              fits = f;
              room = m;
              outcome = ground arith;
            })
          ]
        ]
      ]

  pub insert_register-cases :
      (draft : RegisterDraft) → Refused s (insert_register json_valid s draft) ⊎ Adds draft
  unfolding insert_register
  insert_register-cases draft = elim (Option-cases (validate_register_key draft.key)) [
    | inr (e, p) ↦ inl (e, ground arith)
    | inl p ↦ elim (Bool-cases (json_valid draft.payload)) [
      | inr q ↦ inl (Error.invalid, ground arith)
      | inl q ↦ elim (Option-cases (lookup draft.key s.registers)) [
        | inr (old, r) ↦ inl (already draft old p q r)
        | inl r ↦ added draft p q r
      ]
    ]
  ]

  pub replace_register-cases :
      (key : RegisterKey) (expected : ℤ) (payload : Text)
      → Refused s (replace_register json_valid s key expected payload)
        ⊎ Replaces key expected payload
  unfolding replace_register
  replace_register-cases key expected payload = elim (Option-cases (validate_register_key key)) [
    | inr (e, p) ↦ inl (e, ground arith)
    | inl p ↦ elim (Bool-cases (not_positive expected)) [
      | inl q ↦ inl (Error.invalid, ground arith)
      | inr q ↦ elim (Bool-cases (json_valid payload)) [
        | inr r ↦ inl (Error.invalid, ground arith)
        | inl r ↦ elim (Option-cases (lookup key s.registers)) [
          | inl t ↦ inl (missing s key.session_id, ground arith)
          | inr (current, t) ↦ replaced key expected payload current p q r t
        ]
      ]
    ]
  ]
