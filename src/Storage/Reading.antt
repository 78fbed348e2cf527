-- ===== src/Storage/Reading.antt =====
-- ReadRegisters of internal/storage/memory.go: the session's register, then those of its operations
-- in the order of their identities.
use lightcode.Prelude.{
  ◌+◌, ◌≡◌, refl, Bool, true, ◌&&◌, none, some, List, [], ◌∷◌, Text, arith, if◌then◌else◌,
  Bool-cases, Option-cases, inl, inr, same, same_iff, length, All, text_leb, is_empty,
}
use mathlib.Core.List.{Perm}
use mathlib.Core.List.Perm
use lightcode.Prelude.Order.{text_leb_total, text_leb_trans}
use lightcode.Prelude.Assoc.{lookup, AllPairs, AllPairs-lookup, count_key, count_key-lookup-some}
use lightcode.Storage.{RegisterKey, Register, Error, ok, err, register_key, key_eqb_iff}
use lightcode.Storage.State.{
  State, session_key, registered, operations_of, insert_sorted, sort_operations, is_operation,
}
use lightcode.Storage.Validate.{validate_stored_register}
use lightcode.Storage.Read.{read_registers, collect_registers}
use lightcode.Storage.Invariant.{IsWellFormed, IsFiled}
use lightcode.Storage.Invariant.Filed.{session_key_lem}

-- Operation identities do not fall along the list.
abbrev pub Ordered : List Register → Type 0
Ordered [] = Unit {0}
Ordered (x ∷ xs) = All (λ y. text_leb x.key.operation_id y.key.operation_id ≡ true) xs × Ordered xs

insert_sorted-perm : (r : Register) (xs : List Register) → Perm (insert_sorted r xs) (r ∷ xs)
unfolding insert_sorted
insert_sorted-perm r [] = Perm.refl (r ∷ [])
insert_sorted-perm r (x ∷ xs) = elim (Bool-cases (text_leb r.key.operation_id x.key.operation_id)) [
  | inl p ↦ rw p (Perm.refl (r ∷ x ∷ xs))
  | inr p ↦ rw p (Perm.trans (Perm.cons x (insert_sorted-perm r xs)) (Perm.swap r x xs))
]

pub sort_operations-perm : (xs : List Register) → Perm (sort_operations xs) xs
unfolding sort_operations
sort_operations-perm [] = Perm.refl []
sort_operations-perm (x ∷ xs) =
    Perm.trans (insert_sorted-perm x (sort_operations xs)) (Perm.cons x (sort_operations-perm xs))

All-insert_sorted {κ} :
    (P : Register → Type κ) (r : Register) (xs : List Register)
    → P r
    → All P xs
    → All P (insert_sorted r xs)
unfolding insert_sorted
All-insert_sorted P r [] p h = (p, tt)
All-insert_sorted P r (x ∷ xs) p h =
    elim (Bool-cases (text_leb r.key.operation_id x.key.operation_id)) [
      | inl q ↦ rw q (p, h)
      | inr q ↦ rw q (h.0, All-insert_sorted P r xs p h.1)
    ]

All-sort_operations {κ} :
    (P : Register → Type κ) (xs : List Register) → All P xs → All P (sort_operations xs)
unfolding sort_operations
All-sort_operations P [] h = tt
All-sort_operations P (x ∷ xs) h =
    All-insert_sorted P x (sort_operations xs) h.0 (All-sort_operations P xs h.1)

All-weaken :
    (r x : Register) (xs : List Register)
    → text_leb r.key.operation_id x.key.operation_id ≡ true
    → All (λ y. text_leb x.key.operation_id y.key.operation_id ≡ true) xs
    → All (λ y. text_leb r.key.operation_id y.key.operation_id ≡ true) xs
All-weaken r x [] p h = tt
All-weaken r x (y ∷ ys) p h = (
  text_leb_trans r.key.operation_id x.key.operation_id y.key.operation_id p h.0,
  All-weaken r x ys p h.1,
)

insert_sorted-Ordered :
    (r : Register) (xs : List Register) → Ordered xs → Ordered (insert_sorted r xs)
unfolding insert_sorted
insert_sorted-Ordered r [] h = (tt, tt)
insert_sorted-Ordered r (x ∷ xs) h =
    elim (Bool-cases (text_leb r.key.operation_id x.key.operation_id)) [
      | inl q ↦ rw q ((q, All-weaken r x xs q h.0), h)
      | inr q ↦ rw q (
        All-insert_sorted (λ y. text_leb x.key.operation_id y.key.operation_id ≡ true) r xs
            (text_leb_total r.key.operation_id x.key.operation_id q) h.0,
        insert_sorted-Ordered r xs h.1,
      )
    ]

pub sort_operations-Ordered : (xs : List Register) → Ordered (sort_operations xs)
unfolding sort_operations
sort_operations-Ordered [] = tt
sort_operations-Ordered (x ∷ xs) =
    insert_sorted-Ordered x (sort_operations xs) (sort_operations-Ordered xs)

module _ (json_valid : Text → Bool) where
  operations_of-valid :
      (sid : Text) (m : List (RegisterKey × Register))
      → AllPairs (IsFiled json_valid) m
      → All (λ r. validate_stored_register json_valid r ≡ none) (operations_of sid m)
  unfolding operations_of
  operations_of-valid sid [] h = tt
  operations_of-valid sid ((k, r) ∷ m) h =
      elim (Bool-cases (same k.session_id sid && is_operation k.kind)) [
        | inl q ↦ rw q (h.0.valid, operations_of-valid sid m h.1)
        | inr q ↦ rw q (operations_of-valid sid m h.1)
      ]

  collect_registers_lem :
      (rs : List Register)
      → All (λ r. validate_stored_register json_valid r ≡ none) rs
      → collect_registers json_valid rs ≡ ok rs
  unfolding collect_registers
  collect_registers_lem [] h = refl
  collect_registers_lem (r ∷ rs) h = ground (arith, h.0, collect_registers_lem rs h.1)

  -- A session's registers are its own one and those of its operations.
  registered_lem :
      (sid : Text) (m : List (RegisterKey × Register))
      → AllPairs (IsFiled json_valid) m
      → registered sid m ≡ count_key (session_key sid) m + length (operations_of sid m)
  unfolding registered operations_of count_key
  registered_lem sid [] h = omega arith
  registered_lem sid ((k, r) ∷ m) h = ground (
    arith,
    registered_lem sid m h.1,
    key_eqb_iff k (session_key sid),
    same_iff k.session_id sid,
    session_key_lem k h.0.key_valid,
  )

  -- On a well-formed state ReadRegisters refuses an empty identity and an absent session, and
  -- otherwise returns the session's register and then all registers of its operations, sorted: it
  -- never reports corruption.
  pub read_registers_lem :
      (s : State) (sid : Text)
      → IsWellFormed json_valid s
      → read_registers json_valid s sid ≡ (
          if is_empty sid then err Error.invalid else elim (lookup (session_key sid) s.registers) [
            | none ↦ err Error.not_found
            | some r ↦ ok (r ∷ sort_operations (operations_of sid s.registers))
          ])
  unfolding read_registers
  read_registers_lem s sid w = elim (Option-cases (lookup (session_key sid) s.registers)) [
    | inl p ↦ ground (arith, w.no_orphans sid)
    | inr (r, p) ↦
        let f = AllPairs-lookup (IsFiled json_valid) (session_key sid) s.registers p w.filed in
        ground (
          arith,
          w.no_orphans sid,
          f.valid,
          registered_lem sid s.registers w.filed,
          w.unique_keys (session_key sid),
          count_key-lookup-some (session_key sid) s.registers p,
          collect_registers_lem (sort_operations (operations_of sid s.registers)) (
              All-sort_operations (λ r. validate_stored_register json_valid r ≡ none)
                (operations_of sid s.registers) (operations_of-valid sid s.registers w.filed)),
        )
  ]

  -- What ReadRegisters returns on a well-formed state: first the register under the session's key,
  -- then a rearrangement of its operations' registers in the order of their identities.
  pub read_registers-sorted :
      (s : State) (sid : Text) (list : List Register)
      → IsWellFormed json_valid s
      → read_registers json_valid s sid ≡ ok list
      → (r : Register) × (operations : List Register) × (list ≡ r ∷ operations)
        × (r.key ≡ session_key sid)
        × Ordered operations
        × Perm operations (operations_of sid s.registers)
  read_registers-sorted s sid list w h =
      let operations = operations_of sid s.registers in
      elim (Option-cases (lookup (session_key sid) s.registers)) [
        | inl p ↦ absurd (ground (arith, read_registers_lem s sid w, p, h))
        | inr (r, p) ↦ (
          r,
          sort_operations operations,
          ground (arith, read_registers_lem s sid w, p, h),
          (AllPairs-lookup (IsFiled json_valid) (session_key sid) s.registers p w.filed).under,
          sort_operations-Ordered operations,
          sort_operations-perm operations,
        )
      ]
