-- ===== src/Storage/Revisions.antt =====
-- The revisions of internal/storage/memory.go: replaceRegister is a compare-and-swap.
use mathlib.Core.Path.{subst}
use lightcode.Prelude.{
  ◌≡◌, Bool, true, none, some, Text, arith, if◌then◌else◌, Option-cases, inl, inr, ap, ◌∙◌,
}
use lightcode.Prelude.Int.{pos_part, neg_part, eq_of_parts, ℤ, pos, ◌<ℤ◌, ◌+ℤ◌, +ℤ_parts}
use lightcode.Prelude.Assoc.{lookup, insert, lookup-insert, AllPairs-lookup}
use lightcode.Storage.{
  RegisterKey, Register, Error, Result, ok, err, register_key, key_eqb, key_eqb_iff,
}
use lightcode.Storage.State.{State}
use lightcode.Storage.Validate.{validate_register_key}
use lightcode.Storage.Read.{read_register}
use lightcode.Storage.Write.{replace_register}
use lightcode.Storage.Outcome.{Replaces, replace_register-cases}
use lightcode.Storage.Invariant.{IsWellFormed, IsFiled}
use lightcode.Storage.Invariant.Registers.{replace_register-IsWellFormed}

module _ (json_valid : Text → Bool) where
  record Replaced (s s' : State) (key : RegisterKey) (expected : ℤ) (payload : Text) (r : Register)
      : Type 0 where
    pub facts : Replaces json_valid s key expected payload
    pub next :
        r ≡ record facts.current { revision = facts.current.revision +ℤ pos 1; payload = payload }
    pub state : s' ≡ record s { registers = insert key r s.registers }

  replaced :
      (s s' : State) (key : RegisterKey) (expected : ℤ) (payload : Text) (r : Register)
      → replace_register json_valid s key expected payload ≡ (s', ok r)
      → Replaced s s' key expected payload r
  replaced s s' key expected payload r h =
      elim (replace_register-cases json_valid s key expected payload) [
        | inl (x, p) ↦ absurd (ground (arith, p, h))
        | inr a ↦ record {
          facts = a;
          next = ground (arith, a.outcome, h);
          state = ground (arith, a.outcome, h);
        }
      ]

  -- On a well-formed state a register that is there can be read, and a missing one is not found.
  pub read_register_lem :
      (s : State) (key : RegisterKey)
      → IsWellFormed json_valid s
      → validate_register_key key ≡ none
      → read_register json_valid s key
        ≡ elim (lookup key s.registers) [ none ↦ err Error.not_found | some r ↦ ok r ]
  unfolding read_register
  read_register_lem s key w v = elim (Option-cases (lookup key s.registers)) [
    | inl p ↦ ground (arith, w.no_orphans key.session_id)
    | inr (r, p) ↦
        let f = AllPairs-lookup (IsFiled json_valid) key s.registers p w.filed in
        ground (arith, w.no_orphans key.session_id, f.valid)
  ]

  module _ (s s' : State) (key : RegisterKey) (expected : ℤ) (payload : Text) (r : Register)
      (w : IsWellFormed json_valid s) (a : Replaced s s' key expected payload r) where
    revision_lem : (a.facts.current.revision ≡ expected) × (r.revision ≡ expected +ℤ pos 1)
    revision_lem =
        let e : a.facts.current.revision ≡ expected =
          ground (arith, a.facts.fits, eq_of_parts a.facts.current.revision expected) in
        (e, ap (λ (x : Register). x.revision) a.next ∙ ap (λ n. n +ℤ pos 1) e)

    lookup_lem :
        (k : RegisterKey)
        → lookup k s'.registers ≡ (if key_eqb key k then some r else lookup k s.registers)
    lookup_lem k = rw a.state (lookup-insert key k r s.registers)

    after-IsWellFormed :
        replace_register json_valid s key expected payload ≡ (s', ok r) → IsWellFormed json_valid s'
    after-IsWellFormed h =
        subst (λ (x : State × Result Register). IsWellFormed json_valid x.0) h
          (replace_register-IsWellFormed json_valid s w key expected payload)

    stored_lem : lookup key s'.registers ≡ some r
    stored_lem = lookup_lem key ∙ ground (arith, key_eqb_iff key key)

  -- On a well-formed state, a replacement that succeeds had the current revision, writes the whole payload under the next
  -- revision, is what a read then returns, and leaves every other register.
  pub replace_register-read :
      (s s' : State) (key : RegisterKey) (expected : ℤ) (payload : Text) (r : Register)
      (k : RegisterKey)
      → IsWellFormed json_valid s
      → replace_register json_valid s key expected payload ≡ (s', ok r)
      → ((old : Register) × (lookup key s.registers ≡ some old) × (old.revision ≡ expected))
        × (r.revision ≡ expected +ℤ pos 1)
        × (expected <ℤ r.revision)
        × (r.payload ≡ payload)
        × (read_register json_valid s' key ≡ ok r)
        × (lookup k s'.registers ≡ (if key_eqb key k then some r else lookup k s.registers))
  replace_register-read s s' key expected payload r k w h =
      let a = replaced s s' key expected payload r h in
      let (old, new) = revision_lem s s' key expected payload r w a in
      (
        (a.facts.current, a.facts.present, old),
        new,
        omega (arith, +ℤ_parts expected (pos 1), ap pos_part new, ap neg_part new),
        ap (λ (x : Register). x.payload) a.next,
        read_register_lem s' key (after-IsWellFormed s s' key expected payload r w a h)
              a.facts.key_valid
            ∙ rw (stored_lem s s' key expected payload r w a),
        lookup_lem s s' key expected payload r w a k,
      )

  -- No update is lost: once a replacement has succeeded on a well-formed state, another that expects
  -- the same revision, with a payload that is JSON, is a conflict and changes nothing.
  pub replace_register-stale :
      (s s' : State) (key : RegisterKey) (expected : ℤ) (payload other : Text) (r : Register)
      → IsWellFormed json_valid s
      → json_valid other ≡ true
      → replace_register json_valid s key expected payload ≡ (s', ok r)
      → replace_register json_valid s' key expected other ≡ (s', err Error.conflict)
  replace_register-stale s s' key expected payload other r w j h =
      let a = replaced s s' key expected payload r h in
      let (old, new) = revision_lem s s' key expected payload r w a in
      let w' = after-IsWellFormed s s' key expected payload r w a h in
      unfold replace_register in
      ground (
        arith,
        a.facts.key_valid,
        a.facts.positive,
        j,
        stored_lem s s' key expected payload r w a,
        w'.no_orphans key.session_id,
        +ℤ_parts expected (pos 1),
        ap pos_part new,
        ap neg_part new,
      )
