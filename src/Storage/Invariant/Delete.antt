-- ===== src/Storage/Invariant/Delete.antt =====
-- deleteSession of internal/storage/memory.go keeps the invariant.
use lightcode.Prelude.{
  ◌≡◌, refl, Bool, true, false, none, some, List, [], ◌∷◌, Text, same, same_iff, arith,
  if◌then◌else◌, Bool-cases, inl, inr, is_empty, ◌⊎◌,
}
use lightcode.Prelude.Int.{pos}
use lightcode.Prelude.Assoc.{remove, lookup-remove, count_key-remove-le, AllPairs-remove}
use lightcode.Storage.{Error, RegisterKey, Register, register_key, text_key, key_eqb_iff, invalid}
use lightcode.Storage.State.{
  State, entries_of, has_session, session_orphaned, session_key, any_register, without_session,
  missing,
}
use lightcode.Storage.Write.{delete_session}
use lightcode.Storage.Invariant.{IsWellFormed, IsFiled, Rising}
use lightcode.Storage.Invariant.Filed.{
  any_register-without_session, any_register-without_other, lookup-without_session,
  AllPairs-without_session, count_key-without_session-le,
}
use lightcode.Storage.Invariant.Unique.{
  count_entries-remove-le, count_operations-remove-le, count_operations-without_session-le,
}

-- The state without a session.
abbrev pub erase : State → Text → State
erase s sid = record s {
  registers = without_session sid (remove (session_key sid) s.registers);
  entries = remove sid s.entries;
}

pub delete_session-cases :
    (s : State) (sid : Text)
    → ((e : Error) × (delete_session s sid ≡ (s, some e)))
      ⊎ ((has_session s sid ≡ true) × (delete_session s sid ≡ (erase s sid, none)))
unfolding delete_session
delete_session-cases s sid = elim (Bool-cases (is_empty sid)) [
  | inl p ↦ inl (invalid, ground arith)
  | inr p ↦ elim (Bool-cases (has_session s sid)) [
    | inl q ↦ inr (q, ground arith)
    | inr q ↦ inl (missing s sid, ground arith)
  ]
]

-- What is left of the session, and of the others.
pub has_session-erase :
    (s : State) (sid j : Text)
    → has_session (erase s sid) j ≡ (if same sid j then false else has_session s j)
unfolding has_session
has_session-erase s sid j = ground (
  arith,
  lookup-without_session sid (session_key j) (remove (session_key sid) s.registers),
  lookup-remove (session_key sid) (session_key j) s.registers,
  key_eqb_iff (session_key sid) (session_key j),
  same_iff sid j,
  same_iff j sid,
)

pub entries_of-erase :
    (s : State) (sid j : Text)
    → entries_of (erase s sid) j ≡ (if same sid j then [] else entries_of s j)
unfolding entries_of
entries_of-erase s sid j = ground (arith, lookup-remove sid j s.entries)

any_register-remove_other :
    (sid j : Text) (m : List (RegisterKey × Register))
    → same sid j ≡ false
    → any_register j (remove (session_key sid) m) ≡ any_register j m
unfolding any_register remove
any_register-remove_other sid j [] h = refl
any_register-remove_other sid j ((k, w) ∷ m) h = ground (
  arith,
  key_eqb_iff k (session_key sid),
  same_iff k.session_id j,
  same_iff sid j,
  any_register-remove_other sid j m h,
)

pub session_orphaned-erase :
    (s : State) (sid j : Text)
    → session_orphaned (erase s sid) j ≡ (if same sid j then false else session_orphaned s j)
unfolding session_orphaned
session_orphaned-erase s sid j = ground (
  arith,
  has_session-erase s sid j,
  entries_of-erase s sid j,
  any_register-without_session sid (remove (session_key sid) s.registers),
  any_register-without_other sid j (remove (session_key sid) s.registers),
  any_register-remove_other sid j s.registers,
  same_iff sid j,
)

module _ (json_valid : Text → Bool) (s : State) (w : IsWellFormed json_valid s) where
  erase-Rising : (sid j : Text) → Rising json_valid j (pos 0) (entries_of (erase s sid) j)
  erase-Rising sid j = elim (Bool-cases (same sid j)) [
    | inl x ↦ rw (entries_of-erase, x) tt
    | inr x ↦ rw (entries_of-erase, x) (w.rising j)
  ]

  erase-IsWellFormed : (sid : Text) → IsWellFormed json_valid (erase s sid)
  erase-IsWellFormed sid =
      let kept = remove (session_key sid) s.registers in
      record {
        no_orphans = λ j. rw session_orphaned-erase (ground (arith, w.no_orphans j));
        rising = erase-Rising sid;
        filed =
            AllPairs-without_session (IsFiled json_valid) sid kept
              (AllPairs-remove (IsFiled json_valid) (session_key sid) s.registers w.filed);
        unique_keys = λ k. omega (
          arith,
          w.unique_keys k,
          count_key-without_session-le sid k kept,
          count_key-remove-le (session_key sid) k s.registers,
        );
        unique_lists = λ k. omega (arith, w.unique_lists k, count_key-remove-le sid k s.entries);
        unique_entries =
            λ id. omega (arith, w.unique_entries id, count_entries-remove-le id sid s.entries);
        unique_operations = λ id. omega (
          arith,
          w.unique_operations id,
          count_operations-without_session-le id sid kept,
          count_operations-remove-le id (session_key sid) s.registers,
        );
      }

  pub delete_session-IsWellFormed : (sid : Text) → IsWellFormed json_valid (delete_session s sid).0
  delete_session-IsWellFormed sid = elim (delete_session-cases s sid) [
    | inl (e, p) ↦ rw p w
    | inr (h, p) ↦ rw p (erase-IsWellFormed sid)
  ]
