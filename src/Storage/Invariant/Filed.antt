-- ===== src/Storage/Invariant/Filed.antt =====
-- Which registers the operations of internal/storage/memory.go add and take away.
use lightcode.Prelude.{
  ◌≤◌, Bool-cases, inl, inr, ◌≡◌, refl, false, ◌||◌, none, List, [], ◌∷◌, Text, same, same_iff,
  arith, if◌then◌else◌,
}
use lightcode.Prelude.Assoc.{AllPairs, count_key, lookup, insert, remove}
use lightcode.Storage.{RegisterKey, Register, register_key, key_eqb_iff}
use lightcode.Storage.Validate.{validate_register_key}
use lightcode.Storage.State.{any_register, is_operation, without_session, session_key}

pub any_register-insert :
    (sid : Text) (key : RegisterKey) (r : Register) (m : List (RegisterKey × Register))
    → any_register sid (insert key r m) ≡ (same key.session_id sid || any_register sid m)
unfolding any_register insert
any_register-insert sid key r [] = refl
any_register-insert sid key r ((j, w) ∷ m) =
    ground (arith, key_eqb_iff j key, any_register-insert sid key r m)

pub any_register-remove :
    (sid : Text) (key : RegisterKey) (m : List (RegisterKey × Register))
    → any_register sid m ≡ false
    → any_register sid (remove key m) ≡ false
unfolding any_register remove
any_register-remove sid key [] h = refl
any_register-remove sid key ((j, w) ∷ m) h = ground (arith, any_register-remove sid key m)

-- After the deletion the session has no register, and other keys keep theirs.
pub any_register-without_session :
    (sid : Text) (m : List (RegisterKey × Register))
    → any_register sid (without_session sid m) ≡ false
unfolding any_register without_session
any_register-without_session sid [] = refl
any_register-without_session sid ((j, w) ∷ m) = ground (arith, any_register-without_session sid m)

pub any_register-without_other :
    (sid other : Text) (m : List (RegisterKey × Register))
    → same sid other ≡ false
    → any_register other (without_session sid m) ≡ any_register other m
unfolding any_register without_session
any_register-without_other sid other [] h = refl
any_register-without_other sid other ((j, w) ∷ m) h = ground (
  arith,
  same_iff j.session_id sid,
  same_iff j.session_id other,
  same_iff sid other,
  any_register-without_other sid other m h,
)

pub lookup-without_session :
    (sid : Text) (key : RegisterKey) (m : List (RegisterKey × Register))
    → lookup key (without_session sid m) ≡ (if same key.session_id sid then none else lookup key m)
unfolding lookup without_session
lookup-without_session sid key [] = ground arith
lookup-without_session sid key ((j, w) ∷ m) =
    ground (arith, key_eqb_iff j key, lookup-without_session sid key m)

-- A session without registers has no session register.
pub lookup_none-any_register :
    (key : RegisterKey) (m : List (RegisterKey × Register))
    → any_register key.session_id m ≡ false
    → lookup key m ≡ none
unfolding lookup any_register
lookup_none-any_register key [] h = refl
lookup_none-any_register key ((j, w) ∷ m) h =
    ground (
      arith,
      key_eqb_iff j key,
      same_iff j.session_id key.session_id,
      lookup_none-any_register key m,
    )

-- A valid key that is no operation's is its session's key.
pub session_key_lem :
    (key : RegisterKey)
    → validate_register_key key ≡ none
    → is_operation key.kind ≡ false
    → key ≡ session_key key.session_id
unfolding validate_register_key
session_key_lem key v h = ground arith

pub AllPairs-without_session {κ} :
    (P : RegisterKey → Register → Type κ) (sid : Text) (m : List (RegisterKey × Register))
    → AllPairs P m
    → AllPairs P (without_session sid m)
unfolding without_session
AllPairs-without_session P sid [] h = tt
AllPairs-without_session P sid ((j, w) ∷ m) h = elim (Bool-cases (same j.session_id sid)) [
  | inl x ↦ rw x (AllPairs-without_session P sid m h.1)
  | inr x ↦ rw x (h.0, AllPairs-without_session P sid m h.1)
]

pub count_key-without_session-le :
    (sid : Text) (key : RegisterKey) (m : List (RegisterKey × Register))
    → count_key key (without_session sid m) ≤ count_key key m
unfolding count_key without_session
count_key-without_session-le sid key [] = omega arith
count_key-without_session-le sid key ((j, w) ∷ m) =
    ground (arith, count_key-without_session-le sid key m)
