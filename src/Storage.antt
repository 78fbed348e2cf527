-- ===== src/Storage.antt =====
-- harness/storage.go: the durable storage contract. Envelopes are records, the closed kinds are
-- data types with one more constructor for any other string, and an error is its class.
pub mod Validate
pub mod State
pub mod Read
pub mod Write
pub mod Outcome
pub mod Txn
pub mod Memory
pub mod Invariant
pub mod Transact
pub mod Guarantees
pub mod Entries
pub mod Revisions
pub mod Reading
pub mod Listing
pub mod Deleting
mod Examples
use lightcode.Prelude.{ℕ, ◌≡◌, ◌↔◌, Bool, true, false, ◌&&◌, arith, Text, same, same_iff}
use lightcode.Prelude.Int.{ℤ}
pub use lightcode.Prelude.Assoc.{text_key}
use lightcode.Prelude.Assoc.{Key}

pub data EntryKind : Type 0 where
  input assistant tool_result signal hook_result compaction operation_settlement : EntryKind
  other_entry : Text → EntryKind

pub data RegisterKind : Type 0 where
  session operation : RegisterKind
  other_register : Text → RegisterKind

pub record EntryDraft : Type 0 where
  pub session_id : Text
  pub id : Text
  pub operation_id : Text
  pub kind : EntryKind
  pub payload : Text

-- `committed_at` is a time as a number, and the zero time is 0.
pub record Entry : Type 0 where
  pub session_id : Text
  pub id : Text
  pub sequence : ℤ
  pub operation_id : Text
  pub kind : EntryKind
  pub committed_at : ℕ
  pub payload : Text

pub record RegisterKey : Type 0 where
  pub session_id : Text
  pub kind : RegisterKind
  pub operation_id : Text

pub record RegisterDraft : Type 0 where
  pub key : RegisterKey
  pub payload : Text

pub record Register : Type 0 where
  pub key : RegisterKey
  pub revision : ℤ
  pub payload : Text

-- The classes of errors, a context's error, and an error of the caller's own.
pub data Error : Type 0 where
  invalid not_found conflict storage canceled : Error
  corrupt : Text → Error
  caller : Text → Error

pub data Result {ℓ} (A : Type ℓ) : Type ℓ where
  ok : A → Result A
  err : Error → Result A

-- Go's `==` on kinds and keys
unfoldable pub kind_eqb : RegisterKind → RegisterKind → Bool
kind_eqb session session = true
kind_eqb operation operation = true
kind_eqb (other_register a) (other_register b) = same a b
kind_eqb _ _ = false

pub kind_eqb_iff : (a b : RegisterKind) → (kind_eqb a b ≡ true) ↔ (a ≡ b)
unfolding kind_eqb
kind_eqb_iff session session = ground arith
kind_eqb_iff operation operation = ground arith
kind_eqb_iff (other_register a) (other_register b) = ground (arith, same_iff a b)
kind_eqb_iff _ _ = ground arith

unfoldable pub key_eqb : RegisterKey → RegisterKey → Bool
key_eqb a b =
    same a.session_id b.session_id && kind_eqb a.kind b.kind && same a.operation_id b.operation_id

pub key_eqb_iff : (a b : RegisterKey) → (key_eqb a b ≡ true) ↔ (a ≡ b)
unfolding key_eqb
key_eqb_iff a b = ground (
  arith,
  same_iff a.session_id b.session_id,
  kind_eqb_iff a.kind b.kind,
  same_iff a.operation_id b.operation_id,
)

instance abbrev pub register_key : Key RegisterKey
register_key = record { eqb = key_eqb; eqb_iff = key_eqb_iff }
