-- ===== src/Storage/Invariant/Unique.antt =====
-- How the operations of internal/storage/memory.go change the number of times an identity is used.
use lightcode.Prelude.{
  ◌+◌, ◌≤◌, ◌≡◌, refl, false, ◌&&◌, List, [], ◌∷◌, ◌++◌, Text, same, same_iff, arith, if◌then◌else◌,
  ◌==◌,
}
use lightcode.Prelude.Assoc.{lookup, insert, remove, count_key}
use lightcode.Storage.{Entry, RegisterKey, Register, text_key, register_key, key_eqb_iff}
use lightcode.Storage.State.{
  list_has_id, has_entry_id, has_operation_id, is_operation, or_nil, without_session,
}
use lightcode.Storage.Invariant.{count_id, count_entries, count_operations}

pub count_id-append :
    (id : Text) (xs ys : List Entry) → count_id id (xs ++ ys) ≡ count_id id xs + count_id id ys
unfolding count_id
count_id-append id [] ys = omega arith
count_id-append id (x ∷ xs) ys = omega (arith, count_id-append id xs ys)

-- Writing one session's list exchanges its share of the count.
pub count_entries-insert :
    (id sid : Text) (list : List Entry) (m : List (Text × List Entry))
    → count_entries id (insert sid list m) + count_id id (or_nil (lookup sid m))
      ≡ count_entries id m + count_id id list
unfolding count_entries insert lookup
count_entries-insert id sid list [] = omega arith
count_entries-insert id sid list ((j, w) ∷ m) =
    ground (arith, same_iff j sid, count_entries-insert id sid list m)

pub count_entries-remove-le :
    (id sid : Text) (m : List (Text × List Entry))
    → count_entries id (remove sid m) ≤ count_entries id m
unfolding count_entries remove
count_entries-remove-le id sid [] = omega arith
count_entries-remove-le id sid ((j, w) ∷ m) = ground (arith, count_entries-remove-le id sid m)

count_id_absent : (id : Text) (es : List Entry) → list_has_id id es ≡ false → count_id id es ≡ 0
unfolding count_id list_has_id
count_id_absent id [] h = refl
count_id_absent id (e ∷ es) h = ground (arith, count_id_absent id es)

pub count_entries_absent :
    (id : Text) (m : List (Text × List Entry)) → has_entry_id id m ≡ false → count_entries id m ≡ 0
unfolding count_entries has_entry_id
count_entries_absent id [] h = refl
count_entries_absent id ((j, w) ∷ m) h =
    ground (arith, count_id_absent id w, count_entries_absent id m)

pub count_operations_absent :
    (id : Text) (m : List (RegisterKey × Register))
    → has_operation_id id m ≡ false
    → count_operations id m ≡ 0
unfolding count_operations has_operation_id
count_operations_absent id [] h = refl
count_operations_absent id ((j, w) ∷ m) h = ground (arith, count_operations_absent id m)

-- Only a new key adds to the count.
pub count_operations-insert :
    (id : Text) (key : RegisterKey) (r : Register) (m : List (RegisterKey × Register))
    → count_operations id (insert key r m)
      ≡ (if is_operation key.kind && same key.operation_id id && (count_key key m == 0)
          then 1
          else 0)
        + count_operations id m
unfolding count_operations insert count_key
count_operations-insert id key r [] = ground arith
count_operations-insert id key r ((j, w) ∷ m) =
    ground (arith, key_eqb_iff j key, count_operations-insert id key r m)

pub count_operations-remove-le :
    (id : Text) (key : RegisterKey) (m : List (RegisterKey × Register))
    → count_operations id (remove key m) ≤ count_operations id m
unfolding count_operations remove
count_operations-remove-le id key [] = omega arith
count_operations-remove-le id key ((j, w) ∷ m) = ground (arith, count_operations-remove-le id key m)

pub count_operations-without_session-le :
    (id sid : Text) (m : List (RegisterKey × Register))
    → count_operations id (without_session sid m) ≤ count_operations id m
unfolding count_operations without_session
count_operations-without_session-le id sid [] = omega arith
count_operations-without_session-le id sid ((j, w) ∷ m) =
    ground (arith, count_operations-without_session-le id sid m)
