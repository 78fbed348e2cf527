-- ===== src/Storage/Guarantees.antt =====
-- What Transact and its transaction promise a caller of internal/storage/memory.go.
use lightcode.Prelude.{
  ℕ, ◌≡◌, refl, Bool, true, false, ◌||◌, none, some, Option, Text, arith, inl, inr, ◌∙◌, ap,
}
use lightcode.Prelude.Int.{ℤ}
use lightcode.Storage.{EntryDraft, RegisterKey, RegisterDraft, Error, Result, ok, err, invalid}
use lightcode.Storage.State.{State, is_some}
use lightcode.Storage.Write.{insert_entry, insert_register, replace_register}
use lightcode.Storage.Txn.{
  Txn, begin, latch, is_latching, guard_write, txn_delete_session, txn_read_entries,
  txn_read_register, txn_insert_entry, txn_insert_register, txn_replace_register,
}
use lightcode.Storage.Memory.{Script, returned, run, transact}
use lightcode.Storage.Transact.{transact_atomic}

-- A reply of conflict or storage class
abbrev pub is_failure {ℓ} : {A : Type ℓ} → Result A → Bool
is_failure (ok a) = false
is_failure (err e) = is_latching e

module _ (json_valid : Text → Bool) where
  -- Whether some call of the callback was answered by an error of conflict or storage class.
  pub reported : Script → Txn → Bool
  reported (Script.returns e) t = false
  reported Script.panics t = false
  reported (Script.read_entries sid after k) t =
      reported (k (txn_read_entries json_valid t sid after)) t
  reported (Script.read_register key k) t = reported (k (txn_read_register json_valid t key)) t
  reported (Script.insert_entry draft now k) t =
      let (t', r) = txn_insert_entry json_valid t draft now in is_failure r || reported (k r) t'
  reported (Script.insert_register draft k) t =
      let (t', r) = txn_insert_register json_valid t draft in is_failure r || reported (k r) t'
  reported (Script.replace_register key expected payload k) t =
      let (t', r) = txn_replace_register json_valid t key expected payload in
      is_failure r || reported (k r) t'
  reported (Script.delete_session sid k) t =
      let (t', r) = txn_delete_session t sid in reported (k r) t'

  -- A mutation latches exactly when it answers with a failure, or when there was one before.
  guard_write-latched {ℓ} :
      {A : Type ℓ} (t : Txn) (r : State × Result A)
      → t.closed ≡ false
      → (is_some (guard_write t r).0.latched
          ≡ (is_some t.latched || is_failure (guard_write t r).1))
        × ((guard_write t r).0.closed ≡ false)
  unfolding latch
  guard_write-latched t (s, ok a) c = ground arith
  guard_write-latched t (s, err e) c = ground arith

  -- One step of the induction below.
  or_step : (z a b : Bool) {x y : Bool} → x ≡ (y || z) → y ≡ (a || b) → x ≡ (a || (b || z))
  or_step z a b p q = ground arith

  delete_session-latched :
      (t : Txn) (sid : Text)
      → t.closed ≡ false
      → (is_some (txn_delete_session t sid).0.latched ≡ is_some t.latched)
        × ((txn_delete_session t sid).0.closed ≡ false)
  unfolding txn_delete_session
  delete_session-latched t sid c = ground arith

  latched-run :
      (script : Script) (t : Txn)
      → t.closed ≡ false
      → is_some (run json_valid script t).0.latched ≡ (is_some t.latched || reported script t)
  unfolding run reported txn_insert_entry txn_insert_register txn_replace_register
      txn_delete_session
  latched-run (Script.returns e) t c = ground arith
  latched-run Script.panics t c = ground arith
  latched-run (Script.read_entries sid after k) t c = latched-run (k _) t c
  latched-run (Script.read_register key k) t c = latched-run (k _) t c
  latched-run (Script.insert_entry draft now k) t c =
      let (t', r) = txn_insert_entry json_valid t draft now in
      let g = guard_write-latched t (insert_entry json_valid t.state draft now) c in
      or_step (reported (k r) t') (is_some t.latched) (is_failure r) (latched-run (k r) t' g.1) g.0
  latched-run (Script.insert_register draft k) t c =
      let (t', r) = txn_insert_register json_valid t draft in
      let g = guard_write-latched t (insert_register json_valid t.state draft) c in
      or_step (reported (k r) t') (is_some t.latched) (is_failure r) (latched-run (k r) t' g.1) g.0
  latched-run (Script.replace_register key expected payload k) t c =
      let (t', r) = txn_replace_register json_valid t key expected payload in
      let g = guard_write-latched t (replace_register json_valid t.state key expected payload) c in
      or_step (reported (k r) t') (is_some t.latched) (is_failure r) (latched-run (k r) t' g.1) g.0
  latched-run (Script.delete_session sid k) t c =
      let (t', r) = txn_delete_session t sid in
      let g = delete_session-latched t sid c in
      latched-run (k r) t' g.1 ∙ ap (λ b. b || reported (k r) t') g.0

  -- A commit means that no mutation of the callback was answered by a conflict or a storage failure:
  -- a callback that ignores one cannot commit.
  pub transact_no_ignored_failure :
      (s : State) (before locked after : Option Error) (script : Script)
      → (transact json_valid s before locked after script).1 ≡ returned none
      → reported script (begin s) ≡ false
  transact_no_ignored_failure s before locked after script h =
      elim (transact_atomic json_valid s before locked after script) [
        | inl (_, _, _, _, _, clean) ↦ ground (arith, latched-run script (begin s) refl, clean)
        | inr (_, failed) ↦ absurd (failed h)
      ]

  guard_write-closed {ℓ} :
      {A : Type ℓ} (t : Txn) (r : State × Result A)
      → t.closed ≡ true
      → guard_write t r ≡ (t, err invalid)
  unfolding latch
  guard_write-closed t r c = ground arith

  insert_entry_closed :
      (t : Txn) (draft : EntryDraft) (now : ℕ)
      → t.closed ≡ true
      → txn_insert_entry json_valid t draft now ≡ (t, err invalid)
  unfolding txn_insert_entry
  insert_entry_closed t draft now c =
      guard_write-closed t (insert_entry json_valid t.state draft now) c

  insert_register_closed :
      (t : Txn) (draft : RegisterDraft)
      → t.closed ≡ true
      → txn_insert_register json_valid t draft ≡ (t, err invalid)
  unfolding txn_insert_register
  insert_register_closed t draft c =
      guard_write-closed t (insert_register json_valid t.state draft) c

  replace_register_closed :
      (t : Txn) (key : RegisterKey) (expected : ℤ) (payload : Text)
      → t.closed ≡ true
      → txn_replace_register json_valid t key expected payload ≡ (t, err invalid)
  unfolding txn_replace_register
  replace_register_closed t key expected payload c =
      guard_write-closed t (replace_register json_valid t.state key expected payload) c

  delete_session_closed :
      (t : Txn) (sid : Text) → t.closed ≡ true → txn_delete_session t sid ≡ (t, some invalid)
  unfolding txn_delete_session
  delete_session_closed t sid c = ground arith

  -- A transaction kept past its callback changes nothing, whatever is called on it.
  pub closed-run : (script : Script) (t : Txn) → t.closed ≡ true → (run json_valid script t).0 ≡ t
  unfolding run
  closed-run (Script.returns e) t c = refl
  closed-run Script.panics t c = refl
  closed-run (Script.read_entries sid after k) t c = closed-run (k _) t c
  closed-run (Script.read_register key k) t c = closed-run (k _) t c
  closed-run (Script.insert_entry draft now k) t c =
      rw (insert_entry_closed t draft now c, run) (closed-run (k (err invalid)) t c)
  closed-run (Script.insert_register draft k) t c =
      rw (insert_register_closed t draft c, run) (closed-run (k (err invalid)) t c)
  closed-run (Script.replace_register key expected payload k) t c =
      rw (replace_register_closed t key expected payload c, run) (closed-run (k (err invalid)) t c)
  closed-run (Script.delete_session sid k) t c =
      rw (delete_session_closed t sid c, run) (closed-run (k (some invalid)) t c)
