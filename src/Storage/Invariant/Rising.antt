-- ===== src/Storage/Invariant/Rising.antt =====
-- Sequences of one session's entries.
use lightcode.Prelude.{if◌then◌else◌, ◌≡◌, Bool, none, List, [], ◌∷◌, ◌++◌, Text, arith, All}
use lightcode.Prelude.Int.{pos, ltb_ℤ, ℤ, max_int64, ◌<ℤ◌, ◌≤ℤ◌}
use lightcode.Storage.{Entry}
use lightcode.Storage.Validate.{validate_stored_entry}
use lightcode.Storage.State.{max_from, max_sequence}
use lightcode.Storage.Invariant.{Rising}

-- The highest sequence is at least the start and every entry's.
pub low-le-max_from : (low : ℤ) (es : List Entry) → low ≤ℤ max_from low es
unfolding max_from
low-le-max_from low [] = omega arith
low-le-max_from low (e ∷ es) = ground (arith, low-le-max_from low es, low-le-max_from e.sequence es)

pub All-le-max_from : (low : ℤ) (es : List Entry) → All (λ e. e.sequence ≤ℤ max_from low es) es
unfolding max_from
All-le-max_from low [] = tt
All-le-max_from low (e ∷ es) = (
  ground (arith, low-le-max_from low es, low-le-max_from e.sequence es),
  All-le-max_from (if ltb_ℤ low e.sequence then e.sequence else low) es,
)

module _ (json_valid : Text → Bool) where
  pub Rising-snoc :
      (sid : Text) (low : ℤ) (es : List Entry) (e : Entry)
      → e.session_id ≡ sid
      → max_from low es <ℤ e.sequence
      → e.sequence ≤ℤ max_int64
      → validate_stored_entry json_valid e ≡ none
      → Rising json_valid sid low es
      → Rising json_valid sid low (es ++ e ∷ [])
  unfolding max_from
  Rising-snoc sid low [] e i m b v h = (i, m, b, v, tt)
  Rising-snoc sid low (x ∷ es) e i m b v h =
      (h.0, h.1, h.2, h.3, Rising-snoc sid x.sequence es e i (ground arith) b v h.4)

  max_from-bounded :
      (sid : Text) (low : ℤ) (es : List Entry)
      → low ≤ℤ max_int64
      → Rising json_valid sid low es
      → max_from low es ≤ℤ max_int64
  unfolding max_from
  max_from-bounded sid low [] b h = b
  max_from-bounded sid low (x ∷ es) b h = ground (arith, max_from-bounded sid x.sequence es h.2 h.4)

  pub max_sequence-bounded :
      (sid : Text) (es : List Entry)
      → Rising json_valid sid (pos 0) es
      → max_sequence es ≤ℤ max_int64
  unfolding max_sequence
  max_sequence-bounded sid es h = max_from-bounded sid (pos 0) es (omega arith) h
