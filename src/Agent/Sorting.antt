-- ===== src/Agent/Sorting.antt =====
-- What the sort by position in agent/content_acc.go and agent/message_build.go keeps.
use lightcode.Agent.State.{position_key}
use lightcode.Prelude.{ℕ, List, [], ◌∷◌, leb, if_cases}
use lightcode.Prelude.Assoc.{AllPairs}
use lightcode.Agent.Content.{insert_position, sort_positions}

module _ {κ} {V : Type 0} (P : ℕ → V → Type κ) where
  AllPairs-insert_position :
      (x : ℕ × V) (m : List (ℕ × V)) → P x.0 x.1 → AllPairs P m → AllPairs P (insert_position x m)
  unfolding insert_position
  AllPairs-insert_position x [] h k = (h, tt)
  AllPairs-insert_position x (y ∷ ys) h k =
      if_cases (AllPairs P) (leb x.0 y.0) (x ∷ y ∷ ys) (y ∷ insert_position x ys) (λ _. (h, k))
        λ _. (k.0, AllPairs-insert_position x ys h k.1)

  pub AllPairs-sort_positions : (m : List (ℕ × V)) → AllPairs P m → AllPairs P (sort_positions m)
  unfolding sort_positions
  AllPairs-sort_positions [] h = tt
  AllPairs-sort_positions (x ∷ xs) h =
      AllPairs-insert_position x (sort_positions xs) h.0 (AllPairs-sort_positions xs h.1)
