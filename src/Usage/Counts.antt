-- ===== src/Usage/Counts.antt =====
-- The checked additions of harness/usage.go.
use lightcode.Prelude.{◌≡◌, Bool, true, not, ◌&&◌, none, some, if◌then◌else◌, arith}
use lightcode.Prelude.Int.{ℤ, ltb_ℤ, ◌+ℤ◌, +ℤ_parts, -ℤ_parts, max_int64, min_int64}
use lightcode.Usage.{add_int64}

abbrev pub in_range : ℤ → Bool
in_range a = not (ltb_ℤ a min_int64) && not (ltb_ℤ max_int64 a)

-- For two numbers of 64 bits the checked sum is the exact sum where that has 64 bits, and it is
-- refused otherwise.
pub add_int64_lem :
    (a b : ℤ)
    → in_range a ≡ true
    → in_range b ≡ true
    → add_int64 a b ≡ (if in_range (a +ℤ b) then some (a +ℤ b) else none)
unfolding add_int64
add_int64_lem a b h k =
    ground (arith, h, k, +ℤ_parts a b, -ℤ_parts max_int64 b, -ℤ_parts min_int64 b)
