-- ===== src/Float/Difference.antt =====
-- The difference of two positive finite values stays positive and finite.
use gardal.Prelude.{ℕ, ◌-◌, ◌^◌, ◌≤◌, ◌<◌, ◌≡◌, false, arith, lt→ltb}
use gardal.Float.Round.{nearest}
use gardal.Float.Value.{fin, limit, round, neg, add_fin, add, sub, IsRep}
use gardal.Float.Closed.{mod-nearest}
use gardal.Float.Monotone.{nearest-le_rep, nearest-pos}
use native.Mathlib.Nat.{lt_of_le_of_lt, div-one}

-- A smaller finite magnitude, rounded, is no larger than the bound and is representable.
below-limit : (n m : ℕ) → n ≤ m → IsRep m → (n < 2 ^ (2 ^ 13)) × (nearest n 1 ≤ m)
unfolding limit
below-limit n m h r = (omega (arith, r.1), nearest-le_rep n m h r.0 (omega (arith, r.1)))

pub sub_below :
    (m a : ℕ)
    → a < m
    → IsRep m
    → (d : ℕ) × (0 < d) × (d ≤ m) × IsRep d × (sub (fin false m) (fin false a) ≡ fin false d)
unfolding sub add neg add_fin round
sub_below m a h r =
    let (measured, le) = below-limit (m - a) m (omega arith) r in
    let small : nearest (m - a) 1 < limit = lt_of_le_of_lt le r.1 in
    (
      nearest (m - a) 1,
      nearest-pos (m - a) (omega arith) measured,
      le,
      (mod-nearest (m - a) 1 (rw (div-one (m - a)) measured), small),
      rw (lt→ltb a m h, lt→ltb (nearest (m - a) 1) limit small),
    )
