-- ===== src/Float/Round.antt =====
-- Rounding a quotient of naturals to a 53-bit significand, to nearest with ties to even: the rounding
-- of Rust's `f64`. Magnitudes count units of 2^-1074, so subnormal numbers need no case of their own.
use gardal.Prelude.{ℕ, zero, suc, ◌+◌, ◌-◌, ◌*◌, ◌/◌, ◌%◌, ◌^◌, ltb, leb, if◌then◌else◌}
use Prim.Native.Nat.{min}

-- The number of binary digits of `n`, for `n` below 2^(2^k): a binary search for the top digit.
unfoldable pub bit_length_below : ℕ → ℕ → ℕ
bit_length_below zero n = min n 1
bit_length_below (suc k) n =
    let big = leb (2 ^ (2 ^ k)) n in
    (if big then 2 ^ k else 0) + bit_length_below k (if big then n / 2 ^ (2 ^ k) else n)

-- 2^13 digits cover the products and quotients of two finite values.
unfoldable pub bit_length : ℕ → ℕ
bit_length = bit_length_below 13

-- How many low digits do not fit in the significand.
unfoldable pub excess : ℕ → ℕ
excess n = bit_length n - 53

-- Whether the remainder `r` of a division by `u` moves the quotient `k` up by one.
unfoldable pub round_up : ℕ → ℕ → ℕ → ℕ
round_up k r u = if ltb (2 * r) u then 0 else if ltb u (2 * r) then 1 else k % 2

-- n / d, with `u` the unit in the last place.
unfoldable pub nearest_at : ℕ → ℕ → ℕ → ℕ
nearest_at s n d = let u = d * 2 ^ s in let k = n / u in (k + round_up k (n % u) u) * 2 ^ s

unfoldable pub nearest : ℕ → ℕ → ℕ
nearest n d = nearest_at (excess (n / d)) n d
