-- ===== src/Tokens/RoundTrip.antt =====
-- src/tokens.rs: a number of tokens and its bits.
use gardal.Prelude.{ℕ, ◌^◌, ◌≤◌, ◌<◌, ◌≡◌, arith}
use gardal.Float.Value.{of_int, as_uint}
use gardal.Float.Closed.{of_int-IsF64}
use gardal.Float.Exact.{of_int-exact, one-pos}
use gardal.Float.Bits.{from_bits-to_bits}
use gardal.Tokens
use gardal.Tokens.{new_unchecked, as_u64}
use native.Mathlib.Nat.{mul-div_cancel}

-- A whole number of at most 2^53 is read off the float that holds it, cut at 2^w - 1.
pub as_uint-of_int : (w n : ℕ) → n ≤ 2 ^ 53 → n < 2 ^ w → as_uint w (of_int n) ≡ n
unfolding as_uint
as_uint-of_int w n h k = rw (of_int-exact n h, mul-div_cancel n one-pos) (omega (arith, k))

-- `Tokens::new(n).as_u64()` is `n`, for `n` up to 2^53.
pub as_u64-new : (n : ℕ) → n ≤ 2 ^ 53 → as_u64 (Tokens.new n) ≡ n
unfolding as_u64 Tokens.new new_unchecked
as_u64-new n h =
    rw (from_bits-to_bits (of_int n) (of_int-IsF64 n (omega (arith, h))))
      (as_uint-of_int 64 n h (omega (arith, h)))
