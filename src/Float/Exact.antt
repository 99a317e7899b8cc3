-- ===== src/Float/Exact.antt =====
-- Where no rounding takes place: representable values, integers, and differences of equal values.
use gardal.Prelude.{
  ℕ, zero, suc, ◌*◌, ◌/◌, ◌%◌, ◌^◌, ◌≤◌, ◌<◌, ◌≡◌, refl, arith, Bool, true, false, xor, pow-pos,
  lt→ltb, le→ltb, pos→==,
}
use gardal.Float.Round.{excess, round_up, nearest_at, nearest}
use gardal.Float.Value.{
  fin, one, limit, round, of_int, zero_f64, neg, add_fin, add, sub, mul, div, IsRep,
}
use gardal.Float.Digits.{mod-excess}
use native.Mathlib.Nat.{
  div-one, div-add-mod', one-mul, zero-div, zero-mod, add-zero, zero-mul, mul-pos, sub-zero,
}

-- A whole multiple of the unit is not moved.
pub nearest_at-exact :
    (s n d : ℕ) → 0 < d → n % (d * 2 ^ s) ≡ 0 → nearest_at s n d ≡ n / (d * 2 ^ s) * 2 ^ s
unfolding nearest_at round_up
nearest_at-exact s n d p e = rw (e, lt→ltb (2 * 0) (d * 2 ^ s) (mul-pos p (pow-pos s)), add-zero)

pub nearest-exact : (m : ℕ) → m % 2 ^ excess m ≡ 0 → nearest m 1 ≡ m
unfolding nearest
nearest-exact m e =
    rw
      (
        div-one m,
        nearest_at-exact (excess m) m 1 (omega arith) (rw (one-mul (2 ^ excess m)) e),
        one-mul (2 ^ excess m),
      )
      (omega (arith, div-add-mod' m (2 ^ excess m)))

pub round-exact : (s : Bool) (m : ℕ) → IsRep m → round s m 1 ≡ fin s m
unfolding round
round-exact s m r = rw (nearest-exact m r.0, lt→ltb m limit r.1)

nearest-zero : (d : ℕ) → 0 < d → nearest 0 d ≡ 0
unfolding nearest
nearest-zero d p =
    rw (nearest_at-exact (excess (0 / d)) 0 d p (zero-mod _), zero-div (d * 2 ^ excess (0 / d)))
      (zero-mul _)

limit-pos : 0 < limit
unfolding limit
limit-pos = omega arith

pub round-zero : (s : Bool) (d : ℕ) → 0 < d → round s 0 d ≡ fin s 0
unfolding round
round-zero s d p = ground (arith, nearest-zero d p, limit-pos)

pub one-pos : 0 < one
unfolding one
one-pos = omega arith

-- `x - x` is +0 for finite `x`.
pub sub_self : (s : Bool) (m : ℕ) → sub (fin s m) (fin s m) ≡ zero_f64
unfolding sub add neg add_fin
sub_self false m = rw (le→ltb m m (omega arith))
sub_self true m = rw (le→ltb m m (omega arith))

-- `x - 0` is `x`.
pub sub-zero_f64 : (s : Bool) (m : ℕ) → IsRep m → sub (fin s m) zero_f64 ≡ fin s m
unfolding sub add neg add_fin
sub-zero_f64 true m r = rw (add-zero m) (round-exact true m r)
sub-zero_f64 false zero r = rw (le→ltb 0 0 (omega arith))
sub-zero_f64 false (suc m) r =
    rw (lt→ltb 0 (suc m) (omega arith), sub-zero (suc m)) (round-exact false (suc m) r)

pub div_fin :
    (s : Bool) (a : ℕ) (t : Bool) (b : ℕ)
    → 0 < b
    → div (fin s a) (fin t b) ≡ round (xor s t) (a * one) b
unfolding div
div_fin s a t b p = rw (pos→== b p)

pub mul_fin :
    (s : Bool) (a : ℕ) (t : Bool) (b : ℕ) → mul (fin s a) (fin t b) ≡ round (xor s t) (a * b) one
unfolding mul
mul_fin s a t b = refl

-- `0 / x` is 0 for positive `x`.
pub zero-div_pos : (m : ℕ) → 0 < m → div zero_f64 (fin false m) ≡ zero_f64
zero-div_pos m p = rw (div_fin false 0 false m p, zero-mul one) (round-zero false m p)

-- `0 * x` is 0 for finite `x`, with the sign of `x`.
pub zero-mul_fin : (t : Bool) (m : ℕ) → mul zero_f64 (fin t m) ≡ fin t 0
zero-mul_fin t m = rw (mul_fin false 0 t m, zero-mul m) (round-zero t one one-pos)

-- An integer of at most 53 bits is converted as it is.
pub of_int-IsRep : (n : ℕ) → n ≤ 2 ^ 53 → IsRep (n * one)
unfolding one limit
of_int-IsRep n h = (mod-excess n 1074 h, omega arith)

pub of_int-exact : (n : ℕ) → n ≤ 2 ^ 53 → of_int n ≡ fin false (n * one)
unfolding of_int
of_int-exact n h = round-exact false (n * one) (of_int-IsRep n h)
