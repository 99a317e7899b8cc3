-- ===== src/Float/Digits.antt =====
-- `bit_length` counts binary digits, and what that says of the unit in the last place.
use gardal.Prelude.{
  ℕ, zero, suc, ◌+◌, ◌-◌, ◌*◌, ◌/◌, ◌%◌, ◌^◌, ◌≤◌, ◌<◌, ◌≡◌, ap, inl, inr, arith, leb, Bool-cases,
  pow-add, pow-pos, pow_mono, lt_of_pow, mod-mul-pow,
}
use gardal.Float.Round.{bit_length_below, bit_length, excess}
use native.Mathlib.Nat.{
  div-lt_iff_lt-mul, two-pow-succ, mul_comm, zero-add, lt_of_lt_of_le, mul-lt-mul_of_pos_right,
}
use native.Mathlib.Decide.{dec_lt}

double_exponent : (k : ℕ) → 2 ^ (2 ^ suc k) ≡ 2 ^ (2 ^ k) * 2 ^ (2 ^ k)
double_exponent k = rw (two-pow-succ k) (pow-add (2 ^ k) (2 ^ k))

quotient-lt : (k n : ℕ) → n < 2 ^ (2 ^ suc k) → n / 2 ^ (2 ^ k) < 2 ^ (2 ^ k)
quotient-lt k n h = (div-lt_iff_lt-mul (pow-pos (2 ^ k))).1 (rw (← double_exponent k) h)

lt-scaled : (n p b : ℕ) → 0 < p → n / p < b → n < p * b
lt-scaled n p b h q = rw (mul_comm p b) ((div-lt_iff_lt-mul h).0 q)

-- `n` has at most `bit_length_below k n` digits.
pub lt-bit_length_below : (k n : ℕ) → n < 2 ^ (2 ^ k) → n < 2 ^ bit_length_below k n
unfolding bit_length_below
lt-bit_length_below zero zero h = omega arith
lt-bit_length_below zero (suc zero) h = omega arith
lt-bit_length_below zero (suc (suc n)) h = absurd (omega arith)
lt-bit_length_below (suc k) n h = elim (Bool-cases (leb (2 ^ (2 ^ k)) n)) [
  | inl big ↦
      rw (big, pow-add (2 ^ k) (bit_length_below k (n / 2 ^ (2 ^ k))))
        (lt-scaled n (2 ^ (2 ^ k)) _ (pow-pos (2 ^ k))
          (lt-bit_length_below k (n / 2 ^ (2 ^ k)) (quotient-lt k n h)))
  | inr small ↦ rw (small, zero-add) (lt-bit_length_below k n (ground arith))
]

-- ... and no more than any exponent that bounds it.
pub bit_length_below-le : (k n t : ℕ) → n < 2 ^ t → bit_length_below k n ≤ t
unfolding bit_length_below
bit_length_below-le zero n zero h = omega arith
bit_length_below-le zero n (suc t) h = omega arith
bit_length_below-le (suc k) n t h = elim (Bool-cases (leb (2 ^ (2 ^ k)) n)) [
  | inl big ↦ rw big (
      let above : 2 ^ k < t = lt_of_pow (2 ^ k) t (ground arith) in
      let rest : 2 ^ t ≡ 2 ^ (t - 2 ^ k) * 2 ^ (2 ^ k) =
        rw (← pow-add (t - 2 ^ k) (2 ^ k)) (ap (λ e. 2 ^ e) (omega arith)) in
      omega (
        arith,
        bit_length_below-le k (n / 2 ^ (2 ^ k)) (t - 2 ^ k)
            ((div-lt_iff_lt-mul (pow-pos (2 ^ k))).1 (rw (← rest) h)),
      ))
  | inr small ↦ rw (small, zero-add) (bit_length_below-le k n t h)
]

pub excess-le : (m s : ℕ) → m < 2 ^ (53 + s) → excess m ≤ s
unfolding excess bit_length
excess-le m s h = omega (arith, bit_length_below-le 13 m (53 + s) h)

-- All digits above the excess fit in the significand.
pub lt-excess : (m : ℕ) → m < 2 ^ (2 ^ 13) → m < 2 ^ (53 + excess m)
unfolding excess bit_length
lt-excess m h =
    lt_of_lt_of_le (lt-bit_length_below 13 m h)
      (pow_mono (bit_length_below 13 m) (53 + (bit_length_below 13 m - 53)) (omega arith))

-- A multiple of 2^s by at most 2^53 has no digit below its own unit in the last place.
pub mod-excess : (j s : ℕ) → j ≤ 2 ^ 53 → j * 2 ^ s % 2 ^ excess (j * 2 ^ s) ≡ 0
mod-excess j s h = elim (dec_lt j (2 ^ 53)) [
  | yes p ↦
      mod-mul-pow j s _
        (excess-le (j * 2 ^ s) s (rw (pow-add 53 s) (mul-lt-mul_of_pos_right p (pow-pos s))))
  | no p ↦
      let top : j ≡ 2 ^ 53 = omega arith in
      let shifted : j * 2 ^ s ≡ 2 ^ 52 * 2 ^ (s + 1) = rw (top, pow-add s 1) (omega arith) in
      let small : j * 2 ^ s < 2 ^ (53 + (s + 1)) =
        rw (top, pow-add 53 (s + 1), pow-add s 1) (omega (arith, pow-pos s)) in
      rw shifted (
        mod-mul-pow (2 ^ 52) (s + 1) _
          (excess-le (2 ^ 52 * 2 ^ (s + 1)) (s + 1) (rw (← shifted) small)))
]
