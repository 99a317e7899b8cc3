-- ===== src/Float/Monotone.antt =====
-- Rounding keeps the order, so it crosses no representable value.
use gardal.Prelude.{
  ℕ, ◌+◌, ◌-◌, ◌*◌, ◌/◌, ◌%◌, ◌^◌, ◌≤◌, ◌<◌, ◌≡◌, refl, ap, arith, pow-add, pow-pos, pow_mono,
}
use gardal.Float.Round.{excess, round_up, nearest_at, nearest}
use gardal.Float.Digits.{lt-excess, excess-le, mod-excess}
use gardal.Float.Closed.{round_up-le, significand-lt}
use gardal.Float.Exact.{nearest-exact}
use native.Mathlib.Decide.{dec_lt}
use native.Mathlib.Nat.{
  div-add-mod', mul-le-mul_right, div-lt_iff_lt-mul, le-div_iff_mul-le, div-div-eq-div-mul,
  le_trans, lt_of_le_of_lt, mul-pos, div-mul-le_self, div-one,
}

-- The quotient is a number of the format's size.
abbrev pub IsMeasured : ℕ → ℕ → Type 0
IsMeasured n d = n / d < 2 ^ (2 ^ 13)

div_mono : (n m d : ℕ) → 0 < d → n ≤ m → n / d ≤ m / d
div_mono n m d p h = (le-div_iff_mul-le p).1 (le_trans (div-mul-le_self n d) h)

round_up_mono : (k r q u : ℕ) → r ≤ q → round_up k r u ≤ round_up k q u
unfolding round_up
round_up_mono k r q u h = ground arith

quotient_step :
    (n m u : ℕ)
    → 0 < u
    → n ≤ m
    → n / u + round_up (n / u) (n % u) u ≤ m / u + round_up (m / u) (m % u) u
quotient_step n m u p h = elim (dec_lt (n / u) (m / u)) [
  | yes lower ↦ omega (arith, round_up-le (n / u) (n % u) u)
  | no level ↦
      let e : n / u ≡ m / u = omega (arith, div_mono n m u p h) in
      let r : n % u ≤ m % u =
        omega (arith, div-add-mod' n u, div-add-mod' m u, ap (λ k. k * u) e) in
      rw e (omega (arith, round_up_mono (m / u) (n % u) (m % u) u r))
]

nearest_at_mono : (s n m d : ℕ) → 0 < d → n ≤ m → nearest_at s n d ≤ nearest_at s m d
unfolding nearest_at
nearest_at_mono s n m d p h =
    mul-le-mul_right (2 ^ s) (quotient_step n m (d * 2 ^ s) (mul-pos p (pow-pos s)) h)

same_binade :
    (n m d : ℕ) → 0 < d → n ≤ m → excess (n / d) ≡ excess (m / d) → nearest n d ≤ nearest m d
unfolding nearest
same_binade n m d p h e = rw e (nearest_at_mono (excess (m / d)) n m d p h)

-- A rounded value lies within its binade.
nearest-le : (n d : ℕ) → IsMeasured n d → nearest n d ≤ 2 ^ (53 + excess (n / d))
unfolding nearest nearest_at
nearest-le n d h =
    let s = excess (n / d) in
    let u = d * 2 ^ s in
    rw (pow-add 53 s) (
      mul-le-mul_right (2 ^ s)
        (omega (arith, significand-lt n d s (lt-excess (n / d) h), round_up-le (n / u) (n % u) u)))

excess_mono : (x y : ℕ) → x ≤ y → y < 2 ^ (2 ^ 13) → excess x ≤ excess y
excess_mono x y h q = excess-le x (excess y) (lt_of_le_of_lt h (lt-excess y q))

full_significand : (q s : ℕ) → excess q ≡ s → 0 < s → 2 ^ 52 ≤ q / 2 ^ s
full_significand q s e h = elim (dec_lt (q / 2 ^ s) (2 ^ 52)) [
  | no p ↦ omega arith
  | yes p ↦
      let same : 2 ^ (53 + (s - 1)) ≡ 2 ^ (52 + s) = ap (λ t. 2 ^ t) (omega arith) in
      let low : q < 2 ^ (53 + (s - 1)) =
        omega (arith, same, pow-add 52 s, (div-lt_iff_lt-mul (pow-pos s)).0 p) in
      absurd (omega (arith, excess-le q (s - 1) low))
]

-- With digits dropped, the significand is full.
nearest-ge : (n d : ℕ) → 0 < excess (n / d) → 2 ^ (52 + excess (n / d)) ≤ nearest n d
unfolding nearest nearest_at
nearest-ge n d h =
    let s = excess (n / d) in
    let u = d * 2 ^ s in
    let k : n / d / 2 ^ s ≡ n / u = div-div-eq-div-mul n d (2 ^ s) in
    rw (pow-add 52 s)
      (mul-le-mul_right (2 ^ s) (omega (arith, k, full_significand (n / d) s refl h)))

-- Rounding keeps the order.
pub nearest_mono : (n m d : ℕ) → 0 < d → IsMeasured m d → n ≤ m → nearest n d ≤ nearest m d
nearest_mono n m d p q h =
    let below = div_mono n m d p h in
    let small : IsMeasured n d = lt_of_le_of_lt below q in
    let s = excess (n / d) in
    let t = excess (m / d) in
    elim (dec_lt s t) [
      | yes apart ↦
          le_trans (nearest-le n d small)
            (le_trans (pow_mono (53 + s) (52 + t) (omega arith)) (nearest-ge m d (omega arith)))
      | no level ↦ same_binade n m d p h (omega (arith, excess_mono (n / d) (m / d) below q))
    ]

-- It crosses no representable value.
pub nearest-le_rep : (n j : ℕ) → n ≤ j → j % 2 ^ excess j ≡ 0 → j < 2 ^ (2 ^ 13) → nearest n 1 ≤ j
nearest-le_rep n j h r q =
    let top = nearest_mono n j 1 (omega arith) (rw (div-one j) q) h in
    omega (arith, nearest-exact j r)

pub nearest-pos : (n : ℕ) → 0 < n → n < 2 ^ (2 ^ 13) → 0 < nearest n 1
nearest-pos n h q = omega (
  arith,
  nearest_mono 1 n 1 (omega arith) (rw (div-one n) q) h,
  nearest-exact 1 (mod-excess 1 0 (omega arith)),
)
