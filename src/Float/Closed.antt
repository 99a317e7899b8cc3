-- ===== src/Float/Closed.antt =====
-- The arithmetic stays inside the format: each result is NaN, an infinity or a representable value.
use gardal.Prelude.{
  ℕ, ◌+◌, ◌-◌, ◌*◌, ◌/◌, ◌%◌, ◌^◌, ◌≤◌, ◌<◌, ◌≡◌, inl, inr, arith, ltb, ◌==◌, Bool, false, xor,
  Bool-cases, pow-add, pow-pos, ltb→lt,
}
use gardal.Float.Round.{excess, round_up, nearest_at, nearest}
use gardal.Float.Value.{
  F64, nan, inf, fin, one, limit, round, of_int, neg, add_fin, add, sub, mul, div, IsRep, IsF64,
  min, is_nan, lt, max,
}
use gardal.Float.Digits.{lt-excess, mod-excess}
use native.Mathlib.Nat.{
  div-lt_iff_lt-mul, div-div-eq-div-mul, div-le_self, lt_of_le_of_lt, mul-le-mul, le_of_lt,
  zero-mod,
}

pub round_up-le : (k r u : ℕ) → round_up k r u ≤ 1
unfolding round_up
round_up-le k r u = ground arith

pub significand-lt : (n d s : ℕ) → n / d < 2 ^ (53 + s) → n / (d * 2 ^ s) < 2 ^ 53
significand-lt n d s h =
    rw (← div-div-eq-div-mul n d (2 ^ s))
      ((div-lt_iff_lt-mul (pow-pos s)).1 (rw (← pow-add 53 s) h))

pub mod-nearest : (n d : ℕ) → n / d < 2 ^ (2 ^ 13) → nearest n d % 2 ^ excess (nearest n d) ≡ 0
unfolding nearest nearest_at
mod-nearest n d h =
    let s = excess (n / d) in
    let k = n / (d * 2 ^ s) in
    mod-excess (k + round_up k (n % (d * 2 ^ s)) (d * 2 ^ s)) s (
      omega (
        arith,
        significand-lt n d s (lt-excess (n / d) h),
        round_up-le k (n % (d * 2 ^ s)) (d * 2 ^ s),
      ))

pub round-IsF64 : (s : Bool) (n d : ℕ) → n / d < 2 ^ (2 ^ 13) → IsF64 (round s n d)
unfolding round
round-IsF64 s n d h = elim (Bool-cases (ltb (nearest n d) limit)) [
  | inl p ↦ rw p (mod-nearest n d h, ltb→lt _ _ p)
  | inr p ↦ rw p tt
]

product-lt : (a b : ℕ) → a < 2 ^ 2098 → b < 2 ^ 2098 → a * b < 2 ^ (2 ^ 13)
product-lt a b p q =
    lt_of_le_of_lt (mul-le-mul {n₂ = 2 ^ 2098} {m₂ = 2 ^ 2098} (le_of_lt p) (le_of_lt q))
      (omega arith)

quotient-small : (n d b : ℕ) → n < b → n / d < b
quotient-small n d b h = lt_of_le_of_lt (div-le_self n d) h

limit_unfold : {a : ℕ} → a < limit → a < 2 ^ 2098
unfolding limit
limit_unfold h = h

pub zero-IsRep : IsRep 0
unfolding limit
zero-IsRep = (zero-mod _, omega arith)

pub of_int-IsF64 : (n : ℕ) → n < 2 ^ 1024 → IsF64 (of_int n)
unfolding of_int one
of_int-IsF64 n h =
    round-IsF64 false (n * 2 ^ 1074) 1
      (quotient-small _ 1 _ (product-lt n (2 ^ 1074) (omega arith) (omega arith)))

pub neg-IsF64 : (x : F64) → IsF64 x → IsF64 (neg x)
unfolding neg
neg-IsF64 nan h = tt
neg-IsF64 (inf s) h = tt
neg-IsF64 (fin s m) h = h

round_sum-IsF64 : (s : Bool) (n : ℕ) → n < 2 ^ 2099 → IsF64 (round s n 1)
round_sum-IsF64 s n h = round-IsF64 s n 1 (quotient-small n 1 _ (omega arith))

add_fin-IsF64 :
    (s : Bool) (a : ℕ) (t : Bool) (b : ℕ) → a < 2 ^ 2098 → b < 2 ^ 2098 → IsF64 (add_fin s a t b)
unfolding add_fin
add_fin-IsF64 s a t b p q = elim (Bool-cases (xor s t)) [
  | inr same ↦ rw same (round_sum-IsF64 s (a + b) (omega arith))
  | inl apart ↦ rw apart (elim (Bool-cases (ltb b a)) [
    | inl more ↦ rw more (round_sum-IsF64 s (a - b) (omega arith))
    | inr less ↦ rw less (elim (Bool-cases (ltb a b)) [
      | inl u ↦ rw u (round_sum-IsF64 t (b - a) (omega arith))
      | inr e ↦ rw e zero-IsRep
    ])
  ])
]

pub add-IsF64 : (x y : F64) → IsF64 x → IsF64 y → IsF64 (add x y)
unfolding add
add-IsF64 (fin s a) (fin t b) p q = add_fin-IsF64 s a t b (limit_unfold p.1) (limit_unfold q.1)
add-IsF64 nan y p q = tt
add-IsF64 (inf s) nan p q = tt
add-IsF64 (inf s) (inf t) p q = elim (Bool-cases (xor s t)) [ inl e ↦ rw e tt | inr e ↦ rw e tt ]
add-IsF64 (inf s) (fin t b) p q = tt
add-IsF64 (fin s a) nan p q = tt
add-IsF64 (fin s a) (inf t) p q = tt

pub sub-IsF64 : (x y : F64) → IsF64 x → IsF64 y → IsF64 (sub x y)
unfolding sub
sub-IsF64 x y p q = add-IsF64 x (neg y) p (neg-IsF64 y q)

pub mul-IsF64 : (x y : F64) → IsF64 x → IsF64 y → IsF64 (mul x y)
unfolding mul
mul-IsF64 (fin s a) (fin t b) p q =
    round-IsF64 (xor s t) (a * b) one
      (quotient-small _ one _ (product-lt a b (limit_unfold p.1) (limit_unfold q.1)))
mul-IsF64 nan y p q = tt
mul-IsF64 (inf s) nan p q = tt
mul-IsF64 (inf s) (inf t) p q = tt
mul-IsF64 (inf s) (fin t b) p q = elim (Bool-cases (b == 0)) [ inl e ↦ rw e tt | inr e ↦ rw e tt ]
mul-IsF64 (fin s a) nan p q = tt
mul-IsF64 (fin s a) (inf t) p q = elim (Bool-cases (a == 0)) [ inl e ↦ rw e tt | inr e ↦ rw e tt ]

div_fin-IsF64 : (s : Bool) (a b : ℕ) → a < 2 ^ 2098 → IsF64 (round s (a * one) b)
unfolding one
div_fin-IsF64 s a b p =
    round-IsF64 s (a * 2 ^ 1074) b (quotient-small _ b _ (product-lt a (2 ^ 1074) p (omega arith)))

pub div-IsF64 : (x y : F64) → IsF64 x → IsF64 y → IsF64 (div x y)
unfolding div
div-IsF64 (fin s a) (fin t b) p q = elim (Bool-cases (b == 0)) [
  | inl z ↦ rw z (elim (Bool-cases (a == 0)) [ inl e ↦ rw e tt | inr e ↦ rw e tt ])
  | inr z ↦ rw z (div_fin-IsF64 (xor s t) a b (limit_unfold p.1))
]
div-IsF64 nan y p q = tt
div-IsF64 (inf s) nan p q = tt
div-IsF64 (inf s) (inf t) p q = tt
div-IsF64 (inf s) (fin t b) p q = tt
div-IsF64 (fin s a) nan p q = tt
div-IsF64 (fin s a) (inf t) p q = zero-IsRep

pub min-IsF64 : (x y : F64) → IsF64 x → IsF64 y → IsF64 (min x y)
unfolding min
min-IsF64 x y p q = elim (Bool-cases (is_nan x)) [
  | inl e ↦ rw e q
  | inr e ↦ rw e (elim (Bool-cases (lt y x)) [ inl l ↦ rw l q | inr l ↦ rw l p ])
]

pub max-IsF64 : (x y : F64) → IsF64 x → IsF64 y → IsF64 (max x y)
unfolding max
max-IsF64 x y p q = elim (Bool-cases (is_nan x)) [
  | inl e ↦ rw e q
  | inr e ↦ rw e (elim (Bool-cases (lt x y)) [ inl l ↦ rw l q | inr l ↦ rw l p ])
]
