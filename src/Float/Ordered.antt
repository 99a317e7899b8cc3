-- ===== src/Float/Ordered.antt =====
-- Rounding keeps the order of signed values, and so do differences and products.
use gardal.Prelude.{
  ℕ, xor, ◌+◌, ◌-◌, ◌*◌, ◌^◌, ◌≤◌, ◌<◌, ◌≡◌, refl, arith, true, false, Bool, ltb, if◌then◌else◌,
  pow_mono,
}
use native.Mathlib.Nat.{
  div-one, lt_of_le_of_lt, lt_of_lt_of_le, le_of_lt as below_le, div-le_self, mul-le-mul,
  mul-le-mul_right,
}
use gardal.Float.Value.{
  F64, nan, inf, fin, one, limit, round, zero_f64, neg, add_fin, add, sub, mul, lt_fin, lt, eq, le,
  min, IsF64,
}
use gardal.Float.Exact.{round-zero, one-pos}
use gardal.Float.Monotone.{IsMeasured, nearest_mono}
use gardal.Float.Order.{◌≼◌, IsNumber, IsNumber-of_le, le_refl, le_total, le_of_lt, le_trans}

module _ (n m d : ℕ) (pos : 0 < d) (h : n ≤ m) (size : IsMeasured m d) where
  pub round-le : round false n d ≼ round false m d
  unfolding round le lt eq lt_fin
  round-le = ground (arith, nearest_mono n m d pos size h)

  round-ge : round true m d ≼ round true n d
  unfolding round le lt eq lt_fin
  round-ge = ground (arith, nearest_mono n m d pos size h)

round-le_opposite : (n m d : ℕ) → round true n d ≼ round false m d
unfolding round le lt eq lt_fin
round-le_opposite n m d = ground arith

zero-le_round : (n d : ℕ) → zero_f64 ≼ round false n d
unfolding round le lt eq lt_fin
zero-le_round n d = ground arith

round-le_zero : (n d : ℕ) → round true n d ≼ zero_f64
unfolding round le lt eq lt_fin
round-le_zero n d = ground arith

inf-le_round : (s : Bool) (n d : ℕ) → inf true ≼ round s n d
unfolding round le lt eq lt_fin
inf-le_round s n d = ground arith

round-le_inf : (s : Bool) (n d : ℕ) → round s n d ≼ inf false
unfolding round le lt eq lt_fin
round-le_inf s n d = ground arith

-- a - c, rounded.
abbrev cut : ℕ → ℕ → F64
cut a c =
    if ltb c a then round false (a - c) 1 else if ltb a c then round true (c - a) 1 else zero_f64

pub measured : (n m : ℕ) → n ≤ m → m < 2 ^ 2100 → IsMeasured n 1
measured n m h q =
    rw (div-one n) (lt_of_le_of_lt h (lt_of_lt_of_le q (pow_mono 2100 (2 ^ 13) (omega arith))))

zero-le_zero : zero_f64 ≼ zero_f64
unfolding le lt eq lt_fin
zero-le_zero = refl

cut_mono : (a b c : ℕ) → a ≤ b → b < 2 ^ 2100 → c < 2 ^ 2100 → cut a c ≼ cut b c
cut_mono a b c h q r =
    let above : c < a → round false (a - c) 1 ≼ round false (b - c) 1 = λ k.
      round-le (a - c) (b - c) 1 (omega arith) (omega (arith, k, h))
        (measured (b - c) b (omega arith) q) in
    let below : round true (c - a) 1 ≼ round true (c - b) 1 =
      round-ge (c - b) (c - a) 1 (omega arith) (omega (arith, h))
        (measured (c - a) c (omega arith) r) in
    ground (
      arith,
      above,
      below,
      round-le_opposite (c - a) (b - c) 1,
      zero-le_round (b - c) 1,
      round-le_zero (c - a) 1,
      zero-le_zero,
    )

pub sub_mono :
    (a b : ℕ) (s : Bool) (c : ℕ)
    → a ≤ b
    → b < limit
    → c < limit
    → sub (fin false a) (fin s c) ≼ sub (fin false b) (fin s c)
unfolding sub add neg add_fin limit
sub_mono a b true c h q r =
    round-le (a + c) (b + c) 1 (omega arith) (omega (arith, h))
      (measured (b + c) (b + c) (omega arith) (omega (arith, q, r)))
sub_mono a b false c h q r = cut_mono a b c h (omega (arith, q)) (omega (arith, r))

product_size : (a r : ℕ) → a < limit → r < limit → IsMeasured (a * r) one
unfolding limit
product_size a r h q =
    lt_of_le_of_lt (div-le_self (a * r) one)
      (lt_of_le_of_lt (mul-le-mul (below_le h) (below_le q)) (omega arith))

module _ (r : ℕ) (pos : 0 < r) (size : r < limit) where
  pub mul_mono : (x y : F64) → IsF64 x → IsF64 y → x ≼ y → mul x (fin false r) ≼ mul y (fin false r)
  unfolding mul le lt eq lt_fin
  mul_mono nan y f g h = ground arith
  mul_mono (inf s) nan f g h = ground (arith, pos)
  mul_mono (inf s) (inf t) f g h = ground (arith, pos)
  mul_mono (inf s) (fin t b) f g h = ground (arith, pos, inf-le_round (xor t false) (b * r) one)
  mul_mono (fin s a) nan f g h = ground arith
  mul_mono (fin s a) (inf t) f g h = ground (arith, pos, round-le_inf (xor s false) (a * r) one)
  mul_mono (fin true a) (fin true b) f g h =
      round-ge (b * r) (a * r) one one-pos (mul-le-mul_right r (ground arith))
        (product_size a r f.1 size)
  mul_mono (fin true a) (fin false b) f g h = round-le_opposite (a * r) (b * r) one
  mul_mono (fin false a) (fin false b) f g h =
      round-le (a * r) (b * r) one one-pos (mul-le-mul_right r (ground arith))
        (product_size b r g.1 size)
  mul_mono (fin false a) (fin true b) f g h =
      let none_left : a ≡ 0 = ground arith in
      let none_right : b ≡ 0 = ground arith in
      let left : a * r ≡ 0 = rw none_left (omega arith) in
      let right : b * r ≡ 0 = rw none_right (omega arith) in
      rw (left, right, round-zero false one one-pos, round-zero true one one-pos) refl

pub min_mono : (x y z : F64) → IsNumber z → x ≼ y → min x z ≼ min y z
unfolding min
min_mono x y z k h =
    let (number_x, number_y) = IsNumber-of_le x y h in
    ground (
      arith,
      h,
      number_x,
      number_y,
      k,
      le_refl z k,
      le_total z x k number_x,
      le_of_lt z x,
      le_trans z x y,
    )
