-- ===== src/Float/Bits.antt =====
-- `f64::to_bits` and `f64::from_bits`: sign, 11 bits of exponent, 52 bits of fraction.
use gardal.Prelude.{
  ℕ, zero, suc, ◌+◌, ◌-◌, ◌*◌, ◌/◌, ◌%◌, ◌^◌, ◌≤◌, ◌<◌, ◌≡◌, refl, ap, ◌∙◌, arith, leb, ◌==◌, Bool,
  true, false, pow-add, pow-pos, if◌then◌else◌,
}
use gardal.Float.Round.{excess}
use gardal.Float.Value.{F64, nan, inf, fin, limit, IsRep, IsF64}
use gardal.Float.Digits.{lt-excess, excess-le}
use native.Mathlib.Nat.{div-lt_iff_lt-mul, div-add-mod', div-one, mul-lt-mul_of_pos_right}
use native.Mathlib.Decide.{dec_lt}

sign_bit : Bool → ℕ
sign_bit s = if s then 2 ^ 63 else 0

unfoldable pub to_bits : F64 → ℕ
unfolding sign_bit
to_bits nan = 2047 * 2 ^ 52 + 2 ^ 51
to_bits (inf s) = sign_bit s + 2047 * 2 ^ 52
to_bits (fin s m) = sign_bit s + (excess m * 2 ^ 52 + m / 2 ^ excess m)

-- The magnitude with biased exponent `e` below 2047 and fraction `f`; `e` is 0 for subnormals.
decode : ℕ → ℕ → ℕ
decode zero f = f
decode (suc e) f = (2 ^ 52 + f) * 2 ^ e

from_fields : Bool → ℕ → ℕ → F64
from_fields s e f = if e == 2047 then (if f == 0 then inf s else nan) else fin s (decode e f)

unfoldable pub from_bits : ℕ → F64
unfolding decode from_fields
from_bits b = from_fields (leb (2 ^ 63) b) (b % 2 ^ 63 / 2 ^ 52) (b % 2 ^ 52)

-- The two fields of a finite magnitude, and how they are read back.
module _ (m : ℕ) (r : IsRep m) where
  abbrev significand : ℕ
  significand = m / 2 ^ excess m

  significand-lt : m < 2 ^ (2 ^ 13) → significand < 2 ^ 53
  significand-lt h =
      (div-lt_iff_lt-mul (pow-pos (excess m))).1 (rw (← pow-add 53 (excess m)) (lt-excess m h))

  whole : significand * 2 ^ excess m ≡ m
  whole = omega (arith, div-add-mod' m (2 ^ excess m), r.0)

  -- A value with digits to drop uses all 53 bits.
  significand-ge : 0 < excess m → 2 ^ 52 ≤ significand
  significand-ge h = elim (dec_lt significand (2 ^ 52)) [
    | no p ↦ omega arith
    | yes p ↦
        let e = excess m in
        let same : 2 ^ (53 + (e - 1)) ≡ 2 ^ (52 + e) = ap (λ t. 2 ^ t) (omega arith) in
        let low : m < 2 ^ (53 + (e - 1)) =
          omega (arith, same, whole, pow-add 52 e, mul-lt-mul_of_pos_right p (pow-pos e)) in
        absurd (omega (arith, excess-le m (e - 1) low))
  ]

  excess-small : m < 2 ^ 2098 → excess m ≤ 2045
  excess-small h = excess-le m 2045 h

limit_unfold : (m : ℕ) → m < limit → m < 2 ^ 2098
unfolding limit
limit_unfold m h = h

-- A bit pattern with its fields, and what is read from it.
abbrev pattern_of : Bool → ℕ → ℕ → ℕ
pattern_of s e f = sign_bit s + (e * 2 ^ 52 + f)

fields_of_pattern :
    (s : Bool) (e f : ℕ)
    → e < 2048
    → f < 2 ^ 52
    → let b = pattern_of s e f in
      (leb (2 ^ 63) b ≡ s) × (b % 2 ^ 63 / 2 ^ 52 ≡ e) × (b % 2 ^ 52 ≡ f)
unfolding sign_bit
fields_of_pattern true e f p q = (ground arith, omega arith, omega arith)
fields_of_pattern false e f p q = (ground arith, omega arith, omega arith)

from_bits-pattern :
    (s : Bool) (e f : ℕ) → e < 2048 → f < 2 ^ 52 → from_bits (pattern_of s e f) ≡ from_fields s e f
unfolding from_bits
from_bits-pattern s e f p q = let (a, b, c) = fields_of_pattern s e f p q in rw (a, b, c)

from_fields-fin : (s : Bool) (e f : ℕ) → e < 2047 → from_fields s e f ≡ fin s (decode e f)
unfolding from_fields
from_fields-fin s e f p = ground arith

from_bits-fin :
    (s : Bool) (e f : ℕ) → e < 2047 → f < 2 ^ 52 → from_bits (pattern_of s e f) ≡ fin s (decode e f)
from_bits-fin s e f p q = from_bits-pattern s e f (omega arith) q ∙ from_fields-fin s e f p

-- A subnormal magnitude is its own pattern; any other has the leading bit taken off.
magnitude-roundtrip :
    (m : ℕ) (r : IsRep m)
    → m < 2 ^ 2098
    → (e : ℕ) × (f : ℕ) × (e < 2047)
      × (f < 2 ^ 52)
      × (decode e f ≡ m)
      × (excess m * 2 ^ 52 + m / 2 ^ excess m ≡ e * 2 ^ 52 + f)
unfolding decode
magnitude-roundtrip m r h = elim (dec_lt (significand m r) (2 ^ 52)) [
  | yes p ↦
      let none_lost : excess m ≡ 0 = grind (arith, significand-ge m r) in
      let same : significand m r ≡ m = ap (λ t. m / 2 ^ t) none_lost ∙ div-one m in
      (0, m, omega arith, omega arith, refl, omega arith)
  | no p ↦
      let k = significand m r in
      let wide : k < 2 ^ 53 = significand-lt m r (omega arith) in
      let full : 2 ^ 52 + (k - 2 ^ 52) ≡ k = omega arith in
      (
        suc (excess m),
        k - 2 ^ 52,
        omega (arith, excess-small m r h),
        omega arith,
        rw full (whole m r),
        omega arith,
      )
]

from_bits-to_bits_fin : (s : Bool) (m : ℕ) → IsRep m → from_bits (to_bits (fin s m)) ≡ fin s m
unfolding to_bits
from_bits-to_bits_fin s m h =
    let (e, f, p, q, value, pattern) = magnitude-roundtrip m h (limit_unfold m h.1) in
    rw pattern (from_bits-fin s e f p q ∙ ap (fin s) value)

-- Reading back the bits of a value of the format gives the value.
pub from_bits-to_bits : (x : F64) → IsF64 x → from_bits (to_bits x) ≡ x
unfolding to_bits from_fields from_bits
from_bits-to_bits nan h = refl
from_bits-to_bits (inf true) h = refl
from_bits-to_bits (inf false) h = refl
from_bits-to_bits (fin s m) h = from_bits-to_bits_fin s m h
