-- ===== src/Float/Order.antt =====
-- The comparisons order the numbers, and `min` and `max` choose by that order.
use gardal.Prelude.{◌≡◌, arith, true, false}
use gardal.Float.Value.{F64, nan, inf, fin, lt_fin, lt, eq, le, is_nan, min, max}

-- A finite value, the only kind that times, rates and token counts take.
abbrev pub IsFinite : F64 → Type 0
IsFinite (fin s m) = Unit
IsFinite _ = ⊥

infix 4 ◌≼◌ ◌≺◌
abbrev pub ◌≼◌ : F64 → F64 → Type 0
x ≼ y = le x y ≡ true

abbrev pub ◌≺◌ : F64 → F64 → Type 0
x ≺ y = lt x y ≡ true

abbrev pub IsNumber : F64 → Type 0
IsNumber x = is_nan x ≡ false

pub le_refl : (x : F64) → IsNumber x → x ≼ x
unfolding le lt eq lt_fin is_nan
le_refl nan h = ground arith
le_refl (inf true) h = ground arith
le_refl (inf false) h = ground arith
le_refl (fin true m) h = ground arith
le_refl (fin false m) h = ground arith

pub le_total : (x y : F64) → IsNumber x → IsNumber y → lt x y ≡ false → y ≼ x
unfolding le lt eq lt_fin is_nan
le_total nan y h k e = ground arith
le_total (inf s) nan h k e = ground arith
le_total (inf s) (inf t) h k e = ground arith
le_total (inf s) (fin t b) h k e = ground arith
le_total (fin s a) nan h k e = ground arith
le_total (fin s a) (inf t) h k e = ground arith
le_total (fin s a) (fin t b) h k e = ground arith

pub le_of_lt : (x y : F64) → x ≺ y → x ≼ y
unfolding le
le_of_lt x y h = ground arith

pub le_trans : (x y z : F64) → x ≼ y → y ≼ z → x ≼ z
unfolding le lt eq lt_fin
le_trans nan y z h k = ground arith
le_trans (inf s) y z h k = ground arith
le_trans (fin s a) nan z h k = ground arith
le_trans (fin s a) (inf t) z h k = ground arith
le_trans (fin s a) (fin t b) nan h k = ground arith
le_trans (fin s a) (fin t b) (inf u) h k = ground arith
le_trans (fin s a) (fin t b) (fin u c) h k = ground arith

pub not_lt_of_le : (x y : F64) → x ≼ y → lt y x ≡ false
unfolding le lt eq lt_fin
not_lt_of_le nan y h = ground arith
not_lt_of_le (inf s) y h = ground arith
not_lt_of_le (fin s a) nan h = ground arith
not_lt_of_le (fin s a) (inf t) h = ground arith
not_lt_of_le (fin s a) (fin t b) h = ground arith

pub IsNumber-of_le : (x y : F64) → x ≼ y → IsNumber x × IsNumber y
unfolding le lt eq is_nan
IsNumber-of_le nan y h = ground arith
IsNumber-of_le (inf s) nan h = ground arith
IsNumber-of_le (inf s) (inf t) h = ground arith
IsNumber-of_le (inf s) (fin t b) h = ground arith
IsNumber-of_le (fin s a) nan h = ground arith
IsNumber-of_le (fin s a) (inf t) h = ground arith
IsNumber-of_le (fin s a) (fin t b) h = ground arith

-- `min` is at most its second argument, also where the first is NaN.
pub min-le_right : (x y : F64) → IsNumber y → min x y ≼ y
unfolding min
min-le_right x y h = ground (arith, le_refl y h, le_total y x h)

pub le-max_right : (x y : F64) → IsNumber y → y ≼ max x y
unfolding max
le-max_right x y h = ground (arith, le_refl y h, le_total x y)
