-- ===== src/Float/Value.antt =====
-- Rust's `f64`, the IEEE 754 binary64 format: values, arithmetic, comparisons and conversions.
-- `fin s m` is m * 2^-1074, negative if `s` is true; so there are two zeros. All NaNs are one value.
use gardal.Prelude.{
  ℕ, ◌+◌, ◌-◌, ◌*◌, ◌/◌, ◌%◌, ◌^◌, Bool, true, false, not, ◌&&◌, ◌||◌, ltb, xor, ◌==◌,
  if◌then◌else◌,
}
use Prim.Native.Nat.{◌<◌}
use mathlib.Core.Path.{◌≡◌}
use gardal.Float.Round.{bit_length_below, bit_length, excess, round_up, nearest_at, nearest}
use Prim.Native.Nat.{min as min_ℕ}

pub data F64 : Type 0 where
  nan : F64
  inf : Bool → F64
  fin : Bool → ℕ → F64

-- 1.0 in units of 2^-1074.
unfoldable pub one : ℕ
one = 2 ^ 1074

-- 2^1024, the first magnitude that is too large.
unfoldable pub limit : ℕ
limit = 2 ^ 2098

-- The rounded value of n / d, with overflow to infinity.
unfoldable pub round : Bool → ℕ → ℕ → F64
round s n d = let m = nearest n d in if ltb m limit then fin s m else inf s

-- `n as f64` for an integer `n`.
unfoldable pub of_int : ℕ → F64
of_int n = round false (n * one) 1

abbrev pub zero_f64 : F64
zero_f64 = fin false 0

unfoldable pub neg : F64 → F64
neg nan = nan
neg (inf s) = inf (not s)
neg (fin s m) = fin (not s) m

-- A sum of signed magnitudes; an exact zero from opposite signs is +0.
unfoldable pub add_fin : Bool → ℕ → Bool → ℕ → F64
add_fin s a t b =
    if xor s t
    then if ltb b a then round s (a - b) 1 else if ltb a b then round t (b - a) 1 else zero_f64
    else round s (a + b) 1

unfoldable pub add : F64 → F64 → F64
add nan y = nan
add (inf s) nan = nan
add (inf s) (inf t) = if xor s t then nan else inf s
add (inf s) (fin t b) = inf s
add (fin s a) nan = nan
add (fin s a) (inf t) = inf t
add (fin s a) (fin t b) = add_fin s a t b

unfoldable pub sub : F64 → F64 → F64
sub x y = add x (neg y)

unfoldable pub mul : F64 → F64 → F64
mul nan y = nan
mul (inf s) nan = nan
mul (inf s) (inf t) = inf (xor s t)
mul (inf s) (fin t b) = if b == 0 then nan else inf (xor s t)
mul (fin s a) nan = nan
mul (fin s a) (inf t) = if a == 0 then nan else inf (xor s t)
mul (fin s a) (fin t b) = round (xor s t) (a * b) one

unfoldable pub div : F64 → F64 → F64
div nan y = nan
div (inf s) nan = nan
div (inf s) (inf t) = nan
div (inf s) (fin t b) = inf (xor s t)
div (fin s a) nan = nan
div (fin s a) (inf t) = fin (xor s t) 0
div (fin s a) (fin t b) =
    if b == 0 then (if a == 0 then nan else inf (xor s t)) else round (xor s t) (a * one) b

unfoldable pub lt_fin : Bool → ℕ → Bool → ℕ → Bool
lt_fin false a false b = ltb a b
lt_fin false a true b = false
lt_fin true a false b = ltb 0 (a + b)
lt_fin true a true b = ltb b a

-- `x < y`
unfoldable pub lt : F64 → F64 → Bool
lt nan y = false
lt (inf s) nan = false
lt (inf s) (inf t) = s && not t
lt (inf s) (fin t b) = s
lt (fin s a) nan = false
lt (fin s a) (inf t) = not t
lt (fin s a) (fin t b) = lt_fin s a t b

-- `x == y`: a NaN equals nothing, and the two zeros are equal.
unfoldable pub eq : F64 → F64 → Bool
eq nan y = false
eq (inf s) nan = false
eq (inf s) (inf t) = not (xor s t)
eq (inf s) (fin t b) = false
eq (fin s a) nan = false
eq (fin s a) (inf t) = false
eq (fin s a) (fin t b) = if xor s t then a + b == 0 else a == b

-- `x <= y`
unfoldable pub le : F64 → F64 → Bool
le x y = lt x y || eq x y

unfoldable pub is_nan : F64 → Bool
is_nan nan = true
is_nan _ = false

-- `f64::min` and `f64::max`: a NaN argument is passed over. Of two equal arguments (the zeros) the
-- first is returned; Rust leaves that open.
unfoldable pub min : F64 → F64 → F64
min x y = if is_nan x then y else if lt y x then y else x

unfoldable pub max : F64 → F64 → F64
max x y = if is_nan x then y else if lt x y then y else x

-- `x as u64` (w = 64) and `x as u32`: towards zero, saturating, and 0 for NaN.
unfoldable pub as_uint : ℕ → F64 → ℕ
as_uint w nan = 0
as_uint w (inf s) = if s then 0 else 2 ^ w - 1
as_uint w (fin s m) = if s then 0 else min_ℕ (m / one) (2 ^ w - 1)

-- A value that the format can hold: 53 significant bits, below 2^1024.
abbrev pub IsRep : ℕ → Type 0
IsRep m = (m % 2 ^ excess m ≡ 0) × (m < limit)

abbrev pub IsF64 : F64 → Type 0
IsF64 (fin s m) = IsRep m
IsF64 _ = Unit

-- A test names this one definition on its `unfolding` line to run the arithmetic.
unfoldable pub running : Unit {0}
unfolding bit_length_below bit_length excess round_up nearest_at nearest one limit round of_int neg
    add_fin add sub mul div lt_fin lt eq le is_nan min max as_uint
running = tt
