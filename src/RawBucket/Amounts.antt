-- ===== src/RawBucket/Amounts.antt =====
-- src/raw_bucket.rs: how much the callbacks take, for a positive request and a finite balance.
use gardal.Prelude.{ℕ, ◌<◌, ◌≡◌, refl, Bool, true, false, arith}
use gardal.Float.Value.{fin, zero_f64, lt_fin, lt, eq, is_nan, min, max}
use gardal.RawBucket.{up_to}

pub ne-zero_pos : (m : ℕ) → 0 < m → eq (fin false m) zero_f64 ≡ false
unfolding eq
ne-zero_pos m pos = ground arith

pub zero-lt_pos : (m : ℕ) → 0 < m → lt zero_f64 (fin false m) ≡ true
unfolding lt lt_fin
zero-lt_pos m pos = ground arith

pub not-zero-lt-zero : lt zero_f64 zero_f64 ≡ false
unfolding lt lt_fin
not-zero-lt-zero = refl

pub below_of_lt : (a m : ℕ) → lt (fin false a) (fin false m) ≡ true → a < m
unfolding lt lt_fin
below_of_lt a m h = ground arith

pub negative-not-pos : (a : ℕ) → lt zero_f64 (fin true a) ≡ false
unfolding lt lt_fin
negative-not-pos a = refl

module _ (m : ℕ) (pos : 0 < m) (s : Bool) (a : ℕ) where
  pub up_to_none :
      lt zero_f64 (fin s a) ≡ false → eq (up_to (fin false m) (fin s a)) zero_f64 ≡ true
  unfolding up_to min max lt lt_fin eq is_nan
  up_to_none h = ground arith

  pub up_to_part :
      lt zero_f64 (fin s a) ≡ true
      → lt (fin s a) (fin false m) ≡ true
      → up_to (fin false m) (fin s a) ≡ fin s a
  unfolding up_to min max lt lt_fin is_nan
  up_to_part h k = ground arith

  pub up_to_all :
      lt zero_f64 (fin s a) ≡ true
      → lt (fin s a) (fin false m) ≡ false
      → up_to (fin false m) (fin s a) ≡ fin false m
  unfolding up_to min max lt lt_fin is_nan
  up_to_all h k = ground arith

  pub ne-zero_of_pos : lt zero_f64 (fin s a) ≡ true → eq (fin s a) zero_f64 ≡ false
  unfolding lt lt_fin eq
  ne-zero_of_pos h = ground arith
