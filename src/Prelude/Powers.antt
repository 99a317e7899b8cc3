-- ===== src/Prelude/Powers.antt =====
-- Powers of two with a variable exponent.
use Prim.Native.Nat.{ℕ, zero, suc, ◌+◌, ◌-◌, ◌*◌, ◌%◌, ◌^◌, ◌≤◌, ◌<◌}
use mathlib.Core.Path.{◌≡◌}
use native.Mathlib.Omega.{arith}
use native.Mathlib.Nat.{
  pow-suc, pow-zero, mul_assoc, mul-one, add-suc, add-zero, one-le-pow, pow-le-pow_right,
  mul-mod_left,
}

pub pow-add : (a b : ℕ) → 2 ^ (a + b) ≡ 2 ^ a * 2 ^ b
pow-add a zero = rw (add-zero, pow-zero, mul-one)
pow-add a (suc b) = rw (add-suc, pow-suc 2 (a + b), pow-suc 2 b, pow-add a b) (mul_assoc _ _ _)

pub pow-pos : (a : ℕ) → 0 < 2 ^ a
pow-pos a = one-le-pow a 2 (omega arith)

pub pow_mono : (a b : ℕ) → a ≤ b → 2 ^ a ≤ 2 ^ b
pow_mono a b h = pow-le-pow_right (omega arith) h

-- An order of powers is an order of exponents.
pub lt_of_pow : (a b : ℕ) → 2 ^ a < 2 ^ b → a < b
lt_of_pow a b h = grind (arith, λ (k : b ≤ a). pow_mono b a k)

-- A multiple of a power is a multiple of every smaller power.
pub mod-mul-pow : (j s t : ℕ) → t ≤ s → j * 2 ^ s % 2 ^ t ≡ 0
mod-mul-pow j s t h =
    let e : s ≡ (s - t) + t = omega arith in
    rw (e, pow-add (s - t) t, ← mul_assoc j (2 ^ (s - t)) (2 ^ t)) (mul-mod_left _ _)
