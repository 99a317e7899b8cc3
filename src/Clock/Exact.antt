-- ===== src/Clock/Exact.antt =====
-- src/clock.rs: a time kept as bits, and read back.
use gardal.Prelude.{◌≡◌, Option, some, none, true, false, inl, inr, Bool-cases}
use gardal.Float.Value.{F64, zero_f64, le, IsF64}
use gardal.Float.Bits.{from_bits-to_bits}
use gardal.Clock.Nanos.{Nanos, new_checked, as_secs_f64, from_secs_f64_unchecked}

-- Nothing is kept of `secs`, which is at most 0, or `secs` is, and can be read back.
abbrev pub Keeps : F64 → Option Nanos → Type 0
Keeps secs none = le secs zero_f64 ≡ true
Keeps secs (some t) = (as_secs_f64 t ≡ secs) × (le secs zero_f64 ≡ false)

-- Of a double that is at most 0 `new_checked` keeps nothing. Any other one, infinity and NaN too, it keeps:
-- `as_secs_f64` gives it back.
pub new_checked_lem : (secs : F64) → IsF64 secs → Keeps secs (new_checked secs)
unfolding new_checked as_secs_f64 from_secs_f64_unchecked
new_checked_lem secs h = elim (Bool-cases (le secs zero_f64)) [
  | inl e ↦ rw e e
  | inr e ↦ rw e (from_bits-to_bits secs h, e)
]
