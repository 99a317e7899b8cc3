-- ===== src/Tokens.antt =====
-- src/tokens.rs: `Tokens`, the bits of a number of consumed tokens, kept as a non-zero word.
pub mod RoundTrip
pub mod Tests
use gardal.Prelude.{ℕ, Option, none, some, if◌then◌else◌}
use gardal.Float.Value.{F64, zero_f64, eq, of_int, as_uint}
use gardal.Float.Bits.{to_bits, from_bits}

-- `Tokens(NonZero<u64>)`. That `bits` is not 0 is the caller's duty in `new_unchecked`.
pub record Tokens : Type 0 where
  pub bits : ℕ

unfoldable pub new_unchecked : F64 → Tokens
new_unchecked value = record { bits = to_bits value }

unfoldable pub new : ℕ → Tokens
new value = new_unchecked (of_int value)

unfoldable pub new_checked : F64 → Option Tokens
new_checked value = if eq value zero_f64 then none else some (new_unchecked value)

unfoldable pub as_u64 : Tokens → ℕ
as_u64 t = as_uint 64 (from_bits t.bits)

-- `f64::from(tokens)`
unfoldable pub to_f64 : Tokens → F64
to_f64 t = of_int (as_u64 t)
