-- ===== src/Ideal.antt =====
-- What a token bucket promises, without its arithmetic: time and tokens are whole numbers of units, one
-- unit of tokens comes in each unit of time, and the bucket holds at most its burst.
pub mod Session
pub mod Balance
pub mod Timetable
pub mod Ledger
use gardal.Prelude.{ℕ, ◌+◌, ◌-◌, leb, ltb, Option, none, some, if◌then◌else◌}
use Prim.Native.Nat.{max}

-- The zero time of a bucket that is full at most: it is not more than the burst behind.
unfoldable pub caught_up : ℕ → ℕ → ℕ → ℕ
caught_up burst now zero_time = max zero_time (now - burst)

-- Tokens are taken where the zero time does not pass the present by it.
unfoldable pub take : ℕ → ℕ → ℕ → ℕ → Option ℕ
take burst n now zero_time =
    let z = caught_up burst now zero_time + n in if leb z now then some z else none

-- Tokens are lent up to a burst at a time: the zero time, and how long it lies ahead of the present.
unfoldable pub lend : ℕ → ℕ → ℕ → ℕ → Option (ℕ × ℕ)
lend burst n now zero_time =
    let z = caught_up burst now zero_time + n in if ltb burst n then none else some (z, z - now)

-- The tokens that are there.
unfoldable pub level : ℕ → ℕ → ℕ → ℕ
level burst now zero_time = now - caught_up burst now zero_time
