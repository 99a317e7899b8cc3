-- ===== src/Limit/RoundTrip.antt =====
-- src/limit.rs: the getters and the constructors of a limit.
use gardal.Prelude.{ℕ, ◌≡◌, refl, arith, some, pos→==}
use gardal.Tokens.RoundTrip.{as_uint-of_int}
use gardal.RawBucket.Outcome.{IsNonZeroU32}
use gardal.Limit.{Limit, with_burst, burst, rate_per_second}

-- A burst set by `with_burst`, from 1 to 2^32 - 1, is the one that `burst` gives back, whatever it
-- was before, and the rate stays as it was.
pub burst-with_burst :
    (l : Limit) (n : ℕ)
    → IsNonZeroU32 n
    → (burst (with_burst l n) ≡ some n) × (rate_per_second (with_burst l n) ≡ rate_per_second l)
unfolding burst with_burst rate_per_second
burst-with_burst l n h = (rw (as_uint-of_int 32 n (omega (arith, h.1)) h.1, pos→== n h.0), refl)
