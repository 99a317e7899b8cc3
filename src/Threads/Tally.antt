-- ===== src/Threads/Tally.antt =====
-- How many of the first `n` threads a test holds for.
use gardal.Prelude.{
  total, total_mono, total-change, ap, ℕ, zero, suc, ◌+◌, ◌≤◌, ◌<◌, ◌≡◌, arith, Bool, false, ◌==◌,
  if◌then◌else◌,
}

abbrev pub bit : Bool → ℕ
bit b = if b then 1 else 0

abbrev pub tally : ℕ → (ℕ → Bool) → ℕ
tally n p = total n (λ j. bit (p j))

-- 1 + 2 + … + n
abbrev pub sum_to : ℕ → ℕ
sum_to zero = 0
sum_to (suc n) = suc n + sum_to n

pub tally-le : (n : ℕ) (p : ℕ → Bool) → tally n p ≤ n
tally-le zero p = omega arith
tally-le (suc n) p = ground (arith, tally-le n p)

-- A test that holds for no more threads.
pub tally_mono :
    (n : ℕ) (p q : ℕ → Bool) → ((j : ℕ) → bit (p j) ≤ bit (q j)) → tally n p ≤ tally n q
tally_mono n p q h = total_mono n (λ j. bit (p j)) (λ j. bit (q j)) h

-- A test that is changed at one thread only.
pub tally-change :
    (n i : ℕ) (p q : ℕ → Bool)
    → i < n
    → ((j : ℕ) → (j == i) ≡ false → q j ≡ p j)
    → tally n q + bit (p i) ≡ tally n p + bit (q i)
tally-change n i p q less h =
    total-change n i (λ j. bit (p j)) (λ j. bit (q j)) less (λ j apart. ap bit (h j apart))

pub sum_to_mono : (m n : ℕ) → m ≤ n → sum_to m ≤ sum_to n
sum_to_mono m zero h = ground arith
sum_to_mono zero (suc n) h = omega arith
sum_to_mono (suc m) (suc n) h = omega (arith, sum_to_mono m n (omega (arith, h)))
