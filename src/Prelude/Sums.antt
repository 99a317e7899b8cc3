-- ===== src/Prelude/Sums.antt =====
-- Sums over the first numbers.
use Prim.Native.Nat.{ℕ, zero, suc, ◌+◌, ◌≤◌, ◌<◌}
use mathlib.Core.Path.{◌≡◌, refl}
use mathlib.Core.Bool.{false}
use native.Mathlib.Omega.{arith}
use native.Mathlib.Decide.{dec_lt}
use gardal.Prelude.Tests.{◌==◌}

-- The sum of a function over the numbers below `n`.
abbrev pub total : ℕ → (ℕ → ℕ) → ℕ
total zero f = 0
total (suc n) f = f n + total n f

pub total_mono : (n : ℕ) (f h : ℕ → ℕ) → ((j : ℕ) → f j ≤ h j) → total n f ≤ total n h
total_mono zero f h all = omega arith
total_mono (suc n) f h all = omega (arith, all n, total_mono n f h all)

-- A function that is changed at one number only.
pub total-change :
    (n i : ℕ) (f h : ℕ → ℕ)
    → i < n
    → ((j : ℕ) → (j == i) ≡ false → h j ≡ f j)
    → total n h + f i ≡ total n f + h i
total-change zero i f h less same = absurd (omega arith)
total-change (suc n) i f h less same = elim (dec_lt i n) [
  | yes below ↦
      let top : h n ≡ f n = same n (ground (arith, below)) in
      rw top (omega (arith, total-change n i f h below same))
  | no last ↦
      let at_top : i ≡ n = omega (arith, less, last) in
      let others : total n h ≡ total n f =
        total-eq n f h (λ j small. same j (ground (arith, small, at_top))) in
      rw (at_top, others) (omega arith)
]
  where
    total-eq : (n : ℕ) (f h : ℕ → ℕ) → ((j : ℕ) → j < n → h j ≡ f j) → total n h ≡ total n f
    total-eq zero f h same = refl
    total-eq (suc n) f h same =
        rw (same n (omega arith))
          (omega (arith, total-eq n f h (λ j less. same j (omega (arith, less)))))
