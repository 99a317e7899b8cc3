-- ===== src/Prelude/Lists.antt =====
-- The length of a list, as a native number.
use Prim.Native.Nat.{ℕ, suc, ◌≤◌}
use mathlib.Core.List.{List, [], ◌∷◌, ◌++◌}
use native.Mathlib.Omega.{arith}

abbrev pub length {ℓ} : {A : Type ℓ} → List A → ℕ
length [] = 0
length (x ∷ xs) = suc (length xs)

pub length_append_le {ℓ} : {A : Type ℓ} (xs ys : List A) → length ys ≤ length (xs ++ ys)
length_append_le [] ys = omega arith
length_append_le (x ∷ xs) ys = omega (arith, length_append_le xs ys)
