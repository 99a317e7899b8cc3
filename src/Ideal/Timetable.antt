-- ===== src/Ideal/Timetable.antt =====
-- The abstract bucket of whole units: when the items of a list are delivered, each once it is paid for.
use gardal.Prelude.{ℕ, ◌+◌, ◌≤◌, ◌≡◌, refl, ap, arith, List, [], ◌∷◌}
use Prim.Native.Nat.{max}
use gardal.Ideal.{caught_up}

module _ {A : Type 0} (weight : A → ℕ) where
  -- An item waits for the zero time that its loan ends at, and then the next one is asked for.
  abbrev pub timetable : ℕ → ℕ → ℕ → List A → List (A × ℕ)
  timetable burst now z [] = []
  timetable burst now z (x ∷ xs) =
      let paid = caught_up burst now z + weight x in
      (x, max now paid) ∷ timetable burst (max now paid) paid xs

  -- Each item at the time by which it and those before it have come in one after another.
  abbrev pub running_totals : ℕ → List A → List (A × ℕ)
  running_totals z [] = []
  running_totals z (x ∷ xs) = (x, z + weight x) ∷ running_totals (z + weight x) xs

  -- An empty bucket, or one in debt, earns every item.
  pub timetable-eq-running_totals :
      (burst now z : ℕ) (xs : List A) → now ≤ z → timetable burst now z xs ≡ running_totals z xs
  unfolding caught_up
  timetable-eq-running_totals burst now z [] h = refl
  timetable-eq-running_totals burst now z (x ∷ xs) h =
      let paid : caught_up burst now z + weight x ≡ z + weight x = omega (arith, h) in
      let later : max now (z + weight x) ≡ z + weight x = omega (arith, h) in
      rw (paid, later)
        (ap (λ rest. (x, z + weight x) ∷ rest)
          (timetable-eq-running_totals burst (z + weight x) (z + weight x) xs (omega arith)))
