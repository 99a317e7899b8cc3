-- ===== src/Float/Tests.antt =====
-- Runs of the arithmetic at concrete values.
use gardal.Prelude.{◌≡◌, refl, ◌^◌, true, false, ◌+◌}
use gardal.Float.Value.{inf, of_int, add, sub, mul, div, lt, running}

-- 1/3 * 3 rounds to 1; 0.1 + 0.2 is not 0.3.
third : mul (div (of_int 1) (of_int 3)) (of_int 3) ≡ of_int 1
unfolding running
third = refl

tenth :
    lt (div (of_int 3) (of_int 10)) (add (div (of_int 1) (of_int 10)) (div (of_int 2) (of_int 10)))
    ≡ true
unfolding running
tenth = refl

big : sub (of_int (2 ^ 53 + 1)) (of_int (2 ^ 53)) ≡ of_int 0
unfolding running
big = refl

overflow : mul (of_int (2 ^ 1023)) (of_int 2) ≡ inf false
unfolding running
overflow = refl
