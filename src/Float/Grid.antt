-- ===== src/Float/Grid.antt =====
-- Whole multiples of a power of two: where differences, and products and quotients by a power of two,
-- are not rounded.
use gardal.Prelude.{
  ℕ, ◌+◌, ◌-◌, ◌*◌, ◌/◌, ◌%◌, ◌^◌, ◌≤◌, ◌<◌, ◌≡◌, refl, sym, ap, ◌∙◌, arith, Bool, true, false, xor,
  pow-add, pow-pos, pow_mono, lt→ltb, le→ltb, ltb,
}
use Prim.Native.Nat.{min as min_ℕ}
use gardal.Float.Round.{excess, nearest}
use gardal.Float.Value.{
  F64, fin, one, limit, round, neg, add_fin, add, sub, mul, div, zero_f64, lt, lt_fin, min, is_nan,
  IsRep,
}
use gardal.Float.Digits.{mod-excess}
use gardal.Float.Exact.{nearest_at-exact, round-exact, div_fin, sub_self}
use native.Mathlib.Decide.{dec_lt}
use native.Mathlib.Nat.{
  add-mul, sub_self as sub_self_ℕ, mul-sub, mul-pos, mul-lt-mul_of_pos_right, zero-mul,
  div-add-mod', mul-mod_left, mul-div_cancel, mul_comm, mul_assoc, mul-le-mul_right, lt_of_le_of_lt,
}

-- `a` units of 2^e, of the smallest subnormal.
abbrev pub on_grid : ℕ → ℕ → F64
on_grid e a = fin false (a * 2 ^ e)

pub grid-IsRep : (e a : ℕ) → e ≤ 2044 → a ≤ 2 ^ 53 → IsRep (a * 2 ^ e)
unfolding limit
grid-IsRep e a small h = (
  mod-excess a e h,
  lt_of_le_of_lt (mul-le-mul_right (2 ^ e) h) (
      rw (← pow-add 53 e)
        (lt_of_le_of_lt (pow_mono (53 + e) 2097 (omega (arith, small))) (omega arith))),
)

-- A quotient that is representable is not rounded.
nearest-scaled : (n d : ℕ) → 0 < d → IsRep n → nearest (n * d) d ≡ n
unfolding nearest
nearest-scaled n d pos fits =
    let s = excess n in
    let u = d * 2 ^ s in
    let k = n / 2 ^ s in
    let u_pos : 0 < u = mul-pos pos (pow-pos s) in
    let whole : n ≡ k * 2 ^ s = omega (arith, div-add-mod' n (2 ^ s), fits.0) in
    let split : n * d ≡ k * u =
      ap (λ t. t * d) whole ∙ mul_assoc k (2 ^ s) d ∙ ap (λ t. k * t) (mul_comm (2 ^ s) d) in
    let divides : n * d % u ≡ 0 = ap (λ t. t % u) split ∙ mul-mod_left k u in
    rw (mul-div_cancel n pos) (
      nearest_at-exact s (n * d) d pos divides
      ∙ ap (λ t. t / u * 2 ^ s) split
      ∙ ap (λ t. t * 2 ^ s) (mul-div_cancel k u_pos)
      ∙ sym whole)

pub round-scaled : (s : Bool) (n d : ℕ) → 0 < d → IsRep n → round s (n * d) d ≡ fin s n
unfolding round
round-scaled s n d pos fits = rw (nearest-scaled n d pos fits, lt→ltb n limit fits.1)

module _ (e : ℕ) (small : e ≤ 2044) where
  difference : (a b : ℕ) → a * 2 ^ e - b * 2 ^ e ≡ (a - b) * 2 ^ e
  difference a b =
      rw (mul_comm a (2 ^ e), mul_comm b (2 ^ e), mul_comm (a - b) (2 ^ e))
        (sym (mul-sub (2 ^ e) a b))

  scaled : (a b : ℕ) → a < b → a * 2 ^ e < b * 2 ^ e
  scaled a b h = mul-lt-mul_of_pos_right h (pow-pos e)

  above_case : (a b : ℕ) → b < a → a ≤ 2 ^ 53 → sub (on_grid e a) (on_grid e b) ≡ on_grid e (a - b)
  unfolding sub add neg add_fin
  above_case a b h top =
      rw (lt→ltb (b * 2 ^ e) (a * 2 ^ e) (scaled b a h), difference a b)
        (round-exact false ((a - b) * 2 ^ e) (grid-IsRep e (a - b) small (omega (arith, top))))

  pub sub-grid :
      (a b : ℕ) → b ≤ a → a ≤ 2 ^ 53 → sub (on_grid e a) (on_grid e b) ≡ on_grid e (a - b)
  sub-grid a b h top = elim (dec_lt b a) [
    | yes above ↦ above_case a b above top
    | no level ↦
        let same : a ≡ b = omega (arith, h) in
        let none_left : (a - b) * 2 ^ e ≡ 0 = rw (same, sub_self_ℕ b) (zero-mul (2 ^ e)) in
        rw none_left (rw same (sub_self false (b * 2 ^ e)))
  ]

  pub sub-grid_below :
      (a b : ℕ) → a < b → b ≤ 2 ^ 53 → sub (on_grid e a) (on_grid e b) ≡ fin true ((b - a) * 2 ^ e)
  unfolding sub add neg add_fin
  sub-grid_below a b h top =
      rw
        (
          le→ltb (b * 2 ^ e) (a * 2 ^ e) (mul-le-mul_right (2 ^ e) (omega (arith, h))),
          lt→ltb (a * 2 ^ e) (b * 2 ^ e) (scaled a b h),
          difference b a,
        )
        (round-exact true ((b - a) * 2 ^ e) (grid-IsRep e (b - a) small (omega (arith, top))))

  module _ (a b : ℕ) where
    -- A sum of numbers of one sign, and of opposite signs.
    pub add-grid : a + b ≤ 2 ^ 53 → add (on_grid e a) (on_grid e b) ≡ on_grid e (a + b)
    unfolding add add_fin
    add-grid top =
        rw (← add-mul a b (2 ^ e))
          (round-exact false ((a + b) * 2 ^ e) (grid-IsRep e (a + b) small top))

    pub add-grid_above :
        a < b → b ≤ 2 ^ 53 → add (fin true (a * 2 ^ e)) (on_grid e b) ≡ on_grid e (b - a)
    unfolding add add_fin
    add-grid_above h top =
        rw
          (
            le→ltb (b * 2 ^ e) (a * 2 ^ e) (mul-le-mul_right (2 ^ e) (omega (arith, h))),
            lt→ltb (a * 2 ^ e) (b * 2 ^ e) (scaled a b h),
            difference b a,
          )
          (round-exact false ((b - a) * 2 ^ e) (grid-IsRep e (b - a) small (omega (arith, top))))

    pub add-grid_below :
        b < a → a ≤ 2 ^ 53 → add (fin true (a * 2 ^ e)) (on_grid e b) ≡ fin true ((a - b) * 2 ^ e)
    unfolding add add_fin
    add-grid_below h top =
        rw (lt→ltb (b * 2 ^ e) (a * 2 ^ e) (scaled b a h), difference a b)
          (round-exact true ((a - b) * 2 ^ e) (grid-IsRep e (a - b) small (omega (arith, top))))

  -- Opposite numbers have the sum +0.
  pub add-grid_level : (a : ℕ) → add (fin true (a * 2 ^ e)) (on_grid e a) ≡ zero_f64
  unfolding add add_fin
  add-grid_level a = ground arith

  -- The order on the grid is that of the numbers of units.
  pub lt-grid : (a b : ℕ) → lt (on_grid e a) (on_grid e b) ≡ ltb a b
  unfolding lt lt_fin
  lt-grid a b = elim (dec_lt a b) [
    | yes h ↦ lt→ltb (a * 2 ^ e) (b * 2 ^ e) (scaled a b h) ∙ sym (lt→ltb a b h)
    | no h ↦
        le→ltb (a * 2 ^ e) (b * 2 ^ e) (mul-le-mul_right (2 ^ e) (omega (arith, h)))
        ∙ sym (le→ltb a b (omega (arith, h)))
  ]

  pub min-grid : (a b : ℕ) → min (on_grid e a) (on_grid e b) ≡ on_grid e (min_ℕ a b)
  unfolding min is_nan
  min-grid a b = rw (lt-grid b a) (ground arith)

xor-false : (s : Bool) → xor s false ≡ s
xor-false true = refl
xor-false false = refl

-- A power of two as a factor or a divisor moves the unit of the grid.
module _ (s : Bool) (a e f r : ℕ) (balance : e + r ≡ f + 1074) (top : a ≤ 2 ^ 53) where
  scales : a * 2 ^ e * 2 ^ r ≡ a * 2 ^ f * 2 ^ 1074
  scales =
      rw (mul_assoc a (2 ^ e) (2 ^ r), ← pow-add e r, balance, pow-add f 1074)
        (sym (mul_assoc a (2 ^ f) (2 ^ 1074)))

  pub mul-grid : f ≤ 2044 → mul (fin s (a * 2 ^ e)) (fin false (2 ^ r)) ≡ fin s (a * 2 ^ f)
  unfolding mul one
  mul-grid small =
      rw (scales, xor-false s)
        (round-scaled s (a * 2 ^ f) (2 ^ 1074) (pow-pos 1074) (grid-IsRep f a small top))

  pub div-grid : e ≤ 2044 → div (fin s (a * 2 ^ f)) (fin false (2 ^ r)) ≡ fin s (a * 2 ^ e)
  unfolding one
  div-grid small =
      div_fin s (a * 2 ^ f) false (2 ^ r) (pow-pos r)
      ∙ rw (xor-false s) (
          rw (sym scales)
            (round-scaled s (a * 2 ^ e) (2 ^ r) (pow-pos r) (grid-IsRep e a small top)))
