-- ===== src/RawBucket/Exact.antt =====
-- src/raw_bucket.rs and src/storage.rs where no step rounds: the rate is a power of two, and the times
-- and the burst are whole numbers of units.
use gardal.Prelude.{
  ℕ, ◌+◌, ◌-◌, ◌*◌, ◌^◌, ◌%◌, ◌≤◌, ◌<◌, ◌≡◌, refl, sym, ap, ◌∙◌, arith, true, false, pow-add,
  pow-pos, pow_mono, lt→ltb, le→ltb,
}
use Prim.Native.Nat.{min as min_ℕ}
use gardal.Float.Value.{F64, fin, one, of_int, lt, lt_fin, min, is_nan, IsF64, limit as limit_f64}
use mathlib.Core.Path.{subst}
use gardal.Float.Round.{excess}
use gardal.Float.Digits.{mod-excess}
use gardal.Float.Exact.{of_int-exact}
use gardal.Float.Grid.{
  grid-IsRep, on_grid, sub-grid, sub-grid_below, lt-grid, min-grid, mul-grid, div-grid,
}
use gardal.Limit.{Limit}
use native.Mathlib.Nat.{mul_assoc, mul-pos, lt_of_le_of_lt, one-mul}
use native.Mathlib.Decide.{dec_lt}
use gardal.Ideal.{caught_up}
use gardal.Storage.Bucket.{balance_of, zero_time_new}

-- A unit of time is 2^time_exp and one of tokens 2^token_exp, in units of the format; at the rate
-- 2^rate_exp one unit of tokens comes in one unit of time. The burst is `cap` units of tokens.
pub record IsScale (limit : Limit) : Type 0 where
  pub rate_exp : ℕ
  pub time_exp : ℕ
  pub token_exp : ℕ
  pub cap : ℕ
  pub balance : time_exp + rate_exp ≡ token_exp + 1074
  pub time_small : time_exp ≤ 2044
  pub token_small : token_exp ≤ 1074
  pub rate_small : rate_exp ≤ 2097
  pub rate_eq : limit.rate ≡ fin false (2 ^ rate_exp)
  pub burst_eq : limit.burst ≡ on_grid token_exp cap
  pub cap_small : cap ≤ 2 ^ 53

pub min-negative : (a b : ℕ) → min (fin true a) (fin false b) ≡ fin true a
unfolding min is_nan lt lt_fin
min-negative a b = refl

negative-below : (a b : ℕ) → 0 < b → lt (fin true a) (fin false b) ≡ true
unfolding lt lt_fin
negative-below a b h = ground arith

module _ (limit : Limit) (g : IsScale limit) where
  -- The units of `n` tokens.
  abbrev pub units : ℕ → ℕ
  units n = n * 2 ^ (1074 - g.token_exp)

  abbrev pub time : ℕ → F64
  time = on_grid g.time_exp

  abbrev pub tokens : ℕ → F64
  tokens = on_grid g.token_exp

  pub time-IsF64 : (a : ℕ) → a ≤ 2 ^ 53 → IsF64 (time a)
  time-IsF64 a h = grid-IsRep g.time_exp a g.time_small h

  pub rate-IsF64 : IsF64 limit.rate
  unfolding limit_f64
  rate-IsF64 = rw g.rate_eq (
    subst (λ m. m % 2 ^ excess m ≡ 0) (one-mul (2 ^ g.rate_exp))
        (mod-excess 1 g.rate_exp (omega arith)),
    lt_of_le_of_lt (pow_mono g.rate_exp 2097 g.rate_small) (omega arith),
  )

  pub burst-IsF64 : IsF64 limit.burst
  burst-IsF64 =
      rw g.burst_eq (grid-IsRep g.token_exp g.cap (omega (arith, g.token_small)) g.cap_small)

  pub of_int-units : (n : ℕ) → n ≤ 2 ^ 53 → of_int n ≡ tokens (units n)
  unfolding one
  of_int-units n h =
      let parts : 1074 ≡ 1074 - g.token_exp + g.token_exp = omega (arith, g.token_small) in
      let power : 2 ^ 1074 ≡ 2 ^ (1074 - g.token_exp) * 2 ^ g.token_exp =
        ap (λ e. 2 ^ e) parts ∙ pow-add (1074 - g.token_exp) g.token_exp in
      let same : n * 2 ^ 1074 ≡ units n * 2 ^ g.token_exp =
        ap (λ t. n * t) power ∙ sym (mul_assoc n (2 ^ (1074 - g.token_exp)) (2 ^ g.token_exp)) in
      of_int-exact n h ∙ ap (λ m. fin false m) same

  -- The balance at `now`, not behind the zero time.
  pub balance-exact :
      (now z : ℕ)
      → z ≤ now
      → now ≤ 2 ^ 53
      → balance_of limit.rate limit.burst (time now) (time z) ≡ tokens (min_ℕ (now - z) g.cap)
  unfolding balance_of
  balance-exact now z h top =
      let elapsed = sub-grid g.time_exp g.time_small now z h top in
      let small : g.token_exp ≤ 2044 = omega (arith, g.token_small) in
      let earned =
        mul-grid false (now - z) g.time_exp g.token_exp g.rate_exp g.balance (omega (arith, top))
          small in
      rw (g.rate_eq, g.burst_eq, elapsed, earned) (min-grid g.token_exp small (now - z) g.cap)

  -- In debt the balance is negative.
  pub balance-debt :
      (now z : ℕ)
      → now < z
      → z ≤ 2 ^ 53
      → balance_of limit.rate limit.burst (time now) (time z)
        ≡ fin true ((z - now) * 2 ^ g.token_exp)
  unfolding balance_of
  balance-debt now z h top =
      let elapsed = sub-grid_below g.time_exp g.time_small now z h top in
      let small : g.token_exp ≤ 2044 = omega (arith, g.token_small) in
      let owed =
        mul-grid true (z - now) g.time_exp g.token_exp g.rate_exp g.balance (omega (arith, top))
          small in
      rw (g.rate_eq, g.burst_eq, elapsed, owed)
        (min-negative ((z - now) * 2 ^ g.token_exp) (g.cap * 2 ^ g.token_exp))

  pub zero_time_new-exact :
      (now v u : ℕ)
      → u ≤ v
      → v ≤ now
      → now ≤ 2 ^ 53
      → zero_time_new limit.rate (time now) (tokens v) (tokens u) ≡ time (now - (v - u))
  unfolding zero_time_new
  zero_time_new-exact now v u h k top =
      let small : g.token_exp ≤ 2044 = omega (arith, g.token_small) in
      let left = sub-grid g.token_exp small v u h (omega (arith, k, top)) in
      let back =
        div-grid false (v - u) g.time_exp g.token_exp g.rate_exp g.balance (omega (arith, k, top))
          g.time_small in
      rw (g.rate_eq, left, back)
        (sub-grid g.time_exp g.time_small now (v - u) (omega (arith, k)) top)

  -- Where the ideal bucket gives `n` tokens the balance is not below `n`, and the new zero time is that
  -- of the ideal bucket.
  module _ (now z n : ℕ) (few : n ≤ 2 ^ 53) (top : now ≤ 2 ^ 53) where
    abbrev balance_now : F64
    balance_now = balance_of limit.rate limit.burst (time now) (time z)

    abbrev z' : ℕ
    z' = caught_up g.cap now z + units n

    pub covered :
        z' ≤ now
        → (lt balance_now (of_int n) ≡ false)
          × (zero_time_new limit.rate (time now) balance_now (of_int n) ≡ time z')
    unfolding caught_up
    covered h =
        let v = min_ℕ (now - z) g.cap in
        let small : g.token_exp ≤ 2044 = omega (arith, g.token_small) in
        let enough : units n ≤ v = omega (arith, h) in
        let moved : now - (v - units n) ≡ z' = omega (arith, h) in
        rw (of_int-units n few, balance-exact now z (omega (arith, h)) top)
          (
            lt-grid g.token_exp small v (units n) ∙ le→ltb v (units n) enough,
            zero_time_new-exact now v (units n) enough (omega arith) top ∙ ap time moved,
          )

    pub lacking : now < z' → 0 < n → z ≤ 2 ^ 53 → lt balance_now (of_int n) ≡ true
    unfolding caught_up
    lacking h pos z_top = elim (dec_lt now z) [
      | yes debt ↦
          rw (of_int-units n few, balance-debt now z debt z_top)
            (negative-below ((z - now) * 2 ^ g.token_exp) (units n * 2 ^ g.token_exp)
              (mul-pos (mul-pos pos (pow-pos (1074 - g.token_exp))) (pow-pos g.token_exp)))
      | no ahead ↦
          let v = min_ℕ (now - z) g.cap in
          let small : g.token_exp ≤ 2044 = omega (arith, g.token_small) in
          rw (of_int-units n few, balance-exact now z (omega arith) top)
            (lt-grid g.token_exp small v (units n) ∙ lt→ltb v (units n) (omega (arith, h)))
    ]
