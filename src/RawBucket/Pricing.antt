-- ===== src/RawBucket/Pricing.antt =====
-- src/raw_bucket.rs: what `borrow` computes where no step rounds.
use gardal.Prelude.{
  ℕ, ◌+◌, ◌-◌, ◌*◌, ◌^◌, ◌≤◌, ◌<◌, ◌≡◌, refl, sym, ap, ◌∙◌, arith, Bool, true, false, ltb, some,
  pow-pos,
}
use native.Mathlib.Nat.{mul-pos, zero-mul}
use mathlib.Core.Path.{subst}
use gardal.Float.Value.{
  F64, fin, zero_f64, of_int, neg, add, sub, div, lt, lt_fin, le, eq, max, is_nan, IsF64,
}
use gardal.Ideal.{caught_up, level}
use gardal.Storage.Bucket.{balance_of}
use Prim.Native.Nat.{min as min_ℕ}
use native.Mathlib.Decide.{dec_lt}
use gardal.RawBucket.Amounts.{negative-not-pos, not-zero-lt-zero}
use gardal.Float.Exact.{zero-div_pos}
use gardal.Float.Grid.{lt-grid, on_grid, sub-grid, add-grid, div-grid}
use gardal.Clock.Nanos
use gardal.Clock.Nanos.{Nanos, from_secs_f64_unchecked}
use gardal.Limit.{Limit}
use gardal.Storage.Interface.{TimeStorage, IsStorage}
use gardal.RawBucket.Borrow.{IsRegular, nap_until}
use gardal.RawBucket.Exact.{
  units, of_int-units, balance-exact, balance-debt, IsScale, time, tokens, time-IsF64, rate-IsF64,
}

pub zero_grid : (e : ℕ) → zero_f64 ≡ on_grid e 0
zero_grid e = ap (λ m. fin false m) (sym (zero-mul (2 ^ e)))

pub max-zero : (m : ℕ) → max (fin false m) zero_f64 ≡ fin false m
unfolding max is_nan lt lt_fin
max-zero m = ground arith

burst-regular : (m : ℕ) → (is_nan (fin false m) ≡ false) × (lt (fin false m) zero_f64 ≡ false)
unfolding is_nan lt lt_fin
burst-regular m = (refl, ground arith)

max-debt : (m : ℕ) → 0 < m → max (fin true m) zero_f64 ≡ zero_f64
unfolding max is_nan lt lt_fin
max-debt m pos = ground arith

module _ (limit : Limit) (g : IsScale limit) where
  pub token_small : g.token_exp ≤ 2044
  token_small = omega (arith, g.token_small)

  -- A debt of `w` units moves a zero time ahead by so many.
  pub ahead :
      (b w : ℕ)
      → b + w ≤ 2 ^ 53
      → sub (time limit g b) (div (neg (tokens limit g w)) limit.rate) ≡ time limit g (b + w)
  unfolding sub neg
  ahead b w top =
      let price =
        div-grid true w g.time_exp g.token_exp g.rate_exp g.balance (omega (arith, top))
          g.time_small in
      rw (g.rate_eq, price) (add-grid g.time_exp g.time_small b w top)

  module _ {S : Type 0} ⦃t : TimeStorage S⦄ (l : IsStorage S) where
    pub nap-exact :
        (now z : ℕ)
        → now ≤ z
        → z ≤ 2 ^ 53
        → nap_until l limit (time limit g now) (time limit g z) ≡ time limit g (z - now)
    nap-exact now z h top =
        let quiet : add (time limit g z) (div zero_f64 limit.rate) ≡ time limit g z =
          rw (g.rate_eq, zero-div_pos (2 ^ g.rate_exp) (pow-pos g.rate_exp))
            (ap (add (time limit g z)) (zero_grid g.time_exp)
              ∙ add-grid g.time_exp g.time_small z 0 (omega (arith, top))
              ∙ ap (time limit g) (omega arith)) in
        rw (quiet, sub-grid g.time_exp g.time_small z now h top)
          (max-zero ((z - now) * 2 ^ g.time_exp))

  pub wait-kept :
      (w : ℕ)
      → 0 < w
      → Nanos.new_checked (time limit g w) ≡ some (from_secs_f64_unchecked (time limit g w))
  unfolding Nanos.new_checked le lt lt_fin eq
  wait-kept w pos =
      let some_wait : 0 < w * 2 ^ g.time_exp = mul-pos pos (pow-pos g.time_exp) in
      ground (arith, some_wait)

  pub regular :
      (now : ℕ) (clock_now : F64)
      → clock_now ≡ time limit g now
      → now ≤ 2 ^ 53
      → IsRegular limit clock_now
  regular now clock_now e top = record {
    rate = 2 ^ g.rate_exp;
    rate_pos = pow-pos g.rate_exp;
    rate_eq = g.rate_eq;
    rate_fits = subst IsF64 g.rate_eq (rate-IsF64 limit g);
    sign = false;
    time = now * 2 ^ g.time_exp;
    now_eq = e;
    now_fits = time-IsF64 limit g now top;
    burst_number = rw g.burst_eq (burst-regular (g.cap * 2 ^ g.token_exp)).0;
    burst_ge = rw g.burst_eq (burst-regular (g.cap * 2 ^ g.token_exp)).1;
  }

  -- A bucket without tokens: its balance is not above 0.
  pub no_balance :
      (now z : ℕ)
      → now ≤ 2 ^ 53
      → z ≤ 2 ^ 53
      → level g.cap now z ≡ 0
      → (sign : Bool) × (a : ℕ) × (balance_of limit.rate limit.burst
            (time limit g now)
            (time limit g z)
          ≡ fin sign a)
        × (lt zero_f64 (fin sign a) ≡ false)
  unfolding level caught_up
  no_balance now z top z_top h = elim (dec_lt now z) [
    | yes behind ↦ (true, _, balance-debt limit g now z behind z_top, negative-not-pos _)
    | no not_behind ↦
        let empty : min_ℕ (now - z) g.cap ≡ 0 = omega (arith, h, not_behind) in
        let same : tokens limit g (min_ℕ (now - z) g.cap) ≡ fin false 0 =
          rw empty (sym (zero_grid g.token_exp)) in
        (
          false,
          0,
          balance-exact limit g now z (omega (arith, not_behind)) top ∙ same,
          not-zero-lt-zero,
        )
  ]

  -- Whether more tokens than the burst are asked for.
  pub burst_test : (n : ℕ) → n ≤ 2 ^ 53 → lt limit.burst (of_int n) ≡ ltb g.cap (units limit g n)
  burst_test n few =
      rw (g.burst_eq, of_int-units limit g n few)
        (lt-grid g.token_exp token_small g.cap (units limit g n))

  -- The tokens that there are to take.
  pub clipped :
      (now z : ℕ)
      → now ≤ 2 ^ 53
      → z ≤ 2 ^ 53
      → max (balance_of limit.rate limit.burst (time limit g now) (time limit g z)) zero_f64
        ≡ tokens limit g (level g.cap now z)
  unfolding level caught_up
  clipped now z now_top zero_top = elim (dec_lt now z) [
    | yes behind ↦
        let owed : 0 < (z - now) * 2 ^ g.token_exp =
          mul-pos (omega (arith, behind)) (pow-pos g.token_exp) in
        let none_left : 0 ≡ level g.cap now z = omega (arith, behind) in
        rw (balance-debt limit g now z behind zero_top) (
          max-debt ((z - now) * 2 ^ g.token_exp) owed
          ∙ zero_grid g.token_exp
          ∙ ap (tokens limit g) none_left)
    | no past ↦
        let same : min_ℕ (now - z) g.cap ≡ level g.cap now z = omega (arith, past) in
        rw (balance-exact limit g now z (omega (arith, past)) now_top)
          (max-zero (min_ℕ (now - z) g.cap * 2 ^ g.token_exp) ∙ ap (tokens limit g) same)
  ]
