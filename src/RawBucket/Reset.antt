-- ===== src/RawBucket/Reset.antt =====
-- src/raw_bucket.rs: `reset` against the ideal bucket, where no step rounds.
use gardal.Prelude.{ℕ, ◌-◌, ◌^◌, ◌≤◌, ◌≡◌, refl, ap, ◌∙◌, arith, false, some}
use Prim.Native.Nat.{min as min_ℕ}
use gardal.Float.Value.{sub, div}
use gardal.Float.Grid.{sub-grid, div-grid}
use gardal.Clock.Source.{Clock}
use gardal.Limit.{Limit}
use gardal.Ideal.{caught_up, level}
use gardal.Storage.Interface.{TimeStorage, IsStorage, ◌>>=◌}
use gardal.Storage.Alone.{alone, balance-alone, reset-alone}
use gardal.RawBucket
use gardal.RawBucket.{set_capacity}
use gardal.RawBucket.Exact.{IsScale, time, tokens, time-IsF64, balance-exact}
use gardal.RawBucket.Pricing.{clipped}
use gardal.RawBucket.Levels.{available-level}

module _ {S C : Type 0} ⦃t : TimeStorage S⦄ ⦃k : Clock C⦄ (l : IsStorage S) (s : S)
    (v : l.IsValid s) (clock : C) (limit : Limit) (g : IsScale limit) (now z : ℕ)
    (now_eq : k.now clock ≡ time limit g now) (now_top : now ≤ 2 ^ 53)
    (zero_eq : t.load s ≡ time limit g z) (zero_top : z ≤ 2 ^ 53) where
  abbrev there : ℕ
  there = level g.cap now z

  -- The bucket whose zero time has the tokens come in since then.
  abbrev pub refilled : S
  refilled = t.store s (time limit g (now - there))

  there-le : there ≤ now
  unfolding level
  there-le = omega arith

  zero_for :
      sub (time limit g now) (div (tokens limit g there) limit.rate) ≡ time limit g (now - there)
  zero_for =
      let small : there ≤ 2 ^ 53 = omega (arith, there-le, now_top) in
      let back =
        div-grid false there g.time_exp g.token_exp g.rate_exp g.balance small g.time_small in
      rw (g.rate_eq, back) (sub-grid g.time_exp g.time_small now there there-le now_top)

  reset-refilled : RawBucket.reset clock limit (alone s) ≡ some (tt, alone refilled)
  unfolding RawBucket.reset set_capacity
  reset-refilled =
      rw (balance-alone limit.rate limit.burst (k.now clock) s, ◌>>=◌)
        (rw (now_eq, zero_eq, clipped limit g now z now_top zero_top, zero_for)
          (reset-alone (time limit g (now - there)) s))

  same-level : level g.cap now (now - there) ≡ there
  unfolding level caught_up
  same-level = omega arith

  loaded : t.load refilled ≡ time limit g (now - there)
  loaded = l.load-store s _ (time-IsF64 limit g (now - there) (omega (arith, now_top)))

  refilled-IsValid : l.IsValid refilled
  refilled-IsValid = l.store-IsValid s _ (time-IsF64 limit g (now - there) (omega (arith, now_top)))

  balance-refilled :
      RawBucket.balance clock limit (alone refilled) ≡ some (tokens limit g there, alone refilled)
  unfolding RawBucket.balance level caught_up
  balance-refilled =
      let back : min_ℕ (now - (now - there)) g.cap ≡ there = omega arith in
      rw
        (
          balance-alone limit.rate limit.burst (k.now clock) refilled,
          now_eq,
          loaded,
          balance-exact limit g now (now - there) (omega arith) now_top,
          back,
        )
        refl

  -- On a valid storage that no other thread touches, with a rate that is a power of two and a time and a
  -- zero time of at most 2^53 units: `reset` keeps the tokens that `available` reports under the limit
  -- that it is given, to the bit, and forgives a debt: afterwards the balance itself is that number, also
  -- where it was negative.
  pub reset-keeps :
      (RawBucket.available clock limit (alone s) ≡ some (tokens limit g there, alone s))
      × (RawBucket.reset clock limit (alone s) ≡ some (tt, alone refilled))
      × (RawBucket.available clock limit (alone refilled)
          ≡ some (tokens limit g there, alone refilled))
      × (RawBucket.balance clock limit (alone refilled)
          ≡ some (tokens limit g there, alone refilled))
  reset-keeps = (
    available-level l s v clock limit g now z now_eq now_top zero_eq zero_top,
    reset-refilled,
    available-level l refilled refilled-IsValid clock limit g now (now - there) now_eq now_top
          loaded (omega (arith, now_top))
        ∙ ap (λ a. some (tokens limit g a, alone refilled)) same-level,
    balance-refilled,
  )
