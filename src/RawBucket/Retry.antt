-- ===== src/RawBucket/Retry.antt =====
-- src/raw_bucket.rs and src/error.rs: the wait that a refused `try_consume` reports, where no step rounds.
use gardal.Prelude.{
  ℕ, ◌+◌, ◌-◌, ◌*◌, ◌^◌, ◌≤◌, ◌<◌, ◌≡◌, ◌⊎◌, refl, sym, ap, ◌∙◌, arith, true, false, leb, none,
  some, inl, inr, Bool-cases, if◌then◌else◌, err, pow-pos, pos→==,
}
use native.Mathlib.Nat.{mul-pos}
use native.Mathlib.Decide.{dec_lt, dec_le}
use gardal.Float.Value.{F64, fin, zero_f64, of_int, div, IsF64, running}
use mathlib.Core.Path.{subst}
use Prim.Native.Nat.{max}
use gardal.Float.Grid.{
  grid-IsRep, sub-grid, sub-grid_below, add-grid, add-grid_above, add-grid_below, add-grid_level,
  div-grid,
}
use gardal.Float.Bits.{to_bits, from_bits-to_bits}
use gardal.Float.Duration.{from_secs_f64}
use gardal.Clock.Nanos.{as_secs_f64, from_secs_f64_unchecked}
use gardal.Clock.Source.{Clock}
use gardal.Tokens
use gardal.Limit.{Limit}
use gardal.Error.{RateLimited, earliest_retry_after}
use gardal.Ideal.{caught_up, take}
use gardal.Storage.Interface.{TimeStorage, IsStorage}
use gardal.Storage.Alone.{alone}
use gardal.RawBucket
use gardal.RawBucket.{est_time}
use gardal.RawBucket.Outcome.{IsNonZeroU32}
use gardal.RawBucket.Refusal.{try_consume_outcome}
use gardal.RawBucket.Exact.{IsScale, units, time, of_int-units, time-IsF64, rate-IsF64, lacking}
use gardal.RawBucket.Refines.{consume-refines}

zero_bits : to_bits zero_f64 ≡ 0
unfolding to_bits running
zero_bits = refl

module _ (limit : Limit) (g : IsScale limit) (now z n : ℕ) (few : n ≤ 2 ^ 53)
    (now_top : now ≤ 2 ^ 53) (end_top : z + units limit g n ≤ 2 ^ 53) where
  abbrev u : ℕ
  u = units limit g n

  abbrev estimate : F64
  estimate = est_time (time limit g z) (time limit g now) (of_int n) limit.rate

  earned : div (of_int n) limit.rate ≡ time limit g u
  earned =
      rw (of_int-units limit g n few, g.rate_eq)
        (div-grid false u g.time_exp g.token_exp g.rate_exp g.balance (omega (arith, end_top))
          g.time_small)

  pub estimate-ahead : now < z + u → estimate ≡ time limit g (z + u - now)
  unfolding est_time
  estimate-ahead h = elim (dec_le now z) [
    | yes debt ↦
        let same : z - now + u ≡ z + u - now = omega (arith, debt) in
        rw (earned, sub-grid g.time_exp g.time_small z now debt (omega (arith, end_top)))
          (add-grid g.time_exp g.time_small (z - now) u (omega (arith, end_top))
            ∙ ap (time limit g) same)
    | no past ↦
        let same : u - (now - z) ≡ z + u - now = omega (arith, past) in
        rw (earned, sub-grid_below g.time_exp g.time_small z now (omega (arith, past)) now_top)
          (add-grid_above g.time_exp g.time_small (now - z) u (omega (arith, h, past))
              (omega (arith, end_top))
            ∙ ap (time limit g) same)
  ]

  estimate-level : now ≡ z + u → 0 < u → estimate ≡ zero_f64
  unfolding est_time
  estimate-level h pos =
      let same : now - z ≡ u = omega (arith, h) in
      rw
        (earned, sub-grid_below g.time_exp g.time_small z now (omega (arith, h, pos)) now_top, same)
        (add-grid_level g.time_exp g.time_small u)

  estimate-behind : z + u < now → 0 < u → estimate ≡ fin true ((now - (z + u)) * 2 ^ g.time_exp)
  unfolding est_time
  estimate-behind h pos =
      let same : now - z - u ≡ now - (z + u) = omega arith in
      rw (earned, sub-grid_below g.time_exp g.time_small z now (omega (arith, h, pos)) now_top)
        (add-grid_below g.time_exp g.time_small (now - z) u (omega (arith, h))
            (omega (arith, now_top))
          ∙ ap (λ m. fin true (m * 2 ^ g.time_exp)) same)

module _ {S C : Type 0} ⦃t : TimeStorage S⦄ ⦃k : Clock C⦄ (l : IsStorage S) (s : S)
    (v : l.IsValid s) (clock : C) (limit : Limit) (g : IsScale limit) (now z : ℕ)
    (now_eq : k.now clock ≡ time limit g now) (now_top : now ≤ 2 ^ 53)
    (zero_eq : t.load s ≡ time limit g z) (n : ℕ) (h : IsNonZeroU32 n)
    (end_top : z + units limit g n ≤ 2 ^ 53)
    (refused : now < caught_up g.cap now z + units limit g n) where
  few : n ≤ 2 ^ 53
  few = omega (arith, h.1)

  abbrev pub refusal_of : F64 → RateLimited
  refusal_of wait = record { earliest_retry_time = from_secs_f64_unchecked wait }

  tokens-pos : 0 < units limit g n
  tokens-pos = mul-pos h.0 (pow-pos (1074 - g.token_exp))

  pub refuses :
      (wait : F64)
      → est_time (time limit g z) (time limit g now) (of_int n) limit.rate ≡ wait
      → RawBucket.try_consume n clock limit (alone s) ≡ some (err (refusal_of wait), alone s)
  unfolding est_time
  refuses wait e =
      let now_fits = subst IsF64 (sym now_eq) (time-IsF64 limit g now now_top) in
      let short = lacking limit g now z n few now_top refused h.0 (omega (arith, end_top)) in
      (try_consume_outcome l s v clock limit n h now_fits (rate-IsF64 limit g)).0
      ∙ rw (now_eq, zero_eq, short) (ap (λ w. some (err (refusal_of w), alone s)) e)

  -- On a valid storage that no other thread touches, with a rate that is a power of two and times, a
  -- zero time and a burst of at most 2^53 units: where `try_consume` is refused `n` tokens (1 to
  -- 2^32 - 1), not more than the burst, its error holds the wait to the bit, and the wait is the right
  -- one: at any time from then on `consume` for `n` tokens succeeds if the wait is over, and is
  -- refused before.
  pub retry_exact :
      units limit g n ≤ g.cap
      → (later : ℕ) (clock' : C) → k.now clock' ≡ time limit g later
      → now ≤ later
      → later ≤ 2 ^ 53
      → let wait = z + units limit g n - now in
        (RawBucket.try_consume n clock limit (alone s)
          ≡ some (err (refusal_of (time limit g wait)), alone s))
        × (RawBucket.consume n clock' limit (alone s) ≡ (
            if leb (now + wait) later
            then some (
              some (Tokens.new n),
              alone (t.store s (time limit g (caught_up g.cap later z + units limit g n))),
            )
            else some (none, alone s)))
  unfolding take caught_up
  retry_exact within later clock' later_eq from top =
      let ahead : now < z + units limit g n = omega (arith, refused, within) in
      let z_top : z ≤ 2 ^ 53 = omega (arith, end_top) in
      let over : leb (max z (later - g.cap) + units limit g n) later
          ≡ leb (now + (z + units limit g n - now)) later =
        ground (arith, ahead, within) in
      (
        refuses _ (estimate-ahead limit g now z n few now_top end_top ahead),
        consume-refines l s v clock' limit g later z later_eq top zero_eq z_top n h
            ∙ elim (Bool-cases (leb (now + (z + units limit g n - now)) later)) [
              | inl e ↦ rw (over, e) refl
              | inr e ↦ rw (over, e) refl
            ],
      )

  -- On the same conditions, where more tokens than the burst are asked of a bucket whose zero time lies
  -- so far back that an unlimited one would have earned them: if that has just come about the error
  -- holds the word 0, which its `NonZeroU64` must not, and otherwise the conversion of its wait to a
  -- `Duration` panics.
  pub retry_broken :
      z + units limit g n ≤ now
      → let wait = est_time (time limit g z) (time limit g now) (of_int n) limit.rate in
        (RawBucket.try_consume n clock limit (alone s) ≡ some (err (refusal_of wait), alone s))
        × ((now ≡ z + units limit g n) × ((refusal_of wait).earliest_retry_time.bits ≡ 0)
            ⊎ (z + units limit g n < now) × (earliest_retry_after (refusal_of wait) ≡ none))
  unfolding earliest_retry_after as_secs_f64 from_secs_f64_unchecked from_secs_f64
  retry_broken past = (
    refuses _ refl,
    elim (dec_lt (z + units limit g n) now) [
      | yes more ↦
          let m = (now - (z + units limit g n)) * 2 ^ g.time_exp in
          let m_pos : 0 < m = mul-pos (omega (arith, more)) (pow-pos g.time_exp) in
          let fits =
            grid-IsRep g.time_exp (now - (z + units limit g n)) g.time_small
              (omega (arith, now_top)) in
          inr (
            more,
            rw
                (
                  estimate-behind limit g now z n few now_top end_top more tokens-pos,
                  from_bits-to_bits (fin true m) fits,
                  pos→== m m_pos,
                )
                refl,
          )
      | no level ↦
          let same : now ≡ z + units limit g n = omega (arith, level, past) in
          inl (
            same,
            rw (estimate-level limit g now z n few now_top end_top same tokens-pos) zero_bits,
          )
    ],
  )
