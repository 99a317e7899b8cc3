-- ===== src/RawBucket/Lending.antt =====
-- src/raw_bucket.rs: `consume_with_borrow` against the ideal bucket, where no step rounds.
use gardal.Prelude.{
  ℕ, ◌+◌, ◌-◌, ◌^◌, ◌≤◌, ◌<◌, ◌≡◌, refl, ap, ◌∙◌, arith, ◌==◌, Option, none, some, if◌then◌else◌,
  Result, ok, err, pow-pos, le→ltb, lt→ltb, pos→==,
}
use native.Mathlib.Nat.{mul-pos}
use native.Mathlib.Decide.{dec_lt}
use gardal.Float.Value.{F64}
use gardal.Clock.Nanos
use gardal.Clock.Nanos.{Nanos, from_secs_f64_unchecked}
use gardal.Clock.Source.{Clock}
use gardal.Limit.{Limit}
use gardal.Error.{ExceededBurstCapacity, exceeded_burst_capacity}
use gardal.Ideal.{caught_up, lend}
use gardal.Storage.Interface.{TimeStorage, World, IsStorage, ◌>>=◌}
use gardal.Storage.Alone.{alone}
use gardal.RawBucket
use gardal.RawBucket.Outcome.{IsNonZeroU32}
use gardal.RawBucket.Settling.{consume_or_borrow-exact}
use gardal.RawBucket.Exact.{IsScale, units, time, of_int-units}
use gardal.RawBucket.Pricing.{burst_test, wait-kept}

module _ {S C : Type 0} ⦃t : TimeStorage S⦄ ⦃k : Clock C⦄ (l : IsStorage S) (s : S)
    (v : l.IsValid s) (clock : C) (limit : Limit) (g : IsScale limit) (now z : ℕ)
    (now_eq : k.now clock ≡ time limit g now) (zero_eq : t.load s ≡ time limit g z) (n : ℕ)
    (h : IsNonZeroU32 n) (now_top : now + units limit g n ≤ 2 ^ 53)
    (zero_top : z + units limit g n ≤ 2 ^ 53) where
  -- The answer and the bucket after it, given the ideal bucket's.
  abbrev pub as_lent :
      Option (ℕ × ℕ) → Option (Result (Option Nanos) ExceededBurstCapacity × World S)
  as_lent none = some (err exceeded_burst_capacity, alone s)
  as_lent (some (z', nap)) = some (
    ok (if nap == 0 then none else some (from_secs_f64_unchecked (time limit g nap))),
    alone (t.store s (time limit g z')),
  )

  abbrev u : ℕ
  u = units limit g n

  few : n ≤ 2 ^ 53
  few = omega (arith, h.1)

  u-pos : 0 < u
  u-pos = mul-pos h.0 (pow-pos (1074 - g.token_exp))

  abbrev z' : ℕ
  z' = caught_up g.cap now z + u

  -- The wait as the answer has it.
  abbrev answer_of : Option F64 → Result (Option Nanos) ExceededBurstCapacity
  answer_of nap = ok (elim nap [ none ↦ none | some nap_time ↦ Nanos.new_checked nap_time ])

  nap-answer :
      (w : ℕ)
      → answer_of (if w == 0 then none else some (time limit g w))
        ≡ ok (if w == 0 then none else some (from_secs_f64_unchecked (time limit g w)))
  nap-answer w = elim (dec_lt 0 w) [
    | yes pos ↦ rw (pos→== w pos) (ap ok (wait-kept limit g w pos))
    | no zero ↦ let e : w ≡ 0 = omega (arith, zero) in rw e refl
  ]

  lends :
      u ≤ g.cap
      → RawBucket.consume_with_borrow n clock limit (alone s) ≡ as_lent (some (z', z' - now))
  unfolding RawBucket.consume_with_borrow
  lends within =
      let settled =
        consume_or_borrow-exact l s v clock limit g now z now_eq zero_eq u u-pos within now_top
          zero_top in
      rw (burst_test limit g n few, le→ltb g.cap u within, of_int-units limit g n few)
        (rw (settled, ◌>>=◌)
          (ap (λ a. some (a, alone (t.store s (time limit g z')))) (nap-answer (z' - now))))

  -- On a valid storage that no other thread touches, with a rate that is a power of two, a burst of at
  -- most 2^53 units, and a time and a zero time that stay within 2^53 units with the request added:
  -- `consume_with_borrow` for `n` tokens (1 to 2^32 - 1) does what the ideal bucket does. It is an error
  -- above the burst; otherwise the zero time moves where the ideal bucket moves it, in one step or in
  -- two, and the answer is the time from the present to there, or none if that is past.
  pub consume_with_borrow-refines :
      RawBucket.consume_with_borrow n clock limit (alone s) ≡ as_lent (lend g.cap u now z)
  unfolding RawBucket.consume_with_borrow lend
  consume_with_borrow-refines = elim (dec_lt g.cap u) [
    | yes over ↦ rw (burst_test limit g n few, lt→ltb g.cap u over) refl
    | no within ↦
        let fits : u ≤ g.cap = omega (arith, within) in lends fits ∙ rw (le→ltb g.cap u fits) refl
  ]
