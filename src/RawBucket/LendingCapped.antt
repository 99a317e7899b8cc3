-- ===== src/RawBucket/LendingCapped.antt =====
-- src/raw_bucket.rs: `saturating_consume_with_borrow` against the ideal bucket, where no step rounds.
use gardal.Prelude.{
  ℕ, ◌+◌, ◌-◌, ◌*◌, ◌^◌, ◌≤◌, ◌<◌, ◌≡◌, refl, ap, ◌∙◌, arith, ◌==◌, Option, none, some,
  if◌then◌else◌, pow-pos, inl, inr, Bool-cases,
}
use Prim.Native.Nat.{min as min_ℕ}
use native.Mathlib.Nat.{mul-pos}
use gardal.Float.Value.{of_int, min}
use gardal.Float.Grid.{min-grid}
use gardal.Float.Duration.{Duration, from_secs_f64}
use gardal.Clock.Source.{Clock}
use gardal.Tokens
use gardal.Tokens.{Tokens, new_unchecked}
use gardal.Limit.{Limit}
use gardal.Ideal.{caught_up, lend}
use gardal.Storage.Interface.{TimeStorage, World, IsStorage, ◌>>=◌}
use gardal.Storage.Alone.{alone}
use gardal.RawBucket
use gardal.RawBucket.Amounts.{ne-zero_pos}
use gardal.RawBucket.Outcome.{IsNonZeroU32, checked}
use gardal.RawBucket.Exact.{IsScale, units, time, tokens, of_int-units}
use gardal.RawBucket.Pricing.{token_small}
use gardal.RawBucket.Settling.{consume_or_borrow-exact}

module _ {S C : Type 0} ⦃t : TimeStorage S⦄ ⦃k : Clock C⦄ (l : IsStorage S) (s : S)
    (v : l.IsValid s) (clock : C) (limit : Limit) (g : IsScale limit) (now z : ℕ)
    (now_eq : k.now clock ≡ time limit g now) (zero_eq : t.load s ≡ time limit g z) (n : ℕ)
    (h : IsNonZeroU32 n) (now_top : now + units limit g n ≤ 2 ^ 53)
    (zero_top : z + units limit g n ≤ 2 ^ 53) (holds_some : 0 < g.cap) where
  -- The request, cut at the burst.
  abbrev pub cut : ℕ
  cut = min_ℕ (units limit g n) g.cap

  -- The answer and the bucket after it, given the ideal bucket's.
  abbrev pub as_lent_cut : Option (ℕ × ℕ) → Option ((Option Tokens × Duration) × World S)
  as_lent_cut none = none
  as_lent_cut (some (z', nap)) =
      let next = alone (t.store s (time limit g z')) in
      if nap == 0
      then some ((none, record { nanos = 0 }), next)
      else elim (from_secs_f64 (time limit g nap)) [
        | none ↦ none
        | some d ↦ some ((some (Tokens.new_unchecked (tokens limit g cut)), d), next)
      ]

  few : n ≤ 2 ^ 53
  few = omega (arith, h.1)

  cut-pos : 0 < cut
  cut-pos =
      let asked : 0 < units limit g n = mul-pos h.0 (pow-pos (1074 - g.token_exp)) in
      omega (arith, asked, holds_some)

  cut-exact : min (of_int n) limit.burst ≡ tokens limit g cut
  cut-exact =
      rw (of_int-units limit g n few, g.burst_eq)
        (min-grid g.token_exp (token_small limit g) (units limit g n) g.cap)

  counted :
      Tokens.new_checked (min (of_int n) limit.burst)
      ≡ some (Tokens.new_unchecked (tokens limit g cut))
  counted =
      ap Tokens.new_checked cut-exact
      ∙ checked (tokens limit g cut)
          (ne-zero_pos (cut * 2 ^ g.token_exp) (mul-pos cut-pos (pow-pos g.token_exp)))

  abbrev z' : ℕ
  z' = caught_up g.cap now z + cut

  lend-cut : lend g.cap cut now z ≡ some (z', z' - now)
  unfolding lend
  lend-cut = ground arith

  -- On a valid storage that no other thread touches, with a rate that is a power of two, a burst of 1 to
  -- 2^53 units, and a time and a zero time that stay within 2^53 units with the request added:
  -- `saturating_consume_with_borrow` for `n` tokens (1 to 2^32 - 1) does what the ideal bucket does that
  -- lends the request cut at the burst, which it never refuses. The zero time moves where the ideal
  -- bucket moves it. If that is past, the call answers no tokens and no wait; otherwise it answers the
  -- cut request and the wait until then as a `Duration`, and panics where a `Duration` cannot hold it.
  pub saturating_consume_with_borrow-refines :
      RawBucket.saturating_consume_with_borrow n clock limit (alone s)
      ≡ as_lent_cut (lend g.cap cut now z)
  unfolding RawBucket.saturating_consume_with_borrow
  saturating_consume_with_borrow-refines =
      let settled =
        consume_or_borrow-exact l s v clock limit g now z now_eq zero_eq cut cut-pos (omega arith)
          (omega (arith, now_top)) (omega (arith, zero_top)) in
      rw (lend-cut, cut-exact)
        (rw (settled, ◌>>=◌)
          (elim (Bool-cases (z' - now == 0)) [
            | inl past ↦ rw past refl
            | inr ahead ↦ rw ahead (
                ap
                  (λ o. elim (from_secs_f64 (time limit g (z' - now))) [
                    | none ↦ none
                    | some d ↦ some ((o, d), alone (t.store s (time limit g z')))
                  ])
                  counted)
          ]))
