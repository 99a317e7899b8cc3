-- ===== src/RawBucket/NonZero.antt =====
-- src/raw_bucket.rs, src/tokens.rs and src/clock.rs: the words that are kept as `NonZeroU64`.
use gardal.Prelude.{
  ℕ, ◌<◌, ◌≡◌, refl, arith, true, false, Bool, Bool-cases, inl, inr, Option, none, some, Result, ok,
  err, if◌then◌else◌,
}
use native.Mathlib.Nat.{div-one}
use native.Mathlib.Decide.{dec_lt}
use gardal.Float.Value.{F64, nan, inf, fin, zero_f64, eq, le, lt, min, of_int}
use gardal.Float.Duration.{Duration, from_secs_f64}
use gardal.Float.Round.{excess}
use gardal.Float.Bits.{to_bits}
use gardal.Clock.Nanos
use gardal.Clock.Nanos.{Nanos}
use gardal.Clock.Source.{Clock}
use gardal.Tokens
use gardal.Tokens.{Tokens}
use gardal.Limit.{Limit}
use gardal.Error.{RateLimited, ExceededBurstCapacity}
use gardal.Storage.Interface.{TimeStorage, World}
use gardal.Storage.Loop.{stop, swap}
use gardal.Storage.Progress.{result_of}
use gardal.Storage.Bucket
use gardal.Storage.Bucket.{
  TokenAcquisition, acquired, zeroed_at, balance_of, zero_time_new, consume2_turn,
}
use gardal.RawBucket
use gardal.RawBucket.{all_or_nothing, or_retry, saturating_consume_inner, consume_or_borrow}
use gardal.Storage.Answers.{Answers, bind-Answers, tail-Answers, update-Answers}

to_bits-pos : (x : F64) → eq x zero_f64 ≡ false → 0 < to_bits x
unfolding to_bits eq
to_bits-pos nan h = omega arith
to_bits-pos (inf s) h = omega arith
to_bits-pos (fin s m) h =
    let pos : 0 < m = ground arith in
    elim (dec_lt 0 (excess m)) [
      | yes scaled ↦ omega arith
      | no small ↦ let e : excess m ≡ 0 = omega arith in rw (e, div-one m) (omega (arith, pos))
    ]

abbrev pub HoldsTokens : Option Tokens → Type 0
HoldsTokens none = Unit
HoldsTokens (some t) = 0 < t.bits

abbrev pub HoldsGrant : Result Tokens RateLimited → Type 0
HoldsGrant (ok t) = 0 < t.bits
HoldsGrant (err e) = Unit

abbrev pub HoldsNap : Result (Option Nanos) ExceededBurstCapacity → Type 0
HoldsNap (ok none) = Unit
HoldsNap (ok (some nap)) = 0 < nap.bits
HoldsNap (err e) = Unit

tokens-HoldsTokens : (x : F64) → HoldsTokens (Tokens.new_checked x)
unfolding Tokens.new_checked Tokens.new_unchecked
tokens-HoldsTokens x = elim (Bool-cases (eq x zero_f64)) [
  | inl e ↦ rw e tt
  | inr e ↦ rw e (to_bits-pos x e)
]

nap-HoldsNap :
    (nap : Option F64) → HoldsNap (ok (elim nap [ none ↦ none | some t ↦ Nanos.new_checked t ]))
unfolding Nanos.new_checked Nanos.from_secs_f64_unchecked le
nap-HoldsNap none = tt
nap-HoldsNap (some x) = elim (Bool-cases (le x zero_f64)) [
  | inl e ↦ rw e tt
  | inr e ↦ rw e (to_bits-pos x (ground arith))
]

module _ (rate burst_size now : F64) (f : F64 → F64) where
  abbrev IsAcquired : TokenAcquisition → Type 0
  IsAcquired (acquired c) = eq c zero_f64 ≡ false
  IsAcquired (zeroed_at z) = Unit

  -- Only what is not zero counts as acquired.
  consume2_turn-IsAcquired :
      (z : F64) → IsAcquired (result_of (consume2_turn rate burst_size now f z))
  unfolding consume2_turn
  consume2_turn-IsAcquired z =
      let c = f (balance_of rate burst_size now z) in go c (eq c zero_f64) refl
    where
      go :
          (c : F64) (b : Bool)
          → eq c zero_f64 ≡ b
          → IsAcquired (
              result_of (
                if b
                then stop (zeroed_at z)
                else swap
                    (acquired c)
                    (zero_time_new rate now (balance_of rate burst_size now z) c)))
      go c true e = tt
      go c false e = e

module _ {S C : Type 0} ⦃t : TimeStorage S⦄ ⦃k : Clock C⦄ (clock : C) (limit : Limit) (n : ℕ)
    (w : World S) where
  saturating_consume_with_borrow-HoldsTokens :
      Answers (λ q. HoldsTokens q.0) (RawBucket.saturating_consume_with_borrow n clock limit w)
  unfolding RawBucket.saturating_consume_with_borrow
  saturating_consume_with_borrow-HoldsTokens =
      let want = min (of_int n) limit.burst in
      tail-Answers (consume_or_borrow want (k.now clock) limit) _ w (λ q. HoldsTokens q.0) rest
    where
      slept :
          (o : Option Duration) (w' : World S)
          → Answers {S = S} {A = Option Tokens × Duration}
              (λ q. HoldsTokens q.0)
              (elim o [
                | none ↦ none
                | some d ↦ some ((Tokens.new_checked (min (of_int n) limit.burst), d), w')
              ])
      slept none w' = tt
      slept (some d) w' = tokens-HoldsTokens (min (of_int n) limit.burst)

      rest :
          (nap : Option F64) (w' : World S)
          → Answers {S = S} {A = Option Tokens × Duration}
              (λ q. HoldsTokens q.0)
              (elim nap [
                | none ↦ some ((none, record { nanos = 0 }), w')
                | some nap_time ↦ elim (from_secs_f64 nap_time) [
                  | none ↦ none
                  | some d ↦ some ((Tokens.new_checked (min (of_int n) limit.burst), d), w')
                ]
              ])
      rest none w' = tt
      rest (some t) w' = slept (from_secs_f64 t) w'

  consume_with_borrow-HoldsNap : Answers HoldsNap (RawBucket.consume_with_borrow n clock limit w)
  unfolding RawBucket.consume_with_borrow
  consume_with_borrow-HoldsNap = elim (Bool-cases (lt limit.burst (of_int n))) [
    | inl e ↦ rw e tt
    | inr e ↦ rw e (
        tail-Answers (consume_or_borrow (of_int n) (k.now clock) limit) _ w HoldsNap
          (λ nap w'. nap-HoldsNap nap))
  ]

  -- Whatever the storage, its interference, the clock, the limit and the request: a `Tokens` or a
  -- `Nanos` in what `consume`, `try_consume` (where it grants), `saturating_consume`,
  -- `consume_with_borrow` and `saturating_consume_with_borrow` return does not hold the word 0.
  pub consumed-NonZero :
      Answers HoldsTokens (RawBucket.consume n clock limit w)
      × Answers HoldsGrant (RawBucket.try_consume n clock limit w)
      × Answers HoldsTokens (RawBucket.saturating_consume n clock limit w)
      × Answers HoldsNap (RawBucket.consume_with_borrow n clock limit w)
      × Answers (λ q. HoldsTokens q.0) (RawBucket.saturating_consume_with_borrow n clock limit w)
  unfolding RawBucket.consume RawBucket.try_consume RawBucket.saturating_consume Bucket.consume2
      or_retry Tokens.new_unchecked
  consumed-NonZero =
      let now = k.now clock in
      let all = all_or_nothing (of_int n) in
      let turn = consume2_turn limit.rate limit.burst now all in
      (
        tail-Answers (Bucket.consume limit.rate limit.burst now all) _ w HoldsTokens
            (λ c w'. tokens-HoldsTokens c),
        bind-Answers (Bucket.consume2 limit.rate limit.burst now all) _ w
            (IsAcquired limit.rate limit.burst now all) HoldsGrant (λ a w' h. grant a h)
            (update-Answers turn (IsAcquired limit.rate limit.burst now all)
              (consume2_turn-IsAcquired limit.rate limit.burst now all) w),
        tail-Answers (saturating_consume_inner (of_int n) now limit) _ w HoldsTokens
            (λ c w'. tokens-HoldsTokens c),
        consume_with_borrow-HoldsNap,
        saturating_consume_with_borrow-HoldsTokens,
      )
    where
      grant :
          (a : TokenAcquisition)
          → IsAcquired limit.rate limit.burst (k.now clock) (all_or_nothing (of_int n)) a
          → HoldsGrant (or_retry (k.now clock) (of_int n) limit.rate a)
      grant (acquired c) h = to_bits-pos c h
      grant (zeroed_at z) h = tt
