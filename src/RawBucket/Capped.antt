-- ===== src/RawBucket/Capped.antt =====
-- src/raw_bucket.rs: `saturating_consume_with_borrow` on a bucket that no other thread touches.
use gardal.Prelude.{
  ℕ, ◌*◌, ◌^◌, ◌≤◌, ◌<◌, ◌≡◌, ap, ◌∙◌, Bool, Option, some, none, false, arith, inl, inr, Bool-cases,
  if◌then◌else◌,
}
use gardal.Float.Value.{
  F64, fin, one, zero_f64, of_int, neg, sub, div, lt, lt_fin, min, is_nan, IsRep,
}
use gardal.Float.Duration.{Duration, from_secs_f64}
use gardal.Float.Exact.{of_int-exact, of_int-IsRep, one-pos}
use gardal.Clock.Source.{Clock}
use gardal.Tokens
use gardal.Tokens.{Tokens, new_unchecked}
use gardal.Limit.{Limit}
use gardal.Storage.Interface.{TimeStorage, World, IsStorage, ◌>>=◌}
use gardal.Storage.Alone.{alone}
use gardal.RawBucket
use gardal.RawBucket.Amounts.{ne-zero_pos}
use gardal.RawBucket.Outcome.{IsNonZeroU32, avail, after, checked}
use gardal.RawBucket.Borrow.{IsRegular, nap_until}
use gardal.RawBucket.Debt.{settled, consume_or_borrow-settled}
use native.Mathlib.Nat.{mul-pos}

-- The smaller of a request and a burst.
min-Positive :
    (m q : ℕ)
    → 0 < m
    → 0 < q
    → IsRep m
    → IsRep q
    → (j : ℕ) × (min (fin false m) (fin false q) ≡ fin false j) × (0 < j) × IsRep j
unfolding min lt lt_fin is_nan
min-Positive m q m_pos q_pos m_fits q_fits = elim (Bool-cases (lt (fin false q) (fin false m))) [
  | inl e ↦ (q, rw e, q_pos, q_fits)
  | inr e ↦ (m, rw e, m_pos, m_fits)
]

module _ {S C : Type 0} ⦃t : TimeStorage S⦄ ⦃k : Clock C⦄ (l : IsStorage S) (clock : C)
    (limit : Limit) (s : S) (v : l.IsValid s) where
  -- The answer of a call that goes into debt until `z`; `none` where the debt is too long.
  abbrev pub asleep : Option Tokens → F64 → Option ((Option Tokens × Duration) × World S)
  asleep tokens z = elim (from_secs_f64 (nap_until l limit (k.now clock) z)) [
    | none ↦ none
    | some d ↦ some ((tokens, d), alone (t.store s z))
  ]

  module _ (g : IsRegular limit (k.now clock)) (sign : Bool) (a : ℕ)
      (finite : avail l s v clock limit ≡ fin sign a) (q : ℕ) (burst_eq : limit.burst ≡ fin false q)
      (burst_pos : 0 < q) (burst_fits : IsRep q) where
    -- On a valid storage that no other thread touches, with a positive finite rate and burst, a finite
    -- time and a finite balance, `saturating_consume_with_borrow` for `n` tokens (1 to 2^32 - 1), `m`
    -- after the cut at the burst: a balance that covers `m` pays all of it, and the call answers no
    -- tokens and no wait; a positive one that does not is taken whole, and the zero time moves to the
    -- current time and on by the price of the rest; and with no balance it moves on by the price of
    -- all `m`. In debt the call answers `m` tokens and the wait, and panics where a `Duration` cannot
    -- hold the wait.
    pub saturating_consume_with_borrow_lem :
        (n : ℕ)
        → IsNonZeroU32 n
        → let b = avail l s v clock limit in
          let m = min (of_int n) limit.burst in
          RawBucket.saturating_consume_with_borrow n clock limit (alone s) ≡ (
            if lt zero_f64 b
            then if lt b m
              then asleep
                  (some (Tokens.new_unchecked m))
                  (sub (k.now clock) (div (neg (sub m b)) limit.rate))
              else some ((none, record { nanos = 0 }), after l s v clock limit m)
            else asleep (some (Tokens.new_unchecked m)) (sub (t.load s) (div (neg m) limit.rate)))
    unfolding RawBucket.saturating_consume_with_borrow settled
    saturating_consume_with_borrow_lem n h =
        let small : n ≤ 2 ^ 53 = omega (arith, h.1) in
        let (j, j_eq, j_pos, j_fits) =
          min-Positive (n * one) q (mul-pos h.0 one-pos) burst_pos (of_int-IsRep n small)
            burst_fits in
        let cut : min (of_int n) limit.burst ≡ fin false j =
          rw (of_int-exact n small, burst_eq) j_eq in
        let run = consume_or_borrow-settled l clock limit s v g j j_pos j_fits sign a finite in
        let nonzero = ne-zero_pos j j_pos in
        let tokens : Tokens.new_checked (min (of_int n) limit.burst)
            ≡ some (Tokens.new_unchecked (fin false j)) =
          ap Tokens.new_checked cut ∙ checked (fin false j) nonzero in
        rw cut (
          rw (run, ◌>>=◌)
            (elim (Bool-cases (lt zero_f64 (avail l s v clock limit))) [
              | inr nothing ↦
                  rw nothing (
                    ap (λ o. asleep o (sub (t.load s) (div (neg (fin false j)) limit.rate))) tokens)
              | inl there ↦
                  rw there (elim (Bool-cases (lt (avail l s v clock limit) (fin false j))) [
                    | inl part ↦ rw part (
                        ap
                          (λ o. asleep o (
                            sub (k.now clock)
                              (div (neg (sub (fin false j) (avail l s v clock limit))) limit.rate)))
                          tokens)
                    | inr all ↦ rw all
                  ])
            ]))
