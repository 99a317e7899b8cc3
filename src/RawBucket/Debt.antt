-- ===== src/RawBucket/Debt.antt =====
-- src/raw_bucket.rs: `consume_with_borrow` on a bucket that no other thread touches.
use gardal.Prelude.{
  ℕ, ◌*◌, ◌^◌, ◌≤◌, ◌<◌, ◌≡◌, ◌∙◌, Bool, true, false, Option, some, none, arith, inl, inr,
  Bool-cases, if◌then◌else◌, Result, ok, err,
}
use gardal.Float.Value.{F64, fin, one, zero_f64, of_int, neg, sub, div, lt, IsRep}
use gardal.Float.Exact.{of_int-exact, one-pos, of_int-IsRep}
use gardal.Clock.Nanos
use gardal.Clock.Nanos.{Nanos}
use gardal.Clock.Source.{Clock}
use gardal.Limit.{Limit}
use gardal.Error.{ExceededBurstCapacity, exceeded_burst_capacity}
use gardal.Storage.Interface.{TimeStorage, World, IsStorage, ◌>>=◌}
use gardal.Storage.Alone.{alone}
use gardal.RawBucket
use gardal.RawBucket.Outcome.{avail, after, IsNonZeroU32}
use gardal.RawBucket.Amounts.{negative-not-pos}
use gardal.RawBucket.Borrow.{IsRegular, nap_until, loop_none, loop_part, loop_all}
use native.Mathlib.Nat.{mul-pos}

module _ {S C : Type 0} ⦃t : TimeStorage S⦄ ⦃k : Clock C⦄ (l : IsStorage S) (clock : C)
    (limit : Limit) (s : S) (v : l.IsValid s) where
  abbrev pub time_of_call : F64
  time_of_call = k.now clock

  -- In debt until `z`.
  abbrev pub owing : F64 → Option (Option F64 × World S)
  owing z = some (some (nap_until l limit time_of_call z), alone (t.store s z))

  -- What is to come of a request for `n` tokens.
  unfoldable pub settled : F64 → Option (Option F64 × World S)
  settled n =
      let a = avail l s v clock limit in
      if lt zero_f64 a
      then if lt a n
        then owing (sub time_of_call (div (neg (sub n a)) limit.rate))
        else some (none, after l s v clock limit n)
      else owing (sub (t.load s) (div (neg n) limit.rate))

  module _ (g : IsRegular limit time_of_call) (m : ℕ) (pos : 0 < m) (fits : IsRep m) where
    abbrev run : Option (Option F64 × World S)
    run = RawBucket.consume_or_borrow (fin false m) time_of_call limit (alone s)

    settled-short :
        (sign : Bool) (a : ℕ)
        → avail l s v clock limit ≡ fin sign a
        → lt zero_f64 (fin sign a) ≡ false
        → run ≡ settled (fin false m)
    unfolding RawBucket.consume_or_borrow settled
    settled-short sign a e h = loop_none l clock limit g m pos fits s v 1 sign a e h ∙ rw (e, h)

    settled-some :
        (a : ℕ)
        → avail l s v clock limit ≡ fin false a
        → lt zero_f64 (fin false a) ≡ true
        → run ≡ settled (fin false m)
    unfolding RawBucket.consume_or_borrow settled
    settled-some a e h = elim (Bool-cases (lt (fin false a) (fin false m))) [
      | inl more ↦ loop_part l clock limit g s v m pos fits 0 a e h more ∙ rw (e, h, more)
      | inr enough ↦
          loop_all l clock limit g m pos fits s v 0 false a e h enough ∙ rw (e, h, enough)
    ]

    pub consume_or_borrow-settled :
        (sign : Bool) (a : ℕ) → avail l s v clock limit ≡ fin sign a → run ≡ settled (fin false m)
    consume_or_borrow-settled true a e = settled-short true a e (negative-not-pos a)
    consume_or_borrow-settled false a e = elim (Bool-cases (lt zero_f64 (fin false a))) [
      | inl there ↦ settled-some a e there
      | inr nothing ↦ settled-short false a e nothing
    ]

  -- The bucket in debt until `z`, and the answer that says how long.
  abbrev pub owes : F64 → Option (Result (Option Nanos) ExceededBurstCapacity × World S)
  owes z = some (ok (Nanos.new_checked (nap_until l limit time_of_call z)), alone (t.store s z))

  module _ (g : IsRegular limit time_of_call) (sign : Bool) (a : ℕ)
      (finite : avail l s v clock limit ≡ fin sign a) (n : ℕ) (h : IsNonZeroU32 n) where
    request-settled :
        RawBucket.consume_or_borrow (of_int n) time_of_call limit (alone s) ≡ settled (of_int n)
    request-settled =
        let small : n ≤ 2 ^ 53 = omega (arith, h.1) in
        rw (of_int-exact n small) (
          consume_or_borrow-settled g (n * one) (mul-pos h.0 one-pos) (of_int-IsRep n small) sign a
            finite)

    -- With a positive finite rate, a burst that is a number not below 0, a finite time and a finite
    -- balance, `consume_with_borrow` for `n` tokens (1 to 2^32 - 1) always returns. More than the burst
    -- is an error and changes nothing; a balance that covers `n` pays all, with no wait; a positive one
    -- that does not is taken whole, the zero time moves to the current time and on by the price of the
    -- rest; and with no balance the zero time moves on by the price of all `n`.
    pub consume_with_borrow_lem :
        let b = avail l s v clock limit in
        RawBucket.consume_with_borrow n clock limit (alone s) ≡ (
          if lt limit.burst (of_int n)
          then some (err exceeded_burst_capacity, alone s)
          else if lt zero_f64 b
          then if lt b (of_int n)
            then owes (sub time_of_call (div (neg (sub (of_int n) b)) limit.rate))
            else some (ok none, after l s v clock limit (of_int n))
          else owes (sub (t.load s) (div (neg (of_int n)) limit.rate)))
    unfolding RawBucket.consume_with_borrow settled
    consume_with_borrow_lem = elim (Bool-cases (lt limit.burst (of_int n))) [
      | inl e ↦ rw e
      | inr e ↦ rw e (
          rw (request-settled, ◌>>=◌)
            (elim (Bool-cases (lt zero_f64 b)) [
              | inr none_there ↦ rw none_there
              | inl some_there ↦
                  rw some_there
                    (elim (Bool-cases (lt b (of_int n))) [ inl part ↦ rw part | inr all ↦ rw all ])
            ]))
    ]
      where
        b : F64
        b = avail l s v clock limit
