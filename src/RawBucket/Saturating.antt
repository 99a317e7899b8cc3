-- ===== src/RawBucket/Saturating.antt =====
-- src/raw_bucket.rs: `saturating_consume` on a bucket that no other thread touches.
use gardal.Prelude.{
  ℕ, ◌*◌, ◌^◌, ◌≤◌, ◌≡◌, refl, Bool, some, none, true, false, arith, inl, inr, Bool-cases,
  if◌then◌else◌,
}
use gardal.Float.Value.{fin, one, zero_f64, of_int, eq, lt}
use gardal.Float.Exact.{of_int-exact, of_int-IsRep, one-pos}
use gardal.Clock.Source.{Clock}
use gardal.Tokens
use gardal.Tokens.{new_unchecked, new_checked}
use gardal.Limit.{Limit}
use gardal.Storage.Interface.{TimeStorage, IsStorage, ◌>>=◌}
use gardal.Storage.Alone.{alone}
use gardal.RawBucket
use gardal.RawBucket.Amounts.{ne-zero_of_pos}
use gardal.RawBucket.Outcome.{IsNonZeroU32, request-ne-zero, avail, after}
use gardal.RawBucket.Borrow.{IsRegular, round_none, round_part, round_all}
use native.Mathlib.Nat.{mul-pos}

zero_eq : eq zero_f64 zero_f64 ≡ true
unfolding eq
zero_eq = refl

module _ {S C : Type 0} ⦃t : TimeStorage S⦄ ⦃k : Clock C⦄ (l : IsStorage S) (clock : C)
    (limit : Limit) (g : IsRegular limit (k.now clock)) (s : S) (v : l.IsValid s) (sign : Bool)
    (a : ℕ) (finite : avail l s v clock limit ≡ fin sign a) where
  -- On a valid storage that no other thread touches, with a positive finite rate, a burst that is not
  -- below 0, a finite time and a finite balance, `saturating_consume` for `n` tokens (1 to 2^32 - 1)
  -- takes all `n` where the balance covers them; the whole balance where it is positive and does not,
  -- and the bucket is then empty at the current time; and nothing, with no change, where it is not.
  pub saturating_consume_outcome :
      (n : ℕ)
      → IsNonZeroU32 n
      → let b = avail l s v clock limit in
        RawBucket.saturating_consume n clock limit (alone s) ≡ (
          if lt zero_f64 b
          then if lt b (of_int n)
            then some (some (Tokens.new_unchecked b), alone (t.store s (k.now clock)))
            else some (some (Tokens.new n), after l s v clock limit (of_int n))
          else some (none, alone s))
  unfolding RawBucket.saturating_consume Tokens.new_checked Tokens.new
  saturating_consume_outcome n h =
      let small : n ≤ 2 ^ 53 = omega (arith, h.1) in
      let exact = of_int-exact n small in
      let nonzero : eq (fin false (n * one)) zero_f64 ≡ false = rw exact at (request-ne-zero n h) in
      let m_pos = mul-pos h.0 one-pos in
      let m_fits = of_int-IsRep n small in
      rw (exact, finite)
        (elim (Bool-cases (lt zero_f64 (fin sign a))) [
          | inr nothing ↦ rw nothing (
              rw
                (round_none l clock limit g (n * one) m_pos m_fits s v sign a finite nothing, ◌>>=◌)
                (rw zero_eq))
          | inl there ↦ rw there (elim (Bool-cases (lt (fin sign a) (fin false (n * one)))) [
            | inl part ↦ rw part (
                rw
                  (
                    round_part l clock limit g (n * one) m_pos m_fits s v sign a finite there part,
                    ◌>>=◌,
                  )
                  (rw (ne-zero_of_pos (n * one) m_pos sign a there)))
            | inr enough ↦ rw enough (
                rw
                  (
                    round_all l clock limit g (n * one) m_pos m_fits s v sign a finite there enough,
                    ◌>>=◌,
                  )
                  (rw (nonzero, ← finite)))
          ])
        ])
