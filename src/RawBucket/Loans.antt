-- ===== src/RawBucket/Loans.antt =====
-- src/raw_bucket.rs: each borrowing call of a run, where no step rounds.
use gardal.Prelude.{
  ℕ, ◌+◌, ◌-◌, ◌*◌, ◌^◌, ◌≤◌, ◌<◌, ◌≡◌, refl, ap, arith, ◌==◌, none, some, inl, inr, Bool-cases,
  le→ltb, lt→ltb, le→ltb, lt→ltb,
}
use Prim.Native.Nat.{min as min_ℕ}
use native.Mathlib.Decide.{dec_lt}
use gardal.Clock.Source.{Clock}
use gardal.Limit.{Limit}
use gardal.Ideal.{caught_up, lend}
use gardal.Ideal.Session.{Call, consume_with_borrow, saturating_consume_with_borrow, serve}
use gardal.Storage.Interface.{TimeStorage, IsStorage, ◌>>=◌}
use gardal.Storage.Alone.{alone}
use gardal.RawBucket.Exact.{IsScale, units, time}
use gardal.RawBucket.Lending.{consume_with_borrow-refines}
use gardal.RawBucket.LendingCapped.{saturating_consume_with_borrow-refines}
use gardal.RawBucket.Held.{Holds, Served, store-Holds}
use gardal.RawBucket.Session.{
  perform, render, HasDuration, in_tokens, in_duration_lem, for_lent_part,
}

module _ {S C : Type 0} ⦃t : TimeStorage S⦄ ⦃k : Clock C⦄ (l : IsStorage S) (limit : Limit)
    (g : IsScale limit) (clock : ℕ → C)
    (clock_at : (a : ℕ) → a ≤ 2 ^ 53 → k.now (clock a) ≡ time limit g a) where
  abbrev per_token : ℕ
  per_token = 2 ^ (1074 - g.token_exp)

  module _ (s : S) (z : ℕ) (v : Holds l limit g clock clock_at s z) (now : ℕ) where
    abbrev pub Serves : Call → Type 0
    Serves c =
        Served l limit g clock clock_at (render limit g) (perform limit g (clock now) c (alone s))
          (serve g.cap per_token now c z)

    module _ (n : ℕ) (pos : 0 < n) (h : n < 2 ^ 32) (now_top : now + n * per_token ≤ 2 ^ 53)
        (end_top : z + n * per_token ≤ 2 ^ 53) where
      abbrev u : ℕ
      u = units limit g n

      abbrev z' : ℕ
      z' = caught_up g.cap now z + u

      now_small : now ≤ 2 ^ 53
      now_small = omega (arith, now_top)

      next_small : z' ≤ 2 ^ 53
      unfolding caught_up
      next_small = omega (arith, now_top, end_top)

      lend_within : u ≤ g.cap → lend g.cap u now z ≡ some (z', z' - now)
      unfolding lend
      lend_within within = rw (le→ltb g.cap u within) refl

      lend_over : g.cap < u → lend g.cap u now z ≡ none
      unfolding lend
      lend_over over = rw (lt→ltb g.cap u over) refl

      pub consume_with_borrow-Served : Serves (consume_with_borrow n)
      unfolding perform
      consume_with_borrow-Served =
          let outcome =
            consume_with_borrow-refines l s v.valid (clock now) limit g now z
              (clock_at now now_small) v.load_eq n (pos, h) now_top end_top in
          elim (dec_lt g.cap u) [
            | yes over ↦
                let e = lend_over over in
                rw e (record { cell = s; returns = rw (rw e at outcome, ◌>>=◌) refl; holds = v })
            | no within ↦
                let e = lend_within (omega (arith, within)) in
                rw e (record {
                  cell = t.store s (time limit g z');
                  returns = rw (rw e at outcome, ◌>>=◌) refl;
                  holds = store-Holds l limit g clock clock_at s z' next_small;
                })
          ]

      abbrev cut : ℕ
      cut = min_ℕ u g.cap

      abbrev z₁ : ℕ
      z₁ = caught_up g.cap now z + cut

      lend_part : lend g.cap cut now z ≡ some (z₁, z₁ - now)
      unfolding lend
      lend_part = ground arith

      pub saturating_consume_with_borrow-Served :
          0 < g.cap → HasDuration limit g (z₁ - now) → Serves (saturating_consume_with_borrow n)
      unfolding perform
      saturating_consume_with_borrow-Served holds_some told =
          let outcome =
            saturating_consume_with_borrow-refines l s v.valid (clock now) limit g now z
              (clock_at now now_small) v.load_eq n (pos, h) now_top end_top holds_some in
          let next = store-Holds l limit g clock clock_at s z₁ (omega (arith, next_small)) in
          rw lend_part (record {
            cell = t.store s (time limit g z₁);
            returns = elim (Bool-cases (z₁ - now == 0)) [
              | inl past ↦ rw (rw (lend_part, past) at outcome, ◌>>=◌, past) refl
              | inr ahead ↦
                  rw (rw (lend_part, ahead, told.1) at outcome, ◌>>=◌, ahead)
                    (ap
                      (λ d. some (
                        for_lent_part (some (in_tokens limit g cut), d),
                        alone (t.store s (time limit g z₁)),
                      ))
                      (in_duration_lem limit g (z₁ - now) told))
            ];
            holds = store-Holds l limit g clock clock_at s z₁ (omega (arith, next_small));
          })
