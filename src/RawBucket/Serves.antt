-- ===== src/RawBucket/Serves.antt =====
-- src/raw_bucket.rs: each call of a run, where no step rounds.
use gardal.Prelude.{
  ℕ, ◌+◌, ◌-◌, ◌*◌, ◌^◌, ◌≤◌, ◌<◌, ◌≡◌, refl, ap, arith, ◌==◌, none, some, inl, inr, Bool-cases, ok,
}
use Prim.Native.Nat.{min as min_ℕ}
use native.Mathlib.Decide.{dec_le}
use gardal.Clock.Source.{Clock}
use gardal.Tokens
use gardal.Tokens.{Tokens}
use gardal.Limit.{Limit}
use gardal.Ideal.{caught_up, take, level}
use gardal.Ideal.Session.{
  Call, consume, try_consume, saturating_consume, consume_with_borrow,
  saturating_consume_with_borrow, add_tokens, available, IsSmall,
}
use gardal.Storage.Interface.{TimeStorage, IsStorage, ◌>>=◌}
use gardal.Storage.Alone.{alone}
use gardal.RawBucket.Exact.{IsScale, units, time, of_int-units}
use gardal.RawBucket.Refines.{consume-refines}
use gardal.RawBucket.Retry.{refuses, estimate-ahead}
use gardal.RawBucket.Levels.{
  available-level, add_tokens-level, saturating_consume-level, try_consume-given,
}
use gardal.RawBucket.Held.{Holds, store-Holds}
use gardal.RawBucket.Loans.{
  Serves, consume_with_borrow-Served, saturating_consume_with_borrow-Served,
}
use gardal.RawBucket.Session.{HasDuration, for_taken, for_tried, perform, in_tokens}

module _ {S C : Type 0} ⦃t : TimeStorage S⦄ ⦃k : Clock C⦄ (l : IsStorage S) (limit : Limit)
    (g : IsScale limit) (clock : ℕ → C)
    (clock_at : (a : ℕ) → a ≤ 2 ^ 53 → k.now (clock a) ≡ time limit g a) where
  abbrev per_token : ℕ
  per_token = 2 ^ (1074 - g.token_exp)

  given-tokens : (n : ℕ) → n ≤ 2 ^ 53 → Tokens.new n ≡ in_tokens limit g (units limit g n)
  unfolding Tokens.new
  given-tokens n h = ap Tokens.new_unchecked (of_int-units limit g n h)

  module _ (s : S) (z : ℕ) (v : Holds l limit g clock clock_at s z) (now : ℕ) where
    module _ (n : ℕ) (pos : 0 < n) (h : n < 2 ^ 32) (now_top : now + n * per_token ≤ 2 ^ 53)
        (end_top : z + n * per_token ≤ 2 ^ 53) where
      abbrev u : ℕ
      u = units limit g n

      abbrev z' : ℕ
      z' = caught_up g.cap now z + u

      now_small : now ≤ 2 ^ 53
      now_small = omega (arith, now_top)

      few : n ≤ 2 ^ 53
      few = omega (arith, h)

      next_small : z' ≤ 2 ^ 53
      unfolding caught_up
      next_small = omega (arith, now_top, end_top)

      take_fits : z' ≤ now → take g.cap u now z ≡ some z'
      unfolding take
      take_fits fits = ground arith

      take_late : now < z' → take g.cap u now z ≡ none
      unfolding take
      take_late late = ground arith

      past_zero : u ≤ g.cap → now < z' → now < z + u
      unfolding caught_up
      past_zero within late = omega (arith, within, late)

      consume-Served : Serves l limit g clock clock_at s z v now (consume n)
      unfolding perform
      consume-Served =
          let outcome =
            consume-refines l s v.valid (clock now) limit g now z (clock_at now now_small) now_small
              v.load_eq v.small n (pos, h) in
          elim (dec_le z' now) [
            | yes fits ↦
                let e = take_fits fits in
                rw e (record {
                  cell = t.store s (time limit g z');
                  returns =
                      rw (rw e at outcome, ◌>>=◌)
                        (ap (λ x. some (for_taken (some x), alone (t.store s (time limit g z'))))
                          (given-tokens n few));
                  holds = store-Holds l limit g clock clock_at s z' next_small;
                })
            | no late ↦
                let e = take_late (omega (arith, late)) in
                rw e (record { cell = s; returns = rw (rw e at outcome, ◌>>=◌) refl; holds = v })
          ]

      try_consume-Served : u ≤ g.cap → Serves l limit g clock clock_at s z v now (try_consume n)
      unfolding perform
      try_consume-Served within =
          let at_now = clock_at now now_small in
          elim (dec_le z' now) [
            | yes fits ↦
                let outcome =
                  try_consume-given l s v.valid (clock now) limit g now z at_now now_small v.load_eq
                    v.small n (pos, h) fits in
                rw (take_fits fits) (record {
                  cell = t.store s (time limit g z');
                  returns =
                      rw (outcome, ◌>>=◌)
                        (ap (λ x. some (for_tried (ok x), alone (t.store s (time limit g z'))))
                          (given-tokens n few));
                  holds = store-Holds l limit g clock clock_at s z' next_small;
                })
            | no late ↦
                let refused : now < z' = omega (arith, late) in
                let ahead : now < z + u = past_zero within refused in
                let wait = estimate-ahead limit g now z n few now_small end_top ahead in
                let outcome =
                  refuses l s v.valid (clock now) limit g now z at_now now_small v.load_eq n
                    (pos, h) end_top refused _ wait in
                rw (take_late refused)
                  (record { cell = s; returns = rw (outcome, ◌>>=◌) refl; holds = v })
          ]

      saturating_consume-Served : Serves l limit g clock clock_at s z v now (saturating_consume n)
      unfolding perform
      saturating_consume-Served =
          let a = min_ℕ (level g.cap now z) u in
          let outcome =
            saturating_consume-level l s v.valid (clock now) limit g now z (clock_at now now_small)
              now_small v.load_eq v.small n (pos, h) in
          elim (Bool-cases (a == 0)) [
            | inl e ↦
                rw e (record { cell = s; returns = rw (rw e at outcome, ◌>>=◌) refl; holds = v })
            | inr e ↦ rw e (record {
              cell = t.store s (time limit g (caught_up g.cap now z + a));
              returns = rw (rw e at outcome, ◌>>=◌) refl;
              holds =
                  store-Holds l limit g clock clock_at s (caught_up g.cap now z + a)
                    (omega (arith, next_small));
            })
          ]

    pub call-Served :
        (c : Call)
        → IsSmall g.cap per_token (HasDuration limit g) now c z
        → Serves l limit g clock clock_at s z v now c
    unfolding perform
    call-Served (consume n) (pos, h, a, b) = consume-Served n pos h a b
    call-Served (try_consume n) ((pos, h, a, b), within) = try_consume-Served n pos h a b within
    call-Served (saturating_consume n) (pos, h, a, b) = saturating_consume-Served n pos h a b
    call-Served (consume_with_borrow n) (pos, h, a, b) =
        consume_with_borrow-Served l limit g clock clock_at s z v now n pos h a b
    call-Served (saturating_consume_with_borrow n) ((pos, h, a, b), holds_some, told) =
        saturating_consume_with_borrow-Served l limit g clock clock_at s z v now n pos h a b
          holds_some told
    call-Served (add_tokens m) (top, some_back) = record {
      cell = t.store s (time limit g (z - m));
      returns =
          rw
            (
              add_tokens-level l s v.valid (clock now) limit g now z (clock_at now top) top
                  v.load_eq v.small m some_back,
              ◌>>=◌,
            )
            refl;
      holds = store-Holds l limit g clock clock_at s (z - m) (omega (arith, v.small));
    }
    call-Served available top = record {
      cell = s;
      returns =
          rw
            (
              available-level l s v.valid (clock now) limit g now z (clock_at now top) top v.load_eq
                  v.small,
              ◌>>=◌,
            )
            refl;
      holds = v;
    }
