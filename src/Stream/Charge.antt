-- ===== src/Stream/Charge.antt =====
-- src/bucket.rs: `consume_with_borrow` of a bucket of a stream's own, where no step rounds.
use gardal.Prelude.{
  ℕ, ◌+◌, ◌-◌, ◌^◌, ◌≤◌, ◌≡◌, refl, arith, ◌==◌, none, some, [], ok, if◌then◌else◌, le→ltb,
}
use gardal.Clock.Source.{Clock}
use gardal.Limit.{Limit}
use gardal.Ideal.{caught_up, lend}
use gardal.Storage.Interface.{TimeStorage, IsStorage}
use gardal.RawBucket.Outcome.{IsNonZeroU32}
use gardal.RawBucket.Exact.{IsScale, units, time}
use gardal.RawBucket.Lending.{consume_with_borrow-refines}
use gardal.RawBucket.Session.{in_seconds}
use gardal.RawBucket.Held.{Holds}
use gardal.Bucket
use gardal.Bucket.{TokenBucket, on_raw}

module _ {ST C : Type 0} ⦃t : TimeStorage ST⦄ ⦃k : Clock C⦄ (l : IsStorage ST) (limit : Limit)
    (g : IsScale limit) (clock : ℕ → C)
    (clock_at : (a : ℕ) → a ≤ 2 ^ 53 → k.now (clock a) ≡ time limit g a) (now : ℕ) (s : ST) (z : ℕ)
    (v : Holds l limit g clock clock_at s z) (n : ℕ) where
  abbrev u : ℕ
  u = units limit g n

  abbrev bucket : TokenBucket ST C
  bucket = record { bucket = s; clock = clock now; limit = limit }

  lend_within :
      u ≤ g.cap
      → lend g.cap u now z ≡ some (caught_up g.cap now z + u, caught_up g.cap now z + u - now)
  unfolding lend
  lend_within fits = rw (le→ltb g.cap u fits) refl

  -- A request within the burst is paid or lent: the zero time moves as the ideal bucket's.
  pub charge :
      IsNonZeroU32 n
      → u ≤ g.cap
      → now + u ≤ 2 ^ 53
      → z + u ≤ 2 ^ 53
      → let z' = caught_up g.cap now z + u in
        Bucket.consume_with_borrow n (record { cell = bucket; env = [] })
        ≡ some (
          ok (if z' - now == 0 then none else some (in_seconds limit g (z' - now))),
          record { cell = record bucket { bucket = t.store s (time limit g z') }; env = [] },
        )
  unfolding Bucket.consume_with_borrow on_raw
  charge h fits now_top zero_top =
      let outcome =
        consume_with_borrow-refines l s v.valid (clock now) limit g now z
          (clock_at now (omega (arith, now_top))) v.load_eq n h now_top zero_top in
      rw (rw (lend_within fits) at outcome, on_raw) refl
