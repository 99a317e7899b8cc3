-- ===== src/Stream/Pays.antt =====
-- src/futures/stream.rs: paying for an item as a move of a client, where no step rounds.
use gardal.Prelude.{
  ℕ, ◌+◌, ◌-◌, ◌*◌, ◌^◌, ◌≤◌, ◌<◌, ◌≡◌, inl, inr, refl, ap, ◌∙◌, arith, true, none, some, [],
  pos→==, lt→ltb,
}
use Prim.Native.Nat.{max}
use native.Mathlib.Nat.{add-mul}
use native.Mathlib.Decide.{dec_lt}
use gardal.Float.Value.{lt, of_int}
use gardal.Float.Duration.{Duration}
use gardal.Clock.Source.{Clock}
use gardal.Ideal.{caught_up}
use gardal.Ideal.Ledger.{pays, borrows}
use gardal.Storage.Interface.{TimeStorage}
use gardal.RawBucket.Pricing.{burst_test}
use gardal.RawBucket.Held.{Holds, store-Holds}
use gardal.Bucket.{TokenBucket}
use gardal.Stream.{InnerStream, Runtime, postpone, pay}
use gardal.Stream.Waits.{over_burst}
use gardal.Stream.Delay.{to_duration-exact}
use gardal.Stream.Charge.{charge}
use gardal.Stream.Pace.{Setting}
use gardal.Stream.Weigh.{weight}
use gardal.Stream.Client.{Moved, polling}

module _ {S ST C D X Item : Type 0} ⦃t : TimeStorage ST⦄ ⦃k : Clock C⦄ ⦃i : InnerStream S Item X⦄
    ⦃r : Runtime X D⦄ (o : Setting S ST C D X Item) where
  open o use {
    l, limit, g, clock, clock_at, timed, inner_at, per_unit, per_unit_pos, whole, f, f-IsNonZeroU32,
  }

  module _ (now : ℕ) (now_top : now + g.cap ≤ 2 ^ 53) (s : ST) (z : ℕ)
      (v : Holds l limit g clock clock_at s z) where
    module _ (str : S) (x : Item) (cx : X) (time_ge : now * per_unit ≤ timed.nanos_at cx)
        (z_top : z + g.cap ≤ 2 ^ 53) where
      abbrev u : ℕ
      u = weight o x

      abbrev z' : ℕ
      z' = max z (now - g.cap) + u

      abbrev bucket : TokenBucket ST C
      bucket = record { bucket = s; clock = clock now; limit = limit }

      small : u ≤ g.cap → z' ≤ 2 ^ 53
      small fits = omega (arith, fits, now_top, z_top)

      pay-Moved_within :
          u ≤ g.cap → Moved o now z none (pay bucket x (polling o str s now none none cx))
      unfolding pay postpone caught_up
      pay-Moved_within fits =
          let outcome =
            charge l limit g clock clock_at now s z v (f x) (f-IsNonZeroU32 x) fits
              (omega (arith, fits, now_top)) (omega (arith, fits, z_top)) in
          let stored = store-Holds l limit g clock clock_at s z' (small fits) in
          elim (dec_lt now z') [
            | no covered ↦
                let no_nap : z' - now ≡ 0 = omega (arith, covered) in
                rw (outcome, no_nap, pay)
                  (
                    refl,
                    none,
                    z',
                    pays u fits refl (omega arith) refl refl (omega (arith, covered)),
                    refl,
                    stored,
                  )
            | yes owing ↦
                let nap : 0 < z' - now = omega (arith, owing) in
                let span : z' * per_unit ≡ now * per_unit + (z' - now) * per_unit =
                  ap (λ a. a * per_unit) (omega (arith, owing)) ∙ add-mul now (z' - now) per_unit in
                elim (to_duration-exact limit g per_unit whole (z' - now)
                  (omega (arith, small fits))) [
                    | inl too_long ↦ rw (outcome, pos→== (z' - now) nap, pay) (rw too_long tt)
                    | inr long ↦
                        let d : Duration = record { nanos = (z' - now) * per_unit } in
                        let due : z' * per_unit ≤ timed.due (r.sleep d cx) =
                          omega (arith, span, timed.sleep_due d cx, time_ge) in
                        rw (outcome, pos→== (z' - now) nap, pay)
                          (rw long (
                            refl,
                            some (u, z'),
                            z',
                            borrows u fits refl refl refl refl,
                            (refl, refl, due),
                            stored,
                          ))
                  ]
          ]

      pub pay-Moved : Moved o now z none (pay bucket x (polling o str s now none none cx))
      unfolding pay
      pay-Moved = elim (dec_lt g.cap u) [
        | yes over ↦
            let few : f x ≤ 2 ^ 53 = omega (arith, (f-IsNonZeroU32 x).1) in
            let heavy : lt limit.burst (of_int (f x)) ≡ true =
              burst_test limit g (f x) few ∙ lt→ltb g.cap u over in
            rw (over_burst bucket [] (f x) heavy, pay) tt
        | no within ↦ pay-Moved_within (omega (arith, within))
      ]
