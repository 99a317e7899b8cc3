-- ===== src/Stream/Delay.antt =====
-- src/clock.rs and src/futures/stream.rs: the length of a delay, where a unit of time is a whole number of
-- nanoseconds.
use gardal.Prelude.{
  ℕ, ◌*◌, ◌/◌, ◌%◌, ◌^◌, ◌≤◌, ◌<◌, ◌≡◌, ◌⊎◌, inl, inr, refl, sym, ap, ◌∙◌, none, some, ltb, lt→ltb,
  Bool-cases, pow-pos,
}
use native.Mathlib.Nat.{mul_assoc, mul-one, mul-mod_left, mul-div_cancel}
use gardal.Float.Value.{one}
use gardal.Float.Round.{nearest_at}
use gardal.Float.Exact.{nearest_at-exact}
use gardal.Float.Bits.{from_bits-to_bits}
use gardal.Float.Duration.{from_secs_f64, nanos_per_sec}
use gardal.Clock.Nanos.{to_duration, as_secs_f64, from_secs_f64_unchecked}
use gardal.Limit.{Limit}
use gardal.RawBucket.Exact.{IsScale, time, time-IsF64}
use gardal.RawBucket.Session.{in_seconds}

-- A unit of time has `nanos_per_unit` nanoseconds.
abbrev pub IsWholeNanos : (limit : Limit) → IsScale limit → ℕ → Type 0
IsWholeNanos limit g nanos_per_unit = nanos_per_unit * 2 ^ 1074 ≡ 2 ^ g.time_exp * nanos_per_sec

module _ (limit : Limit) (g : IsScale limit) (nanos_per_unit : ℕ)
    (whole : IsWholeNanos limit g nanos_per_unit) where
  rounded : (w : ℕ) → nearest_at 0 (w * 2 ^ g.time_exp * nanos_per_sec) one ≡ w * nanos_per_unit
  unfolding one
  rounded w =
      let n = w * 2 ^ g.time_exp * nanos_per_sec in
      let split : n ≡ w * nanos_per_unit * (2 ^ 1074 * 2 ^ 0) =
        mul_assoc w (2 ^ g.time_exp) nanos_per_sec
        ∙ ap (λ t. w * t) (sym whole)
        ∙ sym (mul_assoc w nanos_per_unit (2 ^ 1074)) in
      let divides : n % (2 ^ 1074 * 2 ^ 0) ≡ 0 =
        ap (λ t. t % (2 ^ 1074 * 2 ^ 0)) split
        ∙ mul-mod_left (w * nanos_per_unit) (2 ^ 1074 * 2 ^ 0) in
      nearest_at-exact 0 n (2 ^ 1074) (pow-pos 1074) divides
      ∙ ap (λ t. t / (2 ^ 1074 * 2 ^ 0) * 2 ^ 0) split
      ∙ ap (λ t. t * 2 ^ 0) (mul-div_cancel (w * nanos_per_unit) (pow-pos 1074))
      ∙ mul-one (w * nanos_per_unit)

  -- A wait of `w` units as a `Duration`, if it is not too long for one.
  pub to_duration-exact :
      (w : ℕ)
      → w ≤ 2 ^ 53
      → (to_duration (in_seconds limit g w) ≡ none)
        ⊎ (to_duration (in_seconds limit g w) ≡ some (record { nanos = w * nanos_per_unit }))
  unfolding to_duration as_secs_f64 from_secs_f64_unchecked from_secs_f64
  to_duration-exact w h =
      rw (from_bits-to_bits (time limit g w) (time-IsF64 limit g w h), rounded w)
        (elim (Bool-cases (ltb (w * nanos_per_unit) (2 ^ 64 * nanos_per_sec))) [
          | inl e ↦ rw e (inr refl)
          | inr e ↦ rw e (inl refl)
        ])

  -- A wait that is not too long for a `Duration`.
  pub to_duration-short :
      (w : ℕ)
      → w ≤ 2 ^ 53
      → w * nanos_per_unit < 2 ^ 64 * nanos_per_sec
      → to_duration (in_seconds limit g w) ≡ some (record { nanos = w * nanos_per_unit })
  unfolding to_duration as_secs_f64 from_secs_f64_unchecked from_secs_f64
  to_duration-short w h short =
      rw (from_bits-to_bits (time limit g w) (time-IsF64 limit g w h), rounded w)
        (rw (lt→ltb (w * nanos_per_unit) (2 ^ 64 * nanos_per_sec) short) refl)
