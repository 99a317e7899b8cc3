-- ===== src/RawBucket/Fit.antt =====
-- src/raw_bucket.rs: what a round of a consumption takes and puts is a double.
use gardal.Prelude.{ℕ, ◌^◌, ◌≤◌, arith, inl, inr, Bool-cases}
use gardal.Float.Value.{F64, zero_f64, eq, lt, of_int, IsF64}
use gardal.Float.Closed.{sub-IsF64, div-IsF64, mul-IsF64, min-IsF64, zero-IsRep, of_int-IsF64}
use gardal.Storage.Progress.{Fits}
use gardal.Storage.Bucket.{balance_of, zero_time_new, consume_turn}
use gardal.RawBucket.{all_or_nothing}

module _ (rate burst now : F64) (rate_fits : IsF64 rate) (burst_fits : IsF64 burst)
    (now_fits : IsF64 now) (f : F64 → F64) (closed : (a : F64) → IsF64 a → IsF64 (f a)) where
  pub consume_turn-Fits : (z : F64) → IsF64 z → Fits (consume_turn rate burst now f z)
  unfolding consume_turn balance_of zero_time_new
  consume_turn-Fits z fits =
      let have = balance_of rate burst now z in
      let have_fits : IsF64 have =
        min-IsF64 _ _ (mul-IsF64 _ _ (sub-IsF64 _ _ now_fits fits) rate_fits) burst_fits in
      elim (Bool-cases (eq (f have) zero_f64)) [
        | inl e ↦ rw e tt
        | inr e ↦ rw e (
            sub-IsF64 _ _ now_fits
              (div-IsF64 _ _ (sub-IsF64 _ _ have_fits (closed have have_fits)) rate_fits))
      ]

pub all_or_nothing-IsF64 : (n : ℕ) (a : F64) → n ≤ 2 ^ 53 → IsF64 (all_or_nothing (of_int n) a)
unfolding all_or_nothing
all_or_nothing-IsF64 n a h = elim (Bool-cases (lt a (of_int n))) [
  | inl e ↦ rw e zero-IsRep
  | inr e ↦ rw e (of_int-IsF64 n (omega (arith, h)))
]
