-- ===== src/RawBucket/Takes.antt =====
-- src/raw_bucket.rs: what one round of the borrowing loop takes, whatever zero time it finds.
use gardal.Prelude.{ℕ, ◌<◌, ◌≡◌, refl, ◌∙◌, ◌⊎◌, inl, inr, true, false, arith, Bool-cases}
use gardal.Float.Value.{
  F64, nan, inf, fin, zero_f64, sub, div, eq, lt, lt_fin, min, max, is_nan, IsF64, IsRep,
}
use gardal.Float.Closed.{sub-IsF64, div-IsF64, mul-IsF64, min-IsF64, max-IsF64, zero-IsRep}
use gardal.Limit.{Limit}
use gardal.Storage.Progress.{Fits, result_of}
use gardal.Storage.Bucket.{balance_of, zero_time_new, consume_turn}
use gardal.RawBucket.{up_to}
use gardal.RawBucket.Amounts.{negative-not-pos, below_of_lt, up_to_none, up_to_part, up_to_all}

above_of_lt : (a : ℕ) → lt zero_f64 (fin false a) ≡ true → 0 < a
unfolding lt lt_fin
above_of_lt a h = ground arith

pub lt_of_below : (a m : ℕ) → a < m → lt (fin false a) (fin false m) ≡ true
unfolding lt lt_fin
lt_of_below a m h = ground arith

-- What a request for `m` units can get: nothing, all of it, or a part, which is the whole balance.
pub up_to-cases :
    (m : ℕ) (x : F64)
    → 0 < m
    → (eq (up_to (fin false m) x) zero_f64 ≡ true)
      ⊎ ((up_to (fin false m) x ≡ fin false m)
          ⊎ ((a : ℕ) × (x ≡ fin false a)
              × (0 < a)
              × (a < m)
              × (up_to (fin false m) x ≡ fin false a)))
unfolding up_to min max lt lt_fin eq is_nan
up_to-cases m nan pos = ground arith
up_to-cases m (inf s) pos = ground arith
up_to-cases m (fin true a) pos = inl (up_to_none m pos true a (negative-not-pos a))
up_to-cases m (fin false a) pos = elim (Bool-cases (lt zero_f64 (fin false a))) [
  | inr nothing ↦ inl (up_to_none m pos false a nothing)
  | inl there ↦ inr (elim (Bool-cases (lt (fin false a) (fin false m))) [
    | inr enough ↦ inl (up_to_all m pos false a there enough)
    | inl part ↦
        inr
          (a, refl, above_of_lt a there, below_of_lt a m part, up_to_part m pos false a there part)
  ])
]

-- The limit and the time are values of the format.
pub record IsInFormat (limit : Limit) (now : F64) : Type 0 where
  pub rate_fits : IsF64 limit.rate
  pub burst_fits : IsF64 limit.burst
  pub now_fits : IsF64 now

module _ (limit : Limit) (now : F64) (g : IsInFormat limit now) (m : ℕ) (pos : 0 < m)
    (fits : IsRep m) where
  up_to-IsF64 : (x : F64) → IsF64 x → IsF64 (up_to (fin false m) x)
  unfolding up_to
  up_to-IsF64 x h =
      min-IsF64 (max x zero_f64) (fin false m) (max-IsF64 x zero_f64 h zero-IsRep) fits

  balance_of-IsF64 : (z : F64) → IsF64 z → IsF64 (balance_of limit.rate limit.burst now z)
  unfolding balance_of
  balance_of-IsF64 z h =
      min-IsF64 _ limit.burst
        (mul-IsF64 (sub now z) limit.rate (sub-IsF64 now z g.now_fits h) g.rate_fits) g.burst_fits

  -- Every zero time that a round puts fits the format.
  pub consume_turn-Fits :
      (z : F64) → IsF64 z → Fits (consume_turn limit.rate limit.burst now (up_to (fin false m)) z)
  unfolding consume_turn zero_time_new
  consume_turn-Fits z h =
      let b = balance_of limit.rate limit.burst now z in
      let c = up_to (fin false m) b in
      let b_fits = balance_of-IsF64 z h in
      let new_fits = sub-IsF64 now (div (sub b c) limit.rate) g.now_fits (
        div-IsF64 (sub b c) limit.rate (sub-IsF64 b c b_fits (up_to-IsF64 b b_fits)) g.rate_fits) in
      elim (Bool-cases (eq c zero_f64)) [ inl e ↦ rw e tt | inr e ↦ rw e new_fits ]

  -- What a round takes, whatever zero time it finds: nothing, a part of the request, or all of it.
  pub taken :
      (z : F64) (c : F64)
      → c ≡ result_of (consume_turn limit.rate limit.burst now (up_to (fin false m)) z)
      → (c ≡ zero_f64) ⊎ ((c ≡ fin false m) ⊎ ((a : ℕ) × (0 < a) × (a < m) × (c ≡ fin false a)))
  unfolding consume_turn
  taken z c e =
      let b = balance_of limit.rate limit.burst now z in
      elim (Bool-cases (eq (up_to (fin false m) b) zero_f64)) [
        | inl nothing ↦ inl (e ∙ rw nothing)
        | inr some_there ↦ elim (up_to-cases m b pos) [
          | inl nothing ↦ inl (e ∙ ground arith)
          | inr (inl all) ↦ inr (inl (e ∙ rw (some_there, all)))
          | inr (inr (a, _, above, below, part)) ↦
              inr (inr (a, above, below, e ∙ rw (some_there, part)))
        ]
      ]
