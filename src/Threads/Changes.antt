-- ===== src/Threads/Changes.antt =====
-- The loops of src/storage.rs as the raw bucket runs them: each of its calls is one or more of these
-- changes of the zero time. What one does where no step rounds.
use gardal.Prelude.{
  ℕ, ◌+◌, ◌-◌, ◌*◌, ◌^◌, ◌≤◌, ◌<◌, ◌≡◌, ◌⊎◌, refl, sym, ap, ◌∙◌, arith, true, false, ◌==◌, leb,
  Option, none, some, inl, inr, if◌then◌else◌, pos→==, pow-pos,
}
use Prim.Native.Nat.{min as min_ℕ}
use native.Mathlib.Nat.{mul-pos}
use native.Mathlib.Decide.{dec_lt, dec_le}
use gardal.Float.Value.{F64, zero_f64, of_int, neg, eq, IsF64}
use gardal.Float.Grid.{grid-IsRep, sub-grid, div-grid, min-grid}
use gardal.Float.Closed.{zero-IsRep, neg-IsF64, min-IsF64, max-IsF64, sub-IsF64, div-IsF64}
use gardal.Limit.{Limit}
use gardal.Ideal.{caught_up, take, level}
use gardal.Storage.Loop.{Turn, stop, swap}
use gardal.Storage.Bucket.{balance_of, consume_turn, return_turn}
use gardal.RawBucket.{all_or_nothing, up_to}
use gardal.RawBucket.Outcome.{IsNonZeroU32}
use gardal.RawBucket.Exact.{
  IsScale, units, of_int-units, balance-exact, zero_time_new-exact, time, tokens, time-IsF64,
  rate-IsF64, burst-IsF64,
}
use gardal.RawBucket.Amounts.{ne-zero_pos}
use gardal.RawBucket.Pricing.{zero_grid, ahead, clipped}
use gardal.RawBucket.Fit.{consume_turn-Fits}
use gardal.Threads.History.{IsFit}
use gardal.Threads.Quota.{Request, ask-given, ask-refused, ask-IsFit}

-- `consume` of `n` tokens; the round of a loop that takes a part of `r` units; a debt of `w` units; `m`
-- units that are returned.
pub data Change : Type 0 where
  take_all : ℕ → ℕ → Change
  take_part : ℕ → ℕ → Change
  owe : ℕ → Change
  give : ℕ → Change

eq_zero : eq zero_f64 zero_f64 ≡ true
unfolding eq
eq_zero = refl

module _ (limit : Limit) (g : IsScale limit) where
  abbrev pub apply : Change → F64 → Turn F64
  apply (take_all now n) =
      consume_turn limit.rate limit.burst (time limit g now) (all_or_nothing (of_int n))
  apply (take_part now r) =
      consume_turn limit.rate limit.burst (time limit g now) (up_to (tokens limit g r))
  apply (owe w) = return_turn (neg (tokens limit g w)) limit.rate
  apply (give m) = return_turn (tokens limit g m) limit.rate

  abbrev on_take : ℕ → ℕ → Option ℕ → ℕ × ℕ
  on_take u z none = (0, z)
  on_take u z (some z') = (u, z')

  -- What is handed out, and the zero time after it.
  abbrev pub ideal : Change → ℕ → ℕ × ℕ
  ideal (take_all now n) z = on_take (units limit g n) z (take g.cap (units limit g n) now z)
  ideal (take_part now r) z =
      let a = min_ℕ (level g.cap now z) r in
      if a == 0 then (0, z) else (a, caught_up g.cap now z + a)
  ideal (owe w) z = (w, z + w)
  ideal (give m) z = (0, z - m)

  -- The value that the change returns.
  abbrev pub shown : Change → ℕ × ℕ → F64
  shown (take_all now n) (a, z) = tokens limit g a
  shown (take_part now r) (a, z) = tokens limit g a
  shown (owe w) (a, z) = time limit g z
  shown (give m) (a, z) = time limit g z

  -- The numbers of a change are small.
  abbrev pub IsSound : ℕ → Change → Type 0
  IsSound first (take_all now n) = IsNonZeroU32 n × (first ≤ now) × (now ≤ 2 ^ 53)
  IsSound first (take_part now r) = (r ≤ 2 ^ 53) × (first ≤ now) × (now ≤ 2 ^ 53)
  IsSound first (owe w) = w ≤ 2 ^ 53
  IsSound first (give m) = m ≤ 2 ^ 53

  -- A debt comes where a burst is not yet lost, and no more is returned than has come in.
  abbrev pub FitsAt : ℕ → ℕ → Change → Type 0
  FitsAt first z (take_all now n) = Unit
  FitsAt first z (take_part now r) = Unit
  FitsAt first z (owe w) = (z + w ≤ 2 ^ 53) × (first ≤ z + g.cap)
  FitsAt first z (give m) = m ≤ z

  -- A round that returns `r` and leaves the zero time `z'`, from `z`.
  abbrev pub Does : Change → ℕ → F64 → ℕ → Type 0
  Does c z r z' =
      (apply c (time limit g z) ≡ swap r (time limit g z'))
      ⊎ ((apply c (time limit g z) ≡ stop r) × (z' ≡ z))

  owe-Does : (w z : ℕ) → z + w ≤ 2 ^ 53 → Does (owe w) z (time limit g (z + w)) (z + w)
  unfolding return_turn
  owe-Does w z h = inl (rw (ahead limit g z w h) refl)

  give-Does : (m z : ℕ) → m ≤ z → z ≤ 2 ^ 53 → Does (give m) z (time limit g (z - m)) (z - m)
  unfolding return_turn
  give-Does m z h top =
      let earned =
        div-grid false m g.time_exp g.token_exp g.rate_exp g.balance (omega (arith, h, top))
          g.time_small in
      inl (rw (g.rate_eq, earned, sub-grid g.time_exp g.time_small z m h top) refl)

  take_all-Does :
      (now n z : ℕ)
      → IsNonZeroU32 n
      → now ≤ 2 ^ 53
      → z ≤ 2 ^ 53
      → let q = ideal (take_all now n) z in Does (take_all now n) z (tokens limit g q.0) q.1
  unfolding take
  take_all-Does now n z h top z_top =
      let request : Request = record { now = now; amount = n } in
      elim (dec_le (caught_up g.cap now z + units limit g n) now) [
        | yes fits ↦
            let test : leb (caught_up g.cap now z + units limit g n) now ≡ true = ground arith in
            rw test (
              inl (
                rw (sym (of_int-units limit g n (omega (arith, h.1))))
                  (ask-given limit g request h top z fits)))
        | no late ↦
            let test : leb (caught_up g.cap now z + units limit g n) now ≡ false = ground arith in
            rw test (
              inr (
                rw (sym (zero_grid g.token_exp))
                    (ask-refused limit g request h top z (omega (arith, late)) z_top),
                refl,
              ))
      ]

  level-le : (now z : ℕ) → level g.cap now z ≤ now
  unfolding level
  level-le now z = omega arith

  balance-level :
      (now z : ℕ)
      → now ≤ 2 ^ 53
      → 0 < level g.cap now z
      → balance_of limit.rate limit.burst (time limit g now) (time limit g z)
        ≡ tokens limit g (level g.cap now z)
  unfolding level caught_up
  balance-level now z top h =
      let past : z ≤ now = omega (arith, h) in
      balance-exact limit g now z past top ∙ ap (tokens limit g) (omega (arith, past))

  next-time :
      (now z a : ℕ)
      → 0 < a
      → a ≤ level g.cap now z
      → now - (level g.cap now z - a) ≡ caught_up g.cap now z + a
  unfolding level caught_up
  next-time now z a pos h = omega (arith, pos, h)

  take_part-Does :
      (now r z : ℕ)
      → r ≤ 2 ^ 53
      → now ≤ 2 ^ 53
      → z ≤ 2 ^ 53
      → let q = ideal (take_part now r) z in Does (take_part now r) z (tokens limit g q.0) q.1
  unfolding consume_turn up_to
  take_part-Does now r z few top z_top =
      let there = level g.cap now z in
      let a = min_ℕ there r in
      let small : g.token_exp ≤ 2044 = omega (arith, g.token_small) in
      let clip = clipped limit g now z top z_top in
      let part = min-grid g.token_exp small there r in
      elim (dec_lt 0 a) [
        | yes some_there ↦
            let bal = balance-level now z top (omega (arith, some_there)) in
            let nonzero =
              ne-zero_pos (a * 2 ^ g.token_exp) (mul-pos some_there (pow-pos g.token_exp)) in
            let room : now - there ≤ now = omega arith in
            let moved =
              zero_time_new-exact limit g now there a (omega arith) (level-le now z) top in
            rw (pos→== a some_there) (
              inl (
                rw (clip, part, nonzero, bal, moved)
                  (ap (λ y. swap (tokens limit g a) (time limit g y))
                    (next-time now z a some_there (omega arith)))))
        | no nothing ↦
            let none_left : a ≡ 0 = omega (arith, nothing) in
            rw none_left
              (inr (rw (clip, part, none_left, sym (zero_grid g.token_exp), eq_zero) refl, refl))
      ]

  -- The result and the zero time of each change are the ideal ones.
  pub change-Does :
      (first : ℕ) (c : Change) (z : ℕ)
      → IsSound first c
      → FitsAt first z c
      → z ≤ 2 ^ 53
      → let q = ideal c z in Does c z (shown c q) q.1
  change-Does first (take_all now n) z (h, _, top) fits z_top = take_all-Does now n z h top z_top
  change-Does first (take_part now r) z (few, _, top) fits z_top =
      take_part-Does now r z few top z_top
  change-Does first (owe w) z h fits z_top = owe-Does w z fits.0
  change-Does first (give m) z h fits z_top = give-Does m z fits z_top

  tokens-IsF64 : (a : ℕ) → a ≤ 2 ^ 53 → IsF64 (tokens limit g a)
  tokens-IsF64 a h = grid-IsRep g.token_exp a (omega (arith, g.token_small)) h

  pub apply-IsFit : (first : ℕ) (c : Change) → IsSound first c → IsFit apply c
  unfolding up_to return_turn
  apply-IsFit first (take_all now n) (h, _, top) z fits =
      ask-IsFit limit g (record { now = now; amount = n }) h top z fits
  apply-IsFit first (take_part now r) (few, _, top) z fits =
      consume_turn-Fits limit.rate limit.burst (time limit g now) (rate-IsF64 limit g)
        (burst-IsF64 limit g) (time-IsF64 limit g now top) (up_to (tokens limit g r))
        (λ a h. min-IsF64 _ _ (max-IsF64 a zero_f64 h zero-IsRep) (tokens-IsF64 r few)) z fits
  apply-IsFit first (owe w) h z fits =
      sub-IsF64 _ _ fits (div-IsF64 _ _ (neg-IsF64 _ (tokens-IsF64 w h)) (rate-IsF64 limit g))
  apply-IsFit first (give m) h z fits =
      sub-IsF64 _ _ fits (div-IsF64 _ _ (tokens-IsF64 m h) (rate-IsF64 limit g))
