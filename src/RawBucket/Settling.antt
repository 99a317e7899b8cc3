-- ===== src/RawBucket/Settling.antt =====
-- src/raw_bucket.rs: what a request for `u` units costs that may go into debt, where no step rounds.
use gardal.Prelude.{
  ℕ, ◌+◌, ◌-◌, ◌*◌, ◌^◌, ◌≤◌, ◌<◌, ◌≡◌, refl, ap, ◌∙◌, arith, Bool, true, false, ◌==◌, Option, none,
  some, if◌then◌else◌, pow-pos, le→ltb, lt→ltb, pos→==,
}
use Prim.Native.Nat.{min as min_ℕ}
use native.Mathlib.Nat.{mul-pos}
use native.Mathlib.Decide.{dec_lt}
use gardal.Float.Value.{F64, fin, zero_f64, neg, sub, div, lt}
use gardal.Float.Grid.{sub-grid, lt-grid, grid-IsRep}
use gardal.Clock.Source.{Clock}
use gardal.Limit.{Limit}
use gardal.Ideal.{caught_up, level}
use gardal.Storage.Interface.{TimeStorage, World, IsStorage}
use gardal.Storage.Bucket.{zero_time_new}
use gardal.Storage.Alone.{alone}
use gardal.RawBucket
use gardal.RawBucket.Amounts.{zero-lt_pos}
use gardal.RawBucket.Outcome.{avail}
use gardal.RawBucket.Borrow.{IsRegular}
use gardal.RawBucket.Debt.{owing, settled, consume_or_borrow-settled}
use gardal.RawBucket.Exact.{IsScale, time, tokens, balance-exact, balance-debt, zero_time_new-exact}
use gardal.RawBucket.Pricing.{no_balance, token_small, ahead, nap-exact, regular}

module _ {S C : Type 0} ⦃t : TimeStorage S⦄ ⦃k : Clock C⦄ (l : IsStorage S) (s : S)
    (v : l.IsValid s) (clock : C) (limit : Limit) (g : IsScale limit) (now z : ℕ)
    (now_eq : k.now clock ≡ time limit g now) (zero_eq : t.load s ≡ time limit g z) (u : ℕ)
    (u-pos : 0 < u) (within : u ≤ g.cap) (now_top : now + u ≤ 2 ^ 53)
    (zero_top : z + u ≤ 2 ^ 53) where
  abbrev z' : ℕ
  z' = caught_up g.cap now z + u

  -- The bucket at the ideal bucket's zero time, and the wait until then.
  abbrev pub paid_until : ℕ → Option (Option F64 × World S)
  paid_until y = some (
    if y - now == 0 then none else some (time limit g (y - now)),
    alone (t.store s (time limit g y)),
  )

  fit : IsRegular limit (k.now clock)
  fit = regular limit g now (k.now clock) now_eq (omega (arith, now_top))

  owing-exact :
      (y : ℕ) → now < y → y ≤ 2 ^ 53 → owing l clock limit s v (time limit g y) ≡ paid_until y
  owing-exact y later top =
      let pos : 0 < y - now = omega (arith, later) in
      rw (now_eq, nap-exact limit g l now y (omega (arith, later)) top, pos→== (y - now) pos) refl

  -- Some of the tokens are there, or all of them.
  settled-ahead : z < now → settled l clock limit s v (tokens limit g u) ≡ paid_until z'
  unfolding caught_up settled
  settled-ahead past =
      let have = min_ℕ (now - z) g.cap in
      let some_there : 0 < have = omega (arith, past, within, u-pos) in
      let bal = balance-exact limit g now z (omega (arith, past)) (omega (arith, now_top)) in
      let bal_here : avail l s v clock limit ≡ tokens limit g have = rw (now_eq, zero_eq) bal in
      let there : lt zero_f64 (tokens limit g have) ≡ true =
        zero-lt_pos (have * 2 ^ g.token_exp) (mul-pos some_there (pow-pos g.token_exp)) in
      let test = lt-grid g.token_exp (token_small limit g) have u in
      rw (bal_here, there)
        (elim (dec_lt have u) [
          | yes short ↦
              let left =
                sub-grid g.token_exp (token_small limit g) u have (omega (arith, short))
                  (omega (arith, now_top)) in
              let there_at : now + (u - have) ≡ z' = omega (arith, past, within, short) in
              let moved : sub (k.now clock)
                    (div (neg (sub (tokens limit g u) (tokens limit g have))) limit.rate)
                  ≡ time limit g z' =
                rw (now_eq, left)
                  (ahead limit g now (u - have) (omega (arith, now_top))
                    ∙ ap (time limit g) there_at) in
              rw (test ∙ lt→ltb have u short, moved)
                (owing-exact z' (omega (arith, past, short)) (omega (arith, now_top, zero_top)))
          | no enough ↦
              let covers : u ≤ have = omega (arith, enough) in
              let there_at : now - (have - u) ≡ z' = omega (arith, past, within, covers) in
              let moved : zero_time_new limit.rate (k.now clock) (tokens limit g have)
                    (tokens limit g u)
                  ≡ time limit g z' =
                rw now_eq (
                  zero_time_new-exact limit g now have u covers (omega arith)
                    (omega (arith, now_top))
                  ∙ ap (time limit g) there_at) in
              let paid : z' - now ≡ 0 = omega (arith, past, covers) in
              rw (test ∙ le→ltb have u covers, moved, paid) refl
        ])

  empty : now ≤ z → level g.cap now z ≡ 0
  unfolding level caught_up
  empty h = omega (arith, h)

  settled-behind : now ≤ z → settled l clock limit s v (tokens limit g u) ≡ paid_until z'
  unfolding caught_up settled
  settled-behind debt =
      let (sign, a, bal, nothing) =
        no_balance limit g now z (omega (arith, now_top)) (omega (arith, zero_top)) (empty debt) in
      let bal_here : avail l s v clock limit ≡ fin sign a = rw (now_eq, zero_eq) bal in
      let there_at : z + u ≡ z' = omega (arith, debt) in
      let moved : sub (t.load s) (div (neg (tokens limit g u)) limit.rate) ≡ time limit g z' =
        rw zero_eq (ahead limit g z u zero_top ∙ ap (time limit g) there_at) in
      rw (bal_here, nothing, moved)
        (owing-exact z' (omega (arith, debt, u-pos)) (omega (arith, now_top, zero_top)))

  avail-finite : (sign : Bool) × (a : ℕ) × (avail l s v clock limit ≡ fin sign a)
  avail-finite = elim (dec_lt now z) [
    | yes debt ↦ (
      true,
      (z - now) * 2 ^ g.token_exp,
      rw (now_eq, zero_eq) (balance-debt limit g now z debt (omega (arith, zero_top))),
    )
    | no past ↦ (
      false,
      min_ℕ (now - z) g.cap * 2 ^ g.token_exp,
      rw (now_eq, zero_eq)
          (balance-exact limit g now z (omega (arith, past)) (omega (arith, now_top))),
    )
  ]

  -- A request for 1 to a burst of units moves the zero time on by `u`, in one step or in two, and is to
  -- be waited for until then.
  pub consume_or_borrow-exact :
      RawBucket.consume_or_borrow (tokens limit g u) (k.now clock) limit (alone s) ≡ paid_until z'
  consume_or_borrow-exact =
      let (sign, a, finite) = avail-finite in
      let positive : 0 < u * 2 ^ g.token_exp = mul-pos u-pos (pow-pos g.token_exp) in
      let fits = grid-IsRep g.token_exp u (token_small limit g) (omega (arith, now_top)) in
      consume_or_borrow-settled l clock limit s v fit (u * 2 ^ g.token_exp) positive fits sign a
        finite
      ∙ elim (dec_lt z now) [
        | yes past ↦ settled-ahead past
        | no debt ↦ settled-behind (omega (arith, debt))
      ]
