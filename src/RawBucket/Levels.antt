-- ===== src/RawBucket/Levels.antt =====
-- src/raw_bucket.rs: `saturating_consume`, `available`, `add_tokens` and the grants of `try_consume`
-- against the ideal bucket, where no step rounds.
use gardal.Prelude.{
  ℕ, ◌+◌, ◌-◌, ◌*◌, ◌^◌, ◌≤◌, ◌<◌, ◌≡◌, refl, sym, ap, ◌∙◌, arith, true, false, ltb, ◌==◌, Option,
  none, some, if◌then◌else◌, ok, pow-pos, le→ltb, lt→ltb, pos→==,
}
use Prim.Native.Nat.{min as min_ℕ, max as max_ℕ}
use native.Mathlib.Nat.{mul-pos}
use native.Mathlib.Decide.{dec_lt}
use mathlib.Core.Path.{subst}
use gardal.Float.Value.{zero_f64, of_int, lt, IsF64}
use gardal.Float.Grid.{sub-grid, lt-grid, div-grid}
use gardal.Clock.Source.{Clock}
use gardal.Tokens
use gardal.Tokens.{Tokens}
use gardal.Limit.{Limit}
use gardal.Ideal.{caught_up, level}
use gardal.Storage.Interface.{TimeStorage, World, IsStorage, ◌>>=◌}
use gardal.Storage.Bucket.{zero_time_new}
use gardal.Storage.Alone.{alone, balance-alone, return_tokens-alone}
use gardal.RawBucket
use gardal.RawBucket.Outcome.{IsNonZeroU32, avail}
use gardal.RawBucket.Amounts.{zero-lt_pos}
use gardal.RawBucket.Borrow.{IsRegular}
use gardal.RawBucket.Saturating.{saturating_consume_outcome}
use gardal.RawBucket.Refusal.{try_consume_outcome}
use gardal.RawBucket.Pricing.{clipped, no_balance, token_small, regular}
use gardal.RawBucket.Exact.{
  IsScale, units, time, tokens, of_int-units, time-IsF64, rate-IsF64, balance-exact,
  zero_time_new-exact, covered,
}

module _ {S C : Type 0} ⦃t : TimeStorage S⦄ ⦃k : Clock C⦄ (l : IsStorage S) (s : S)
    (v : l.IsValid s) (clock : C) (limit : Limit) (g : IsScale limit) (now z : ℕ)
    (now_eq : k.now clock ≡ time limit g now) (now_top : now ≤ 2 ^ 53)
    (zero_eq : t.load s ≡ time limit g z) (zero_top : z ≤ 2 ^ 53) where
  abbrev there : ℕ
  there = level g.cap now z

  pub available-level :
      RawBucket.available clock limit (alone s) ≡ some (tokens limit g there, alone s)
  unfolding RawBucket.available RawBucket.balance level caught_up
  available-level =
      rw (balance-alone limit.rate limit.burst (k.now clock) s, ◌>>=◌)
        (rw (now_eq, zero_eq, clipped limit g now z now_top zero_top) refl)

  pub add_tokens-level :
      (m : ℕ)
      → m ≤ z
      → RawBucket.add_tokens (tokens limit g m) limit (alone s)
        ≡ some (tt, alone (t.store s (time limit g (z - m))))
  unfolding RawBucket.add_tokens
  add_tokens-level m h =
      let earned =
        div-grid false m g.time_exp g.token_exp g.rate_exp g.balance (omega (arith, h, zero_top))
          g.time_small in
      rw (return_tokens-alone l s v (tokens limit g m) limit.rate, ◌>>=◌)
        (rw (zero_eq, g.rate_eq, earned, sub-grid g.time_exp g.time_small z m h zero_top) refl)

  module _ (n : ℕ) (h : IsNonZeroU32 n) where
    abbrev u : ℕ
    u = units limit g n

    few : n ≤ 2 ^ 53
    few = omega (arith, h.1)

    -- A part of what is there, moved to where the zero time goes.
    moved :
        u ≤ there
        → zero_time_new limit.rate (k.now clock) (tokens limit g there) (of_int n)
          ≡ time limit g (caught_up g.cap now z + u)
    unfolding level caught_up
    moved enough =
        let to : now - (there - u) ≡ max_ℕ z (now - g.cap) + u =
          omega (arith, enough, mul-pos h.0 (pow-pos (1074 - g.token_exp))) in
        rw (now_eq, of_int-units limit g n few)
          (zero_time_new-exact limit g now there u enough (omega arith) now_top
            ∙ ap (time limit g) to)

    -- What `saturating_consume` gives: a number of units, if any.
    abbrev pub portion : ℕ → Option (Option Tokens × World S)
    portion a =
        if a == 0
        then some (none, alone s)
        else some (
          some (Tokens.new_unchecked (tokens limit g a)),
          alone (t.store s (time limit g (caught_up g.cap now z + a))),
        )

    pub saturating_consume-level :
        RawBucket.saturating_consume n clock limit (alone s) ≡ portion (min_ℕ there u)
    unfolding level caught_up Tokens.new
    saturating_consume-level = elim (dec_lt 0 there) [
      | no empty ↦
          let nothing_there : there ≡ 0 = omega (arith, empty) in
          let (sign, a, bal, nothing) = no_balance limit g now z now_top zero_top nothing_there in
          let none_left : min_ℕ there u ≡ 0 = omega (arith, nothing_there) in
          saturating_consume_outcome l clock limit fit s v sign a (rw (now_eq, zero_eq) bal) n h
          ∙ rw (now_eq, zero_eq, bal, nothing, none_left) refl
      | yes some_there ↦
          let past : z ≤ now = omega (arith, some_there) in
          let same : min_ℕ (now - z) g.cap ≡ there = omega (arith, past) in
          let bal = balance-exact limit g now z past now_top ∙ ap (tokens limit g) same in
          let bal_here : avail l s v clock limit ≡ tokens limit g there =
            rw (now_eq, zero_eq) bal in
          let positive : lt zero_f64 (tokens limit g there) ≡ true =
            zero-lt_pos (there * 2 ^ g.token_exp) (mul-pos some_there (pow-pos g.token_exp)) in
          saturating_consume_outcome l clock limit fit s v false (there * 2 ^ g.token_exp) bal_here
            n h
          ∙ rw (bal_here, positive)
              (elim (dec_lt there u) [
                | yes short ↦
                    let all : min_ℕ there u ≡ there = omega (arith, short) in
                    let ends : k.now clock ≡ time limit g (caught_up g.cap now z + there) =
                      now_eq ∙ ap (time limit g) (omega (arith, past, some_there)) in
                    rw (test, lt→ltb there u short, all, pos→== there some_there, ends) refl
                | no lots ↦
                    let enough : u ≤ there = omega (arith, lots) in
                    let all : min_ℕ there u ≡ u = omega (arith, lots) in
                    rw
                      (
                        test,
                        le→ltb there u enough,
                        moved enough,
                        of_int-units limit g n few,
                        all,
                        pos→== u u_pos,
                      )
                      refl
              ])
    ]
      where
        u_pos : 0 < u
        u_pos = mul-pos h.0 (pow-pos (1074 - g.token_exp))

        test : lt (tokens limit g there) (of_int n) ≡ ltb there u
        test = rw (of_int-units limit g n few) (lt-grid g.token_exp (token_small limit g) there u)

        fit : IsRegular limit (k.now clock)
        fit = regular limit g now (k.now clock) now_eq now_top

    pub try_consume-given :
        caught_up g.cap now z + u ≤ now
        → RawBucket.try_consume n clock limit (alone s)
          ≡ some (ok (Tokens.new n), alone (t.store s (time limit g (caught_up g.cap now z + u))))
    try_consume-given fits =
        let now_fits = subst IsF64 (sym now_eq) (time-IsF64 limit g now now_top) in
        let (enough, to) = covered limit g now z n few now_top fits in
        (try_consume_outcome l s v clock limit n h now_fits (rate-IsF64 limit g)).0
        ∙ rw (now_eq, zero_eq, enough, to) refl
