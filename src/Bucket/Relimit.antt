-- ===== src/Bucket/Relimit.antt =====
-- src/bucket.rs: what a change of limit keeps, where no step rounds.
use gardal.Prelude.{ℕ, ◌+◌, ◌-◌, ◌*◌, ◌^◌, ◌≤◌, ◌<◌, ◌≡◌, refl, sym, arith, some, true, false}
use Prim.Native.Nat.{min as min_ℕ}
use native.Mathlib.Decide.{dec_lt}
use mathlib.Core.Path.{subst}
use gardal.Float.Value.{F64, fin, sub, div, neg, min, IsF64}
use gardal.Float.Grid.{sub-grid, add-grid, div-grid, min-grid}
use gardal.Clock.Source.{Clock}
use gardal.Limit.{Limit}
use gardal.Storage.Interface.{TimeStorage, IsStorage}
use gardal.Storage.Bucket.{balance_of}
use gardal.Storage.Alone.{alone, balance-alone}
use gardal.RawBucket
use gardal.RawBucket.Exact.{
  IsScale, time, tokens, time-IsF64, balance-exact, balance-debt, min-negative,
}
use gardal.Bucket
use gardal.Bucket.{TokenBucket, on_raw, update_limit}
use gardal.Bucket.Alone.{relimited, reset-update_limit}

module _ (limit : Limit) (g : IsScale limit) (now : ℕ) (top : now ≤ 2 ^ 53) where
  small : g.token_exp ≤ 2044
  small = omega (arith, g.token_small)

  -- The zero time at which the bucket has `v` units of tokens, or owes them.
  abbrev zero_for : F64 → F64
  zero_for have = sub (time limit g now) (div have limit.rate)

  zero_for-tokens : (v : ℕ) → v ≤ now → zero_for (tokens limit g v) ≡ time limit g (now - v)
  zero_for-tokens v h =
      let back =
        div-grid false v g.time_exp g.token_exp g.rate_exp g.balance (omega (arith, h, top))
          g.time_small in
      rw (g.rate_eq, back) (sub-grid g.time_exp g.time_small now v h top)

  zero_for-debt :
      (w : ℕ)
      → now + w ≤ 2 ^ 53
      → zero_for (fin true (w * 2 ^ g.token_exp)) ≡ time limit g (now + w)
  unfolding sub neg
  zero_for-debt w h =
      let ahead =
        div-grid true w g.time_exp g.token_exp g.rate_exp g.balance (omega (arith, h))
          g.time_small in
      rw (g.rate_eq, ahead) (add-grid g.time_exp g.time_small now w h)

  pub keeps_tokens :
      (v : ℕ)
      → v ≤ now
      → balance_of limit.rate limit.burst (time limit g now) (zero_for (tokens limit g v))
        ≡ min (tokens limit g v) limit.burst
  keeps_tokens v h =
      let same : now - (now - v) ≡ v = omega (arith, h) in
      rw
        (
          zero_for-tokens v h,
          balance-exact limit g now (now - v) (omega arith) top,
          g.burst_eq,
          same,
        )
        (sym (min-grid g.token_exp small v g.cap))

  pub keeps_debt :
      (w : ℕ)
      → 0 < w
      → now + w ≤ 2 ^ 53
      → balance_of limit.rate limit.burst
          (time limit g now)
          (zero_for (fin true (w * 2 ^ g.token_exp)))
        ≡ min (fin true (w * 2 ^ g.token_exp)) limit.burst
  keeps_debt w pos h =
      let same : now + w - now ≡ w = omega arith in
      rw
        (
          zero_for-debt w h,
          balance-debt limit g now (now + w) (omega (arith, pos)) h,
          g.burst_eq,
          same,
        )
        (sym (min-negative (w * 2 ^ g.token_exp) (g.cap * 2 ^ g.token_exp)))

  zero_for-IsF64 :
      (z : ℕ) (have : F64) → z ≤ 2 ^ 53 → zero_for have ≡ time limit g z → IsF64 (zero_for have)
  zero_for-IsF64 z have h e = rw e (time-IsF64 limit g z h)

  -- A balance at this time, of tokens that have come in since the epoch, or of a debt.
  pub record IsHeld (have : F64) : Type 0 where
    pub fits : IsF64 (zero_for have)
    pub kept :
        balance_of limit.rate limit.burst (time limit g now) (zero_for have) ≡ min have limit.burst

  pub tokens-IsHeld : (v : ℕ) → v ≤ now → IsHeld (tokens limit g v)
  tokens-IsHeld v h = record {
    fits = zero_for-IsF64 (now - v) (tokens limit g v) (omega (arith, top)) (zero_for-tokens v h);
    kept = keeps_tokens v h;
  }

  pub debt-IsHeld : (w : ℕ) → 0 < w → now + w ≤ 2 ^ 53 → IsHeld (fin true (w * 2 ^ g.token_exp))
  debt-IsHeld w pos h = record {
    fits = zero_for-IsF64 (now + w) (fin true (w * 2 ^ g.token_exp)) h (zero_for-debt w h);
    kept = keeps_debt w pos h;
  }

module _ {S C : Type 0} ⦃t : TimeStorage S⦄ ⦃k : Clock C⦄ (l : IsStorage S) (b : TokenBucket S C)
    (g : IsScale b.limit) (new_limit : Limit) (g' : IsScale new_limit)
    (same_tokens : g'.token_exp ≡ g.token_exp) (now z now' : ℕ)
    (now_eq : k.now b.clock ≡ time b.limit g now) (now_eq' : k.now b.clock ≡ time new_limit g' now')
    (zero_eq : t.load b.bucket ≡ time b.limit g z) (top : now ≤ 2 ^ 53) (top' : now' ≤ 2 ^ 53)
    (zero_top : z ≤ 2 ^ 53) (since : min_ℕ (now - z) g.cap ≤ now')
    (debt_top : now' + (z - now) ≤ 2 ^ 53) where
  abbrev have : F64
  have = balance_of b.limit.rate b.limit.burst (k.now b.clock) (t.load b.bucket)

  have-IsHeld : IsHeld new_limit g' now' top' have
  have-IsHeld = elim (dec_lt now z) [
    | yes debt ↦
        let e : have ≡ fin true ((z - now) * 2 ^ g'.token_exp) =
          rw (now_eq, zero_eq, same_tokens) (balance-debt b.limit g now z debt zero_top) in
        subst (IsHeld new_limit g' now' top') (sym e)
          (debt-IsHeld new_limit g' now' top' (z - now) (omega (arith, debt)) debt_top)
    | no past ↦
        let e : have ≡ tokens new_limit g' (min_ℕ (now - z) g.cap) =
          rw (now_eq, zero_eq, same_tokens)
            (balance-exact b.limit g now z (omega (arith, past)) top) in
        subst (IsHeld new_limit g' now' top') (sym e)
          (tokens-IsHeld new_limit g' now' top' (min_ℕ (now - z) g.cap) since)
  ]

  -- For a bucket that no other thread touches, under an old and a new limit that count the same units of
  -- tokens, with rates that are powers of two and a time and a zero time of at most 2^53 units, where
  -- the tokens that are there could have come in since the epoch under the new rate: `update_limit`
  -- keeps the balance to the bit, debts too, and cuts it only at the new burst.
  pub update_limit-keeps :
      let b' = relimited b new_limit in
      (Bucket.balance (alone b) ≡ some (have, alone b))
      × (update_limit new_limit (alone b) ≡ some (tt, alone b'))
      × (Bucket.balance (alone b') ≡ some (min have new_limit.burst, alone b'))
  unfolding Bucket.balance RawBucket.balance on_raw
  update_limit-keeps =
      let held = have-IsHeld in
      let fits = subst (λ at. IsF64 (sub at (div have new_limit.rate))) (sym now_eq') held.fits in
      let kept =
        subst
          (λ at.
            balance_of new_limit.rate new_limit.burst at (sub at (div have new_limit.rate))
            ≡ min have new_limit.burst)
          (sym now_eq') held.kept in
      let b' = relimited b new_limit in
      let loaded = l.load-store b.bucket (sub (k.now b.clock) (div have new_limit.rate)) fits in
      (
        rw (balance-alone b.limit.rate b.limit.burst (k.now b.clock) b.bucket, on_raw) refl,
        (reset-update_limit b new_limit).1,
        rw (balance-alone new_limit.rate new_limit.burst (k.now b.clock) b'.bucket, on_raw)
            (rw (loaded, kept) refl),
      )
