-- ===== src/RawBucket/Rounds.antt =====
-- src/raw_bucket.rs: the borrowing loop of `consume_with_borrow` among other threads, and its fuel.
use gardal.Prelude.{
  ℕ, zero, suc, ◌+◌, ◌-◌, ◌*◌, ◌^◌, ◌≤◌, ◌<◌, ◌≡◌, refl, ap, ◌∙◌, inl, inr, true, false, Option,
  none, some, List, [], ◌∷◌, length, arith, Bool-cases,
}
use gardal.Float.Value.{F64, fin, one, zero_f64, of_int, neg, eq, lt, IsF64, IsRep}
use gardal.Float.Closed.{sub-IsF64, div-IsF64, neg-IsF64}
use gardal.Float.Exact.{sub_self, of_int-exact, of_int-IsRep, one-pos}
use gardal.Float.Difference.{sub_below}
use gardal.Clock.Source.{Clock}
use native.Mathlib.Nat.{mul-pos}
use gardal.Limit.{Limit}
use gardal.Storage.Interface.{TimeStorage, World, Interference, IsAtomic, M, ◌>>=◌, pure, load}
use gardal.Storage.Linear.{IsBenign}
use gardal.Storage.Progress.{Fits, update-Progress}
use gardal.Storage.Bucket
use gardal.Storage.Bucket.{balance_of, zero_time_new, consume_turn, return_turn}
use gardal.RawBucket
use gardal.RawBucket.Takes.{up_to-cases, lt_of_below, IsInFormat, consume_turn-Fits, taken}
use gardal.Storage.Alone.{alone}
use gardal.RawBucket.Outcome.{IsNonZeroU32, avail, after, saturating_outcome}
use gardal.RawBucket.Borrow.{IsRegular, loop_part}
use gardal.RawBucket.{up_to}
use gardal.RawBucket.Amounts.{zero-lt_pos, not-zero-lt-zero, ne-zero_pos}

-- The operation comes to an end.
abbrev pub Returns : {A S : Type 0} → Option (A × World S) → Type 0
Returns none = ⊥
Returns (some _) = Unit

bind-Returns :
    {A B S : Type 0} (m : M S A) (f : A → B) (w : World S)
    → Returns (m w)
    → Returns ((m >>= λ a. pure (f a)) w)
bind-Returns {A} {B} {S} m f w h = go (m w) refl h
  where
    go : (o : Option (A × World S)) → m w ≡ o → Returns o → Returns ((m >>= λ a. pure (f a)) w)
    go (some x) e h = rw (e, ◌>>=◌) tt
    go none e h = elim h [ ]

module _ {S C : Type 0} ⦃t : TimeStorage S⦄ ⦃k : Clock C⦄ (l : IsAtomic S) (clock : C)
    (limit : Limit) (g : IsInFormat limit (k.now clock)) where
  abbrev now_of : F64
  now_of = k.now clock

  borrow-Returns :
      (debt : F64) (w : World S)
      → IsF64 debt
      → IsBenign w.env
      → l.IsValid w.cell
      → Returns (RawBucket.borrow debt now_of limit w)
  unfolding RawBucket.borrow Bucket.return_tokens Bucket.time_when_bucket return_turn load
  borrow-Returns debt w h b v =
      let fits : (z : F64) → IsF64 z → Fits (return_turn (neg debt) limit.rate z) =
        λ z f. sub-IsF64 z _ f (div-IsF64 (neg debt) limit.rate (neg-IsF64 debt h) g.rate_fits) in
      let p = update-Progress (return_turn (neg debt) limit.rate) l fits w b v in
      rw (p.returns, ◌>>=◌) tt

  -- One round: the loop is over after it, or goes on with less to take and less interference to come.
  round-Returns :
      (fuel m : ℕ) (w : World S)
      → 0 < m
      → IsRep m
      → IsBenign w.env
      → l.IsValid w.cell
      → ((d : ℕ) (w' : World S)
          → 0 < d
          → IsRep d
          → length w'.env ≤ length w.env - 1
          → IsBenign w'.env
          → l.IsValid w'.cell
          → Returns (RawBucket.borrow_loop (suc fuel) (fin false d) now_of limit w'))
      → Returns (RawBucket.borrow_loop (suc (suc fuel)) (fin false m) now_of limit w)
  unfolding RawBucket.borrow_loop RawBucket.saturating_consume_inner Bucket.consume
  round-Returns fuel m w pos fits b v next =
      let turn = consume_turn limit.rate limit.burst now_of (up_to (fin false m)) in
      let p = update-Progress turn l (consume_turn-Fits limit now_of g m pos fits) w b v in
      rw (zero-lt_pos m pos) (
        rw (p.returns, ◌>>=◌)
          (elim (taken limit now_of g m pos fits p.seen p.result p.decided) [
            | inl nothing ↦
                rw (nothing, not-zero-lt-zero)
                  (bind-Returns (RawBucket.borrow (fin false m) now_of limit) some p.after
                    (borrow-Returns (fin false m) p.after fits p.benign p.valid))
            | inr (inl all) ↦
                rw (all, zero-lt_pos m pos) (rw (sub_self false m, not-zero-lt-zero) tt)
            | inr (inr (a, above, below, part)) ↦
                let (d, d_pos, _, d_fits, d_eq) = sub_below m a below fits in
                rw (part, zero-lt_pos a above)
                  (rw d_eq (next d p.after d_pos d_fits p.shorter p.benign p.valid))
          ]))

module _ {S C : Type 0} ⦃t : TimeStorage S⦄ ⦃k : Clock C⦄ (l : IsAtomic S) (clock : C)
    (limit : Limit) (g : IsRegular limit (k.now clock)) (burst_fits : IsF64 limit.burst) where
  abbrev instant : F64
  instant = k.now clock

  in_format : IsInFormat limit instant
  in_format = record {
    rate_fits = rw g.rate_eq g.rate_fits;
    burst_fits = burst_fits;
    now_fits = rw g.now_eq g.now_fits;
  }

  module _ (m : ℕ) (pos : 0 < m) (s : S) (v : l.IsValid s) where
    abbrev at_hand : F64
    at_hand = up_to (fin false m) (avail l.storage s v clock limit)

    got_nothing :
        eq at_hand zero_f64 ≡ true
        → RawBucket.saturating_consume_inner (fin false m) instant limit (alone s)
          ≡ some (zero_f64, alone s)
    got_nothing h = saturating_outcome l.storage s v clock limit (fin false m) ∙ rw h

    got_all :
        at_hand ≡ fin false m
        → RawBucket.saturating_consume_inner (fin false m) instant limit (alone s)
          ≡ some (fin false m, after l.storage s v clock limit (fin false m))
    got_all h =
        saturating_outcome l.storage s v clock limit (fin false m) ∙ rw (h, ne-zero_pos m pos)

  -- With no interference to come two rounds are enough: after a partial one the balance is 0.
  alone-Returns :
      (m : ℕ) (s : S)
      → 0 < m
      → IsRep m
      → l.IsValid s
      → Returns (RawBucket.borrow_loop 2 (fin false m) instant limit (alone s))
  unfolding RawBucket.borrow_loop
  alone-Returns m s pos fits v = elim (up_to-cases m (avail l.storage s v clock limit) pos) [
    | inl nothing ↦ rw (zero-lt_pos m pos) (
        rw (got_nothing m pos s v nothing, ◌>>=◌)
          (rw not-zero-lt-zero (
            bind-Returns (RawBucket.borrow (fin false m) instant limit) some (alone s)
              (borrow-Returns l clock limit in_format (fin false m) (alone s) fits tt v))))
    | inr (inl all) ↦ rw (zero-lt_pos m pos) (
        rw (got_all m pos s v all, ◌>>=◌)
          (rw (zero-lt_pos m pos) (rw (sub_self false m, not-zero-lt-zero) tt)))
    | inr (inr (a, e, above, below, _)) ↦
        rw
          (loop_part l.storage clock limit g s v m pos fits 0 a e (zero-lt_pos a above)
            (lt_of_below a m below))
          tt
  ]

  loop-Returns :
      (rounds m : ℕ) (w : World S)
      → length w.env ≤ rounds
      → 0 < m
      → IsRep m
      → IsBenign w.env
      → l.IsValid w.cell
      → Returns (RawBucket.borrow_loop (suc (suc rounds)) (fin false m) instant limit w)
  loop-Returns zero m w short pos fits b v = go w.env refl
    where
      go :
          (env : List Interference)
          → w.env ≡ env
          → Returns (RawBucket.borrow_loop 2 (fin false m) instant limit w)
      go [] e = rw e (alone-Returns m w.cell pos fits v)
      go (i ∷ is) e = absurd (omega (arith, short, ap length e))
  loop-Returns (suc rounds) m w short pos fits b v =
      round-Returns l clock limit in_format (suc rounds) m w pos fits b v
        (λ d w' d_pos d_fits shorter b' v'.
          loop-Returns rounds d w' (omega (arith, short, shorter)) d_pos d_fits b' v')

  enough_fuel : (w : World S) → length w.env + 2 ≡ suc (suc (length w.env))
  enough_fuel w = omega arith

  -- Over an atomic storage in a valid state, with any interference by other threads that write
  -- values of the format, with a positive finite rate, a finite time and a burst that is a value of
  -- the format and not below 0, `consume_with_borrow` for `n` tokens (1 to 2^32 - 1) returns.
  pub consume_with_borrow-Returns :
      (n : ℕ) (w : World S)
      → IsNonZeroU32 n
      → IsBenign w.env
      → l.IsValid w.cell
      → Returns (RawBucket.consume_with_borrow n clock limit w)
  unfolding RawBucket.consume_with_borrow RawBucket.consume_or_borrow
  consume_with_borrow-Returns n w h b v = elim (Bool-cases (lt limit.burst (of_int n))) [
    | inl over ↦ rw over tt
    | inr fits ↦
        rw fits (bind-Returns (RawBucket.consume_or_borrow (of_int n) instant limit) _ w returns)
  ]
    where
      returns : Returns (RawBucket.borrow_loop (length w.env + 2) (of_int n) instant limit w)
      returns =
          let small : n ≤ 2 ^ 53 = omega (arith, h.1) in
          rw (enough_fuel w, of_int-exact n small)
            (loop-Returns (length w.env) (n * one) w (omega arith) (mul-pos h.0 one-pos)
              (of_int-IsRep n small) b v)
