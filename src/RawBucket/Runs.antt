-- ===== src/RawBucket/Runs.antt =====
-- src/raw_bucket.rs: whole runs of calls, where no step rounds.
use gardal.Prelude.{ℕ, ◌+◌, ◌-◌, ◌^◌, ◌≤◌, ◌≡◌, refl, arith, some, List, [], ◌∷◌}
use gardal.Clock.Source.{Clock}
use gardal.Limit.{Limit}
use gardal.Ideal.Session.{Timed, serve_all, AllSmall}
use gardal.Ideal.Balance.{out_of, into, AllFrom, serve_all-keeps}
use gardal.Storage.Interface.{TimeStorage, IsStorage, ◌>>=◌}
use gardal.Storage.Alone.{alone}
use gardal.RawBucket.Exact.{IsScale, time}
use gardal.RawBucket.Session.{perform_all, render_all, HasDuration}
use gardal.RawBucket.Held.{Holds, Served}
use gardal.RawBucket.Serves.{call-Served}

module _ {S C : Type 0} ⦃t : TimeStorage S⦄ ⦃k : Clock C⦄ (l : IsStorage S) (limit : Limit)
    (g : IsScale limit) (clock : ℕ → C)
    (clock_at : (a : ℕ) → a ≤ 2 ^ 53 → k.now (clock a) ≡ time limit g a) where
  abbrev per_token : ℕ
  per_token = 2 ^ (1074 - g.token_exp)

  -- On a valid storage that no other thread touches, with a rate that is a power of two, for any run of
  -- calls of `consume`, `try_consume`, `saturating_consume`, `consume_with_borrow`,
  -- `saturating_consume_with_borrow`, `add_tokens` and `available`, at any times on the clock: if times,
  -- zero times and requests stay within 2^53 units, the requests are from 1 to 2^32 - 1 tokens and those
  -- of `try_consume` not above the burst, a `Duration` can hold the waits of
  -- `saturating_consume_with_borrow` and there is a burst where it is called, and what is brought back
  -- does not take the zero time below 0, every call returns, with the answer of the ideal bucket, and in
  -- the end the zero time is that of the ideal bucket.
  pub perform_all-Served :
      (calls : List Timed) (s : S) (z : ℕ)
      → Holds l limit g clock clock_at s z
      → AllSmall g.cap per_token (HasDuration limit g) calls z
      → Served l limit g clock clock_at
          (render_all limit g)
          (perform_all limit g clock calls (alone s))
          (serve_all g.cap per_token calls z)
  unfolding perform_all
  perform_all-Served [] s z v small = record { cell = s; returns = refl; holds = v }
  perform_all-Served (c ∷ cs) s z v (small, rest) =
      let first = call-Served l limit g clock clock_at s z v c.now c.call small in
      let others = perform_all-Served cs first.cell _ first.holds rest in
      record {
        cell = others.cell;
        returns = rw (first.returns, ◌>>=◌) (rw (others.returns, ◌>>=◌) refl);
        holds = others.holds;
      }

  -- On the same conditions, in a run of calls at times not before `first`: what the answers hand out,
  -- loans included, is at most what is brought, a burst, and what comes in from `first` to the zero time
  -- that the bucket holds in the end.
  pub perform_all_bounded :
      (calls : List Timed) (s : S) (z first : ℕ)
      → Holds l limit g clock clock_at s z
      → AllSmall g.cap per_token (HasDuration limit g) calls z
      → AllFrom g.cap per_token first calls
      → let (replies, z') = serve_all g.cap per_token calls z in
        (cell : S) × (perform_all limit g clock calls (alone s)
          ≡ some (render_all limit g replies, alone cell))
        × (t.load cell ≡ time limit g z')
        × (out_of g.cap per_token calls z ≤ into g.cap per_token calls + g.cap + (z' - first))
  perform_all_bounded calls s z first v small from =
      let r = perform_all-Served calls s z v small in
      (
        r.cell,
        r.returns,
        r.holds.load_eq,
        omega (arith, serve_all-keeps g.cap per_token first calls z from),
      )
