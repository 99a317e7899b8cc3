-- ===== src/Threads/Enough.antt =====
-- `consume` of src/raw_bucket.rs called by many threads that ask together for no more than there is, where
-- no step of the arithmetic rounds.
use gardal.Prelude.{ℕ, ◌+◌, ◌-◌, ◌^◌, ◌≤◌, ◌≡◌, sym, ap, ◌∙◌, arith, List, [], ◌∷◌}
use Prim.Native.Nat.{max}
use gardal.Float.Value.{F64, of_int}
use gardal.Limit.{Limit}
use gardal.Ideal.{caught_up, level}
use gardal.Storage.Interface.{TimeStorage, IsAtomic}
use gardal.Storage.Loop.{atomically}
use gardal.Storage.Progress.{atomically-swap}
use gardal.RawBucket.Exact.{IsScale, units, time, time-IsF64}
use gardal.Threads.{Action, Entry, start, act_all}
use gardal.Threads.History.{
  replay, IsHistory, IsFit, AllCalls, AllLogged, act_all-IsLinear, start-IsLinear,
}
use gardal.Threads.Quota.{Request, IsWithin, ask, ask-IsFit, ask-given}

-- Every call of the log was given what it asked for.
abbrev pub AllGranted : List (Entry Request F64) → Type 0
AllGranted [] = Unit
AllGranted (e ∷ es) = (e.result ≡ of_int e.op.amount) × AllGranted es

module _ (limit : Limit) (g : IsScale limit) where
  -- The units that the calls of a log asked for.
  abbrev pub asked : List (Entry Request F64) → ℕ
  asked [] = 0
  asked (e ∷ es) = units limit g e.op.amount + asked es

  module _ {S : Type 0} ⦃t : TimeStorage S⦄ (l : IsAtomic S) (s : S) (z : ℕ)
      (zero_eq : t.load s ≡ time limit g z) (first last : ℕ) (last_top : last ≤ 2 ^ 53) where
    abbrev base : ℕ
    base = max z (last - g.cap)

    -- The zero time after a log: the calls moved it on by no more than they asked for, and from a burst
    -- before `first` by no less.
    record Drawn (log : List (Entry Request F64)) : Type 0 where
      zero_time : ℕ
      load_eq : t.load (replay (ask limit g) log s) ≡ time limit g zero_time
      granted : AllGranted log
      below : zero_time ≤ base + asked log
      above : max z (first - g.cap) + asked log ≤ max zero_time (first - g.cap)

    Drawn-given :
        (e : Entry Request F64) (es : List (Entry Request F64))
        → Drawn es
        → IsWithin first last e.op
        → base + asked (e ∷ es) ≤ first
        → (atomically (ask limit g e.op) (replay (ask limit g) es s)).0 ≡ e.result
        → Drawn (e ∷ es)
    unfolding atomically caught_up
    Drawn-given e es p (ok, from, to) enough r =
        let next = caught_up g.cap e.op.now p.zero_time + units limit g e.op.amount in
        let fits : next ≤ e.op.now = omega (arith, p.below, enough, from, to) in
        let now_top : e.op.now ≤ 2 ^ 53 = omega (arith, to, last_top) in
        let next_top : next ≤ 2 ^ 53 = omega (arith, fits, now_top) in
        let step : atomically (ask limit g e.op) (replay (ask limit g) es s)
            ≡ (of_int e.op.amount, t.store (replay (ask limit g) es s) (time limit g next)) =
          atomically-swap (ask limit g e.op) (replay (ask limit g) es s) p.load_eq
            (ask-given limit g e.op ok now_top p.zero_time fits) in
        record {
          zero_time = next;
          load_eq =
              ap (λ q. t.load q.1) step
              ∙ l.load-store (replay (ask limit g) es s) (time limit g next)
                  (time-IsF64 limit g next next_top);
          granted = (sym r ∙ ap (λ q. q.0) step, p.granted);
          below = omega (arith, p.below, to);
          above = omega (arith, p.above, from);
        }

    drawn :
        (log : List (Entry Request F64))
        → AllLogged (IsWithin first last) log
        → base + asked log ≤ first
        → IsHistory (ask limit g) log s
        → Drawn log
    drawn [] a enough h = record {
      zero_time = z;
      load_eq = zero_eq;
      granted = tt;
      below = omega arith;
      above = omega arith;
    }
    drawn (e ∷ es) (within, a) enough (r, h) =
        Drawn-given e es (drawn es a (omega (arith, enough)) h) within enough r

  -- On a valid atomic word whose zero time is `z`, with a rate that is a power of two and times and a
  -- burst of at most 2^53 units: whatever the schedule of any number of threads that call `consume` for
  -- 1 to 2^32 - 1 tokens at times from `first` to `last`, if what the returned calls asked for comes
  -- with the later of the zero time and of a burst before `last` to at most `first`, then none of them
  -- was refused. The level that is left at `last` is no lower than the level before less what was
  -- asked for, and the one at `first` no higher: at one time it is exactly the difference.
  pub all_granted :
      {S : Type 0} ⦃t : TimeStorage S⦄ (l : IsAtomic S) (steps : List (Action Request)) (s : S)
      (z first last : ℕ)
      → l.IsValid s
      → t.load s ≡ time limit g z
      → first ≤ last
      → last ≤ 2 ^ 53
      → AllCalls (IsWithin first last) steps
      → max z (last - g.cap) + asked (act_all (ask limit g) steps (start s)).log ≤ first
      → let y = act_all (ask limit g) steps (start s) in
        AllGranted y.log
        × (z' : ℕ) × (t.load y.cell ≡ time limit g z')
        × (level g.cap last z ≤ level g.cap last z' + asked y.log)
        × (level g.cap first z' + asked y.log ≤ level g.cap first z)
  unfolding level caught_up
  all_granted ⦃t = t⦄ l steps s z first last v at order top within enough =
      let fits : (q : Request) → IsWithin first last q → IsFit (ask limit g) q =
        λ q w. ask-IsFit limit g q w.0 (omega (arith, w.2, top)) in
      let within_of = IsWithin first last in
      let r =
        act_all-IsLinear (ask limit g) l within_of fits steps s (start s) within
          (start-IsLinear (ask limit g) l within_of fits s v) in
      let y = act_all (ask limit g) steps (start s) in
      let p = drawn l s z at first last top y.log r.asked enough r.history in
      (
        p.granted,
        p.zero_time,
        ap (λ c. t.load c) r.cell_eq ∙ p.load_eq,
        omega (arith, p.below),
        omega (arith, p.above, p.below, enough),
      )
