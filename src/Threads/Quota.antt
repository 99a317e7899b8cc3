-- ===== src/Threads/Quota.antt =====
-- `consume` of src/raw_bucket.rs called by many threads: what they are given together, where no step of
-- the arithmetic rounds.
use gardal.Prelude.{
  ℕ, ◌+◌, ◌-◌, ◌^◌, ◌≤◌, ◌<◌, ◌≡◌, ◌⊎◌, refl, sym, ap, ◌∙◌, arith, List, [], ◌∷◌, inl, inr,
  if◌then◌else◌,
}
use Prim.Native.Nat.{max}
use native.Mathlib.Decide.{dec_le}
use gardal.Float.Value.{F64, zero_f64, of_int, eq}
use gardal.Limit.{Limit}
use gardal.Ideal.{caught_up}
use gardal.Storage.Interface.{TimeStorage, IsAtomic}
use gardal.Storage.Loop.{Turn, stop, swap, atomically}
use gardal.Storage.Progress.{atomically-stop, atomically-swap}
use gardal.Storage.Bucket.{consume_turn}
use gardal.RawBucket.{all_or_nothing}
use gardal.RawBucket.Outcome.{IsNonZeroU32, request-ne-zero}
use gardal.RawBucket.Exact.{
  IsScale, units, time, time-IsF64, rate-IsF64, burst-IsF64, covered, lacking,
}
use gardal.RawBucket.Fit.{consume_turn-Fits, all_or_nothing-IsF64}
use gardal.Threads.{Action, Entry, start, act_all}
use gardal.Threads.History.{
  replay, IsHistory, IsFit, AllCalls, AllLogged, act_all-IsLinear, start-IsLinear,
}

-- A call of `consume`: what its clock said, in units of time, and how many tokens it asks for.
pub record Request : Type 0 where
  pub now : ℕ
  pub amount : ℕ

-- A request for 1 to 2^32 - 1 tokens at a time from `first` to `last`.
abbrev pub IsWithin : ℕ → ℕ → Request → Type 0
IsWithin first last q = IsNonZeroU32 q.amount × (first ≤ q.now) × (q.now ≤ last)

module _ (limit : Limit) (g : IsScale limit) where
  abbrev pub ask : Request → F64 → Turn F64
  ask q =
      consume_turn limit.rate limit.burst (time limit g q.now) (all_or_nothing (of_int q.amount))

  -- The units that the calls of a log were given.
  abbrev pub granted : List (Entry Request F64) → ℕ
  granted [] = 0
  granted (e ∷ es) = (if eq e.result zero_f64 then 0 else units limit g e.op.amount) + granted es

  module _ (q : Request) (ok : IsNonZeroU32 q.amount) (top : q.now ≤ 2 ^ 53) (z : ℕ) where
    abbrev next : ℕ
    next = caught_up g.cap q.now z + units limit g q.amount

    few : q.amount ≤ 2 ^ 53
    few = omega (arith, ok.1)

    pub ask-given :
        next ≤ q.now → ask q (time limit g z) ≡ swap (of_int q.amount) (time limit g next)
    unfolding consume_turn all_or_nothing
    ask-given h =
        let (enough, moved) = covered limit g q.now z q.amount few top h in
        rw (enough, request-ne-zero q.amount ok, moved)

    pub ask-refused : q.now < next → z ≤ 2 ^ 53 → ask q (time limit g z) ≡ stop zero_f64
    unfolding consume_turn all_or_nothing eq
    ask-refused h small = rw (lacking limit g q.now z q.amount few top h ok.0 small)

  pub ask-IsFit : (q : Request) → IsNonZeroU32 q.amount → q.now ≤ 2 ^ 53 → IsFit ask q
  ask-IsFit q ok top z fits =
      consume_turn-Fits limit.rate limit.burst (time limit g q.now) (rate-IsF64 limit g)
        (burst-IsF64 limit g) (time-IsF64 limit g q.now top) (all_or_nothing (of_int q.amount))
        (λ a h. all_or_nothing-IsF64 q.amount a (omega (arith, ok.1))) z fits

  module _ {S : Type 0} ⦃t : TimeStorage S⦄ (l : IsAtomic S) (s : S) (z : ℕ)
      (zero_eq : t.load s ≡ time limit g z) (zero_top : z ≤ 2 ^ 53) (first last : ℕ)
      (last_top : last ≤ 2 ^ 53) where
    -- The zero time as a number of units, how far it has come, and how far it can have come.
    record Pace (log : List (Entry Request F64)) : Type 0 where
      zero_time : ℕ
      load_eq : t.load (replay ask log s) ≡ time limit g zero_time
      small : zero_time ≤ 2 ^ 53
      ahead : max z (first - g.cap) + granted log ≤ max zero_time (first - g.cap)
      behind : (granted log ≡ 0) ⊎ (zero_time ≤ last)

    Pace-refused :
        (e : Entry Request F64) (es : List (Entry Request F64)) (p : Pace es)
        → (atomically (ask e.op) (replay ask es s)).0 ≡ e.result
        → ask e.op (time limit g p.zero_time) ≡ stop zero_f64
        → Pace (e ∷ es)
    unfolding atomically eq
    Pace-refused e es p r m =
        let step : atomically (ask e.op) (replay ask es s) ≡ (zero_f64, replay ask es s) =
          atomically-stop (ask e.op) (replay ask es s) p.load_eq m in
        let nothing : zero_f64 ≡ e.result = sym (ap (λ q. q.0) step) ∙ r in
        let same : granted (e ∷ es) ≡ granted es = rw (sym nothing) (omega arith) in
        record {
          zero_time = p.zero_time;
          load_eq = ap (λ q. t.load q.1) step ∙ p.load_eq;
          small = p.small;
          ahead = rw same p.ahead;
          behind = rw same p.behind;
        }

    Pace-given :
        (e : Entry Request F64) (es : List (Entry Request F64)) (p : Pace es)
        → IsWithin first last e.op
        → (atomically (ask e.op) (replay ask es s)).0 ≡ e.result
        → let next = caught_up g.cap e.op.now p.zero_time + units limit g e.op.amount in
          next ≤ e.op.now
          → ask e.op (time limit g p.zero_time) ≡ swap (of_int e.op.amount) (time limit g next)
          → Pace (e ∷ es)
    unfolding atomically caught_up
    Pace-given e es p (ok, from, to) r h m =
        let next = caught_up g.cap e.op.now p.zero_time + units limit g e.op.amount in
        let step : atomically (ask e.op) (replay ask es s)
            ≡ (of_int e.op.amount, t.store (replay ask es s) (time limit g next)) =
          atomically-swap (ask e.op) (replay ask es s) p.load_eq m in
        let all : of_int e.op.amount ≡ e.result = sym (ap (λ q. q.0) step) ∙ r in
        let more : granted (e ∷ es) ≡ units limit g e.op.amount + granted es =
          rw (sym all, request-ne-zero e.op.amount ok) refl in
        let next_top : next ≤ 2 ^ 53 = omega (arith, h, to, last_top) in
        record {
          zero_time = next;
          load_eq =
              ap (λ q. t.load q.1) step
              ∙ l.load-store (replay ask es s) (time limit g next)
                  (time-IsF64 limit g next next_top);
          small = next_top;
          ahead = omega (arith, more, p.ahead, from);
          behind = inr (omega (arith, h, to));
        }

    pace :
        (log : List (Entry Request F64))
        → AllLogged (IsWithin first last) log
        → IsHistory ask log s
        → Pace log
    pace [] a h = record {
      zero_time = z;
      load_eq = zero_eq;
      small = zero_top;
      ahead = omega arith;
      behind = inl refl;
    }
    pace (e ∷ es) (within, a) (r, h) =
        let p = pace es a h in
        let (ok, from, to) = within in
        let next = caught_up g.cap e.op.now p.zero_time + units limit g e.op.amount in
        let now_top : e.op.now ≤ 2 ^ 53 = omega (arith, to, last_top) in
        elim (dec_le next (e.op.now)) [
          | yes fits ↦ Pace-given e es p within r fits (ask-given e.op ok now_top p.zero_time fits)
          | no late ↦
              Pace-refused e es p r
                (ask-refused e.op ok now_top p.zero_time (omega (arith, late)) p.small)
        ]

  -- On a valid atomic word whose zero time is `z`, with a rate that is a power of two and times and a
  -- burst of at most 2^53 units: whatever the schedule of any number of threads that call `consume` for
  -- 1 to 2^32 - 1 tokens at times from `first` to `last`, all of them together are given no more than
  -- the burst and what comes in from `first` to `last`; and no more than comes in until `last` from
  -- the later of the zero time and of a burst before `first`.
  pub granted_bounded :
      {S : Type 0} ⦃t : TimeStorage S⦄ (l : IsAtomic S) (steps : List (Action Request)) (s : S)
      (z first last : ℕ)
      → l.IsValid s
      → t.load s ≡ time limit g z
      → z ≤ 2 ^ 53
      → first ≤ last
      → last ≤ 2 ^ 53
      → AllCalls (IsWithin first last) steps
      → let total = granted (act_all ask steps (start s)).log in
        (total ≤ g.cap + (last - first)) × (total ≤ last - max z (first - g.cap))
  granted_bounded l steps s z first last v at z_top order top within =
      let fits : (q : Request) → IsWithin first last q → IsFit ask q =
        λ q w. ask-IsFit q w.0 (omega (arith, w.2, top)) in
      let within_of = IsWithin first last in
      let r =
        act_all-IsLinear ask l within_of fits steps s (start s) within
          (start-IsLinear ask l within_of fits s v) in
      let p =
        pace l s z at z_top first last top (act_all ask steps (start s)).log r.asked r.history in
      elim p.behind [
        | inl nothing ↦ (omega (arith, nothing), omega (arith, nothing))
        | inr reached ↦
            (omega (arith, reached, p.ahead, order), omega (arith, reached, p.ahead, order))
      ]
