-- ===== src/Threads/Mixed.antt =====
-- src/raw_bucket.rs: takes, debts and returns of many threads on one word, where no step rounds.
use gardal.Prelude.{
  ℕ, ◌+◌, ◌-◌, ◌^◌, ◌≤◌, ◌≡◌, sym, ap, ◌∙◌, arith, ◌==◌, leb, List, [], ◌∷◌, inl, inr, Bool-cases,
}
use Prim.Native.Nat.{min as min_ℕ, max}
use gardal.Float.Value.{F64}
use gardal.Limit.{Limit}
use gardal.Ideal.{caught_up, take, level}
use gardal.Storage.Interface.{TimeStorage, IsAtomic}
use gardal.Storage.Loop.{atomically}
use gardal.Storage.Progress.{atomically-stop, atomically-swap}
use gardal.RawBucket.Exact.{IsScale, units, time, time-IsF64}
use gardal.Threads.{Action, Entry, start, act_all}
use gardal.Threads.History.{
  replay, IsHistory, AllCalls, AllLogged, act_all-IsLinear, start-IsLinear,
}
use gardal.Threads.Changes.{
  Change, take_all, take_part, owe, give, apply, ideal, shown, IsSound, FitsAt, Does, change-Does,
  apply-IsFit,
}

module _ (limit : Limit) (g : IsScale limit) where
  -- The ideal bucket after the changes of a log, from the zero time `z`.
  abbrev pub ideal_all : List (Entry Change F64) → ℕ → ℕ
  ideal_all [] z = z
  ideal_all (e ∷ es) z = (ideal limit g e.op (ideal_all es z)).1

  abbrev pub AllFit : ℕ → List (Entry Change F64) → ℕ → Type 0
  AllFit first [] z = Unit
  AllFit first (e ∷ es) z = FitsAt limit g first (ideal_all es z) e.op × AllFit first es z

  -- The results in the log are those of the ideal bucket.
  abbrev pub AllShown : List (Entry Change F64) → ℕ → Type 0
  AllShown [] z = Unit
  AllShown (e ∷ es) z =
      (shown limit g e.op (ideal limit g e.op (ideal_all es z)) ≡ e.result) × AllShown es z

  abbrev pub out_of : List (Entry Change F64) → ℕ → ℕ
  out_of [] z = 0
  out_of (e ∷ es) z = (ideal limit g e.op (ideal_all es z)).0 + out_of es z

  abbrev brought : Change → ℕ
  brought (take_all now n) = 0
  brought (take_part now r) = 0
  brought (owe w) = 0
  brought (give m) = m

  abbrev pub into : List (Entry Change F64) → ℕ
  into [] = 0
  into (e ∷ es) = brought e.op + into es

  module _ (first : ℕ) where
    abbrev Keeps : Change → ℕ → Type 0
    Keeps c z =
        ((ideal limit g c z).1 ≤ 2 ^ 53)
        × ((ideal limit g c z).0 + max z (first - g.cap)
            ≤ max (ideal limit g c z).1 (first - g.cap) + brought c)

    ideal-Keeps :
        (c : Change) (z : ℕ)
        → IsSound limit g first c
        → FitsAt limit g first z c
        → z ≤ 2 ^ 53
        → Keeps c z
    unfolding take caught_up level
    ideal-Keeps (take_all now n) z (_, from, top) fits z_top =
        elim (Bool-cases (leb (max z (now - g.cap) + units limit g n) now)) [
          | inl e ↦
              let within : max z (now - g.cap) + units limit g n ≤ now = ground arith in
              rw e (omega (arith, within, top), omega (arith, from))
          | inr e ↦ rw e (omega (arith, z_top), omega arith)
        ]
    ideal-Keeps (take_part now r) z (_, from, top) fits z_top =
        let a = min_ℕ (now - max z (now - g.cap)) r in
        elim (Bool-cases (a == 0)) [
          | inl e ↦ rw e (omega (arith, z_top), omega arith)
          | inr e ↦ rw e (omega (arith, z_top, top), omega (arith, from))
        ]
    ideal-Keeps (owe w) z h (fits, near) z_top = (fits, omega (arith, near))
    ideal-Keeps (give m) z h fits z_top = (omega (arith, z_top), omega (arith, fits))

    module _ {S : Type 0} ⦃t : TimeStorage S⦄ (l : IsAtomic S) (s : S) (z : ℕ)
        (zero_eq : t.load s ≡ time limit g z) (zero_top : z ≤ 2 ^ 53) where
      record Follows (log : List (Entry Change F64)) : Type 0 where
        load_eq : t.load (replay (apply limit g) log s) ≡ time limit g (ideal_all log z)
        small : ideal_all log z ≤ 2 ^ 53
        results : AllShown log z
        flow :
            out_of log z + max z (first - g.cap) ≤ max (ideal_all log z) (first - g.cap) + into log

      one-Follows :
          (e : Entry Change F64) (es : List (Entry Change F64)) (p : Follows es)
          → (atomically (apply limit g e.op) (replay (apply limit g) es s)).0 ≡ e.result
          → Keeps e.op (ideal_all es z)
          → let q = ideal limit g e.op (ideal_all es z) in
            Does limit g e.op (ideal_all es z) (shown limit g e.op q) q.1 → Follows (e ∷ es)
      one-Follows e es p r (next_small, keeps) (inl m) =
          let q = ideal limit g e.op (ideal_all es z) in
          let step =
            atomically-swap (apply limit g e.op) (replay (apply limit g) es s) p.load_eq m in
          record {
            load_eq =
                ap (λ y. t.load y.1) step
                ∙ l.load-store (replay (apply limit g) es s) (time limit g q.1)
                    (time-IsF64 limit g q.1 next_small);
            small = next_small;
            results = (sym (ap (λ y. y.0) step) ∙ r, p.results);
            flow = omega (arith, keeps, p.flow);
          }
      one-Follows e es p r (next_small, keeps) (inr (m, same)) =
          let step =
            atomically-stop (apply limit g e.op) (replay (apply limit g) es s) p.load_eq m in
          record {
            load_eq = ap (λ y. t.load y.1) step ∙ p.load_eq ∙ ap (time limit g) (sym same);
            small = next_small;
            results = (sym (ap (λ y. y.0) step) ∙ r, p.results);
            flow = omega (arith, keeps, p.flow);
          }

      follows :
          (log : List (Entry Change F64))
          → AllLogged (IsSound limit g first) log
          → AllFit first log z
          → IsHistory (apply limit g) log s
          → Follows log
      follows [] a f h = record {
        load_eq = zero_eq;
        small = zero_top;
        results = tt;
        flow = omega arith;
      }
      follows (e ∷ es) (sound, a) (fits, f) (r, h) =
          let p = follows es a f h in
          one-Follows e es p r (ideal-Keeps e.op (ideal_all es z) sound fits p.small)
            (change-Does limit g first e.op (ideal_all es z) sound fits p.small)

    -- On a valid atomic word whose zero time is `z`, with a rate that is a power of two and times, sizes
    -- and a burst of at most 2^53 units, whatever the schedule of any number of threads that take all
    -- or a part at times from `first` on, go into debt and return tokens: if each debt finds a zero
    -- time that is not more than a burst before `first` and stays within 2^53 units, and no return
    -- takes it below 0, then the results are those of the ideal bucket in the order of the returns, so
    -- is the zero time in the end, and what is handed out, debts included, is at most what is
    -- returned, a burst, and what comes in from `first` to that zero time.
    pub mixed_bounded :
        {S : Type 0} ⦃t : TimeStorage S⦄ (l : IsAtomic S) (steps : List (Action Change)) (s : S)
        (z : ℕ)
        → l.IsValid s
        → t.load s ≡ time limit g z
        → z ≤ 2 ^ 53
        → AllCalls (IsSound limit g first) steps
        → AllFit first (act_all (apply limit g) steps (start s)).log z
        → let y = act_all (apply limit g) steps (start s) in
          AllShown y.log z
          × (t.load y.cell ≡ time limit g (ideal_all y.log z))
          × (out_of y.log z ≤ into y.log + g.cap + (ideal_all y.log z - first))
    mixed_bounded ⦃t = t⦄ l steps s z v at z_top sound fits =
        let P = IsSound limit g first in
        let r =
          act_all-IsLinear (apply limit g) l P (apply-IsFit limit g first) steps s (start s) sound
            (start-IsLinear (apply limit g) l P (apply-IsFit limit g first) s v) in
        let p =
          follows l s z at z_top (act_all (apply limit g) steps (start s)).log r.asked fits
            r.history in
        (p.results, ap t.load r.cell_eq ∙ p.load_eq, omega (arith, p.flow))
