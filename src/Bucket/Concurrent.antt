-- ===== src/Bucket/Concurrent.antt =====
-- The tests `concurrent_consume` and `concurrent_consume_owned` of src/bucket.rs, under any schedule.
use gardal.Prelude.{ℕ, suc, ◌+◌, true, ◌≡◌, sym, ap, ◌∙◌, arith, List, [], ◌∷◌, length}
use mathlib.Core.Path.{subst}
use gardal.Float.Value.{F64, zero_f64, of_int, IsF64}
use gardal.Float.Closed.{of_int-IsF64, zero-IsRep}
use gardal.Clock.Manual.{manual_clock}
use gardal.Limit as Limits
use gardal.Limit.{Limit}
use gardal.Storage.Interface.{TimeStorage, IsAtomic}
use gardal.Storage.Progress.{Fits, atomically-swap}
use gardal.RawBucket.Fit.{consume_turn-Fits, all_or_nothing-IsF64}
use gardal.RawBucket
use gardal.RawBucket.{all_or_nothing}
use gardal.Bucket.{with_clock}
use gardal.Threads.{Action, begin, exchange, leave, Entry, start, act_all}
use gardal.Threads.History.{replay, IsHistory, IsFit, AllCalls, act_all-IsHistory}
use gardal.Bucket.OneByOne.{
  new_word, one_more, is_one, one_by_one, One, one_by_one-One, alone_passes,
}

abbrev pub AllOne : List (Entry (Unit {0}) F64) → Type 0
AllOne [] = Unit
AllOne (e ∷ es) = (is_one e.result ≡ true) × AllOne es

one_more-Fits : (z : F64) → IsF64 z → Fits (one_more tt z)
unfolding Limits.per_second_and_burst
one_more-Fits z fits =
    consume_turn-Fits (of_int 1_000) (of_int 10_000) (of_int 10) (of_int-IsF64 1_000 (omega arith))
      (of_int-IsF64 10_000 (omega arith)) (of_int-IsF64 10 (omega arith))
      (all_or_nothing (of_int 1)) (λ a h. all_or_nothing-IsF64 1 a (omega arith)) z fits

One-Fits : (z : F64) → IsF64 z → (q : One z) → IsF64 q.next
One-Fits z fits q = subst Fits q.given (one_more-Fits z fits)

all_fit : (steps : List (Action (Unit {0}))) → AllCalls (IsFit one_more) steps
all_fit [] = tt
all_fit (begin i op ∷ rest) = (one_more-Fits, all_fit rest)
all_fit (exchange i b ∷ rest) = all_fit rest
all_fit (leave i ∷ rest) = all_fit rest

starts_empty :
    {S : Type 0} ⦃t : TimeStorage S⦄ (l : IsAtomic S)
    → l.IsValid (new_word S) × (t.load (new_word S) ≡ zero_f64)
unfolding with_clock RawBucket.new
starts_empty l = (l.new-IsValid zero_f64 zero-IsRep, l.load-new zero_f64 zero-IsRep)

module _ {S : Type 0} ⦃t : TimeStorage S⦄ (l : IsAtomic S) (s : S)
    (zero_eq : t.load s ≡ zero_f64) where
  record Passed (log : List (Entry (Unit {0}) F64)) (n : ℕ) : Type 0 where
    zero_time : F64
    load_eq : t.load (replay one_more log s) ≡ zero_time
    fits : IsF64 zero_time
    passes : one_by_one n zero_time ≡ true
    all : AllOne log

  so_far :
      (log : List (Entry (Unit {0}) F64)) (n : ℕ)
      → length log + n ≡ 8_000
      → IsHistory one_more log s
      → Passed log n
  so_far [] n count h = record {
    zero_time = zero_f64;
    load_eq = zero_eq;
    fits = zero-IsRep;
    passes = let whole : n ≡ 8_000 = omega (arith, count) in rw whole alone_passes;
    all = tt;
  }
  so_far (e ∷ es) n count (r, h) =
      let p = so_far es (suc n) (omega (arith, count)) h in
      let (q, rest) = one_by_one-One n p.zero_time p.passes in
      let next_fits = One-Fits p.zero_time p.fits q in
      let step = atomically-swap (one_more e.op) (replay one_more es s) p.load_eq q.given in
      record {
        zero_time = q.next;
        load_eq = ap (λ y. t.load y.1) step ∙ l.load-store (replay one_more es s) q.next next_fits;
        fits = next_fits;
        passes = rest;
        all = (rw (sym (sym (ap (λ y. y.0) step) ∙ r)) q.one, p.all);
      }

-- Over any atomic word, under any schedule of the loads and the exchanges of any number of threads that
-- call `consume` for one token of an empty bucket with 1000 tokens a second and 10000 at most, at the
-- time 10: when 8000 less `n` calls have returned, each has given one token, and if `n` calls more,
-- one by one, are made, each gives one token and what is left is then 2000 up to 1e-9.
pub concurrent_consume :
    {S : Type 0} ⦃t : TimeStorage S⦄ (l : IsAtomic S) (steps : List (Action (Unit {0}))) (n : ℕ)
    → length (act_all one_more steps (start (new_word S))).log + n ≡ 8_000
    → let y = act_all one_more steps (start (new_word S)) in
      AllOne y.log × (one_by_one n (t.load y.cell) ≡ true)
concurrent_consume ⦃t = t⦄ l steps n count =
    let (history, cell_eq) =
      act_all-IsHistory one_more l steps (new_word _) (all_fit steps) (starts_empty l).0 in
    let p =
      so_far l (new_word _) (starts_empty l).1 (act_all one_more steps (start (new_word _))).log n
        count history in
    (p.all, rw (ap t.load cell_eq ∙ p.load_eq) p.passes)
