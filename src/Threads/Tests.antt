-- ===== src/Threads/Tests.antt =====
-- The theorems on threads at a schedule of two threads that both ask for 6 tokens of a bucket with 10.
use gardal.Prelude.{
  ℕ, ◌+◌, ◌-◌, ◌≤◌, ◌<◌, ◌≡◌, ◌⊎◌, sym, ap, refl, true, false, List, [], ◌∷◌, length, arith,
}
use Prim.Native.Nat.{max}
use mathlib.Core.Path.{subst}
use gardal.Float.Value.{F64, IsF64, zero_f64, of_int, running}
use gardal.Float.Grid.{on_grid, grid-IsRep}
use gardal.Storage.Atomic.{compare_exchange_weak}
use gardal.Storage.Atomics.{AtomicStorage, atomic_storage, AtomicStorage-IsAtomic}
use gardal.Storage.Loop.{Turn}
use gardal.Storage.Bucket.{balance_of, zero_time_new, consume_turn, return_turn}
use gardal.Float.Bits.{to_bits, from_bits}
use gardal.RawBucket.{all_or_nothing, up_to}
use gardal.RawBucket.ScaleTests.{two_a_second, two_a_second-IsScale}
use gardal.Threads.{
  Entry, Action, begin, exchange, leave, start, act, act_all, look, react, attempt, call,
}
use gardal.Threads.History.{AllCalls, replay, IsHistory, IsFit, act_all-IsHistory}
use gardal.Threads.Quota.{Request, ask, granted, IsWithin, ask-IsFit, granted_bounded}
use gardal.Threads.Enough.{AllGranted, asked, all_granted}
use gardal.Threads.Changes.{Change, take_part, owe, give, apply, IsSound}
use gardal.Threads.Mixed.{AllFit, AllShown, ideal_all, out_of, into, mixed_bounded}
use gardal.Ideal.{level, caught_up}
use gardal.Threads.Bound.{AllBusy, busy_bounded}
use gardal.Threads.Retry.{in_loop, retry_overtaken}

-- Empty at time 0.
abbrev shared : AtomicStorage
shared = atomic_storage.new (on_grid 1073 0)

abbrev six_at_ten : Request
six_at_ten = record { now = 10; amount = 6 }

abbrev four_at_ten : Request
four_at_ten = record { now = 10; amount = 4 }

-- Thread 0 fails once for no reason, and then takes 6 tokens; thread 1 finds that the word has
-- changed, and then that 4 tokens are too few.
abbrev before : List (Action Request)
before = begin 0 six_at_ten ∷ begin 1 six_at_ten ∷ exchange 0 true ∷ []

abbrev between : List (Action Request)
between = exchange 0 false ∷ leave 0 ∷ []

abbrev schedule : List (Action Request)
schedule =
    begin 0 six_at_ten
    ∷ begin 1 six_at_ten
    ∷ exchange 0 true
    ∷ exchange 0 false
    ∷ leave 0
    ∷ exchange 1 false
    ∷ []

abbrev ask_two : Request → F64 → Turn F64
ask_two = ask two_a_second two_a_second-IsScale

log_of_schedule :
    (act_all ask_two schedule (start shared)).log
    ≡ record { thread = 1; op = six_at_ten; result = zero_f64 }
      ∷ record { thread = 0; op = six_at_ten; result = of_int 6 }
      ∷ []
unfolding running act_all act call attempt look react compare_exchange_weak consume_turn balance_of
    zero_time_new all_or_nothing to_bits from_bits
log_of_schedule = refl

six-IsWithin : IsWithin 10 10 six_at_ten
six-IsWithin = (omega arith, omega arith, omega arith)

six-IsFit : IsFit ask_two six_at_ten
six-IsFit =
    ask-IsFit two_a_second two_a_second-IsScale six_at_ten (omega arith, omega arith) (omega arith)

four-IsFit : IsFit ask_two four_at_ten
four-IsFit =
    ask-IsFit two_a_second two_a_second-IsScale four_at_ten (omega arith, omega arith) (omega arith)

zero_fits : IsF64 (on_grid 1073 0)
zero_fits = grid-IsRep 1073 0 (omega arith) (omega arith)

shared-IsValid : AtomicStorage-IsAtomic.IsValid shared
shared-IsValid = AtomicStorage-IsAtomic.new-IsValid (on_grid 1073 0) zero_fits

act_all-IsHistory_example :
    let y = act_all ask_two schedule (start shared) in
    IsHistory ask_two y.log shared × (y.cell ≡ replay ask_two y.log shared)
act_all-IsHistory_example =
    act_all-IsHistory ask_two AtomicStorage-IsAtomic schedule shared (six-IsFit, (six-IsFit, tt))
      shared-IsValid

granted_bounded_example :
    let total =
      granted two_a_second two_a_second-IsScale (act_all ask_two schedule (start shared)).log in
    (total ≤ 10 + (10 - 10)) × (total ≤ 10 - max 0 (10 - 10))
granted_bounded_example =
    granted_bounded two_a_second two_a_second-IsScale AtomicStorage-IsAtomic schedule shared 0 10 10
      shared-IsValid (AtomicStorage-IsAtomic.load-new (on_grid 1073 0) zero_fits) (omega arith)
      (omega arith) (omega arith) (six-IsWithin, (six-IsWithin, tt))

-- Ten are there: thread 1 asks for the four that thread 0 leaves.
abbrev shared_out : List (Action Request)
shared_out =
    begin 0 six_at_ten
    ∷ begin 1 four_at_ten
    ∷ exchange 0 false
    ∷ exchange 1 false
    ∷ exchange 1 false
    ∷ []

abbrev shared_out_log : List (Entry Request F64)
shared_out_log =
    record { thread = 1; op = four_at_ten; result = of_int 4 }
    ∷ record { thread = 0; op = six_at_ten; result = of_int 6 }
    ∷ []

log_of_shared_out : (act_all ask_two shared_out (start shared)).log ≡ shared_out_log
unfolding running act_all act call attempt look react compare_exchange_weak consume_turn balance_of
    zero_time_new all_or_nothing to_bits from_bits
log_of_shared_out = refl

ten_in_all :
    asked two_a_second two_a_second-IsScale (act_all ask_two shared_out (start shared)).log ≡ 10
ten_in_all = ap (asked two_a_second two_a_second-IsScale) log_of_shared_out

all_granted_example :
    let y = act_all ask_two shared_out (start shared) in
    AllGranted y.log
    × (z' : ℕ) × (atomic_storage.load y.cell ≡ on_grid 1073 z')
    × (level 10 10 0 ≤ level 10 10 z' + asked two_a_second two_a_second-IsScale y.log)
    × (level 10 10 z' + asked two_a_second two_a_second-IsScale y.log ≤ level 10 10 0)
all_granted_example =
    all_granted two_a_second two_a_second-IsScale AtomicStorage-IsAtomic shared_out shared 0 10 10
      shared-IsValid (AtomicStorage-IsAtomic.load-new (on_grid 1073 0) zero_fits) (omega arith)
      (omega arith) (six-IsWithin, ((omega arith, omega arith, omega arith), tt))
      (omega (arith, ten_in_all))

retry_overtaken_example :
    let y = act_all ask_two before (start shared) in
    let first = act ask_two (exchange 1 true) y in
    let second = act_all ask_two between first in
    (in_loop ((act ask_two (exchange 1 false) second).pc 1) ≡ false)
    ⊎ (length first.log < length second.log)
retry_overtaken_example =
    retry_overtaken ask_two AtomicStorage-IsAtomic before between shared 1 true
      (six-IsFit, (six-IsFit, tt)) tt (refl, (refl, tt)) shared-IsValid

-- Thread 0's first exchange fails for no reason, and thread 1 goes round twice.
abbrev entered : List (Action Request)
entered = begin 0 six_at_ten ∷ begin 1 four_at_ten ∷ []

abbrev rounds : List (Action Request)
rounds = exchange 0 true ∷ exchange 0 false ∷ exchange 1 false ∷ exchange 1 false ∷ []

rounds-AllBusy : AllBusy ask_two 2 rounds (act_all ask_two entered (start shared))
unfolding running act_all act call attempt look react compare_exchange_weak consume_turn balance_of
    zero_time_new all_or_nothing to_bits from_bits
rounds-AllBusy =
    (omega arith, refl, (omega arith, refl, (omega arith, refl, (omega arith, refl, tt))))

busy_bounded_example : length rounds ≤ 2 + (2 + (1 + 0)) + 1
busy_bounded_example =
    busy_bounded ask_two AtomicStorage-IsAtomic 2 entered rounds shared
      (six-IsFit, (four-IsFit, tt)) shared-IsValid rounds-AllBusy

-- Thread 0 takes what is there of 12 tokens at 5 seconds, which is ten, and then owes the other two,
-- while thread 1 returns one.
abbrev loan : List (Action Change)
loan =
    begin 0 (take_part 10 12)
    ∷ begin 1 (give 1)
    ∷ exchange 0 false
    ∷ exchange 1 false
    ∷ leave 0
    ∷ begin 0 (owe 2)
    ∷ exchange 1 false
    ∷ leave 1
    ∷ exchange 0 false
    ∷ exchange 0 false
    ∷ []

abbrev apply_two : Change → F64 → Turn F64
apply_two = apply two_a_second two_a_second-IsScale

abbrev loan_log : List (Entry Change F64)
loan_log =
    record { thread = 0; op = owe 2; result = on_grid 1073 11 }
    ∷ record { thread = 1; op = give 1; result = on_grid 1073 9 }
    ∷ record { thread = 0; op = take_part 10 12; result = on_grid 1074 10 }
    ∷ []

log_of_loan : (act_all apply_two loan (start shared)).log ≡ loan_log
unfolding running act_all act call attempt look react compare_exchange_weak consume_turn return_turn
    balance_of zero_time_new up_to to_bits from_bits
log_of_loan = refl

loan-AllFit : AllFit two_a_second two_a_second-IsScale 10 loan_log 0
unfolding level caught_up
loan-AllFit = ((omega arith, omega arith), (omega arith, (tt, tt)))

loan-fits :
    AllFit two_a_second two_a_second-IsScale 10 (act_all apply_two loan (start shared)).log 0
loan-fits =
    subst (λ log. AllFit two_a_second two_a_second-IsScale 10 log 0) (sym log_of_loan) loan-AllFit

loan-AllSound : AllCalls (IsSound two_a_second two_a_second-IsScale 10) loan
loan-AllSound = ((omega arith, omega arith, omega arith), (omega arith, (omega arith, tt)))

mixed_bounded_example :
    let y = act_all apply_two loan (start shared) in
    AllShown two_a_second two_a_second-IsScale y.log 0
    × (atomic_storage.load y.cell
        ≡ on_grid 1073 (ideal_all two_a_second two_a_second-IsScale y.log 0))
    × (out_of two_a_second two_a_second-IsScale y.log 0
        ≤ into two_a_second two_a_second-IsScale y.log
          + 10
          + (ideal_all two_a_second two_a_second-IsScale y.log 0 - 10))
mixed_bounded_example =
    mixed_bounded two_a_second two_a_second-IsScale 10 AtomicStorage-IsAtomic loan shared 0
      shared-IsValid (AtomicStorage-IsAtomic.load-new (on_grid 1073 0) zero_fits) (omega arith)
      loan-AllSound loan-fits
