-- ===== src/Bucket/ConcurrentTests.antt =====
-- Two threads that each ask for one token; the second one's first exchange fails.
use gardal.Prelude.{arith, ◌≡◌, refl, true, false, List, [], ◌∷◌, length}
use gardal.Float.Value.{F64, running}
use gardal.Float.Bits.{to_bits, from_bits}
use gardal.Limit as Limits
use gardal.Storage.Atomic.{compare_exchange_weak}
use gardal.Storage.Atomics.{
  PaddedAtomicStorage, padded_atomic_storage, PaddedAtomicStorage-IsAtomic,
}
use gardal.Storage.Bucket.{balance_of, zero_time_new, consume_turn}
use gardal.RawBucket
use gardal.RawBucket.{all_or_nothing}
use gardal.Bucket.{with_clock}
use gardal.Bucket.OneByOne.{new_word, one_more, one_by_one}
use gardal.Bucket.Concurrent.{AllOne, concurrent_consume}
use gardal.Threads.{
  Action, begin, exchange, System, start, look, react, attempt, call, act, act_all,
}

abbrev race : List (Action (Unit {0}))
race = begin 0 tt ∷ begin 1 tt ∷ exchange 0 false ∷ exchange 1 false ∷ exchange 1 false ∷ []

abbrev raced : System PaddedAtomicStorage (Unit {0}) F64
raced = act_all one_more race (start (new_word PaddedAtomicStorage))

two_returned : length raced.log ≡ 2
unfolding act_all act call attempt look react compare_exchange_weak running consume_turn balance_of
    zero_time_new all_or_nothing from_bits to_bits with_clock RawBucket.new
    Limits.per_second_and_burst
two_returned = refl

concurrent_consume_example :
    AllOne raced.log × (one_by_one 7_998 (padded_atomic_storage.load raced.cell) ≡ true)
concurrent_consume_example =
    concurrent_consume PaddedAtomicStorage-IsAtomic race 7_998 (omega (arith, two_returned))
