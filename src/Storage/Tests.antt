-- ===== src/Storage/Tests.antt =====
-- Runs with interference, and the theorems of this component at concrete storages.
use gardal.Prelude.{◌≡◌, refl, true, false, some, none, [], ◌∷◌, arith}
use gardal.Float.Value.{F64, of_int, running}
use gardal.Storage.Interface.{World}
use gardal.Storage.Atomic.{compare_exchange_weak}
use gardal.Storage.Atomics.{AtomicStorage, atomic_storage, AtomicStorage-IsAtomic}
use gardal.Float.Bits.{to_bits, from_bits}
use gardal.Float.Closed.{of_int-IsF64}
use gardal.Storage.Interface.{load, settle}
use gardal.Storage.Loop.{update, cas_loop}
use gardal.Storage.Linear.{IsBenign}
use gardal.Storage.Bucket
use gardal.Storage.Bucket.{consume_turn, balance_of, zero_time_new}
use gardal.Storage.Concurrent.{
  ActsOnce, consume_once, return_once, consume-ActsOnce, return_tokens-ActsOnce,
}

-- Empty at time 0. Another thread moves the zero time to 1 before the exchange, and the next
-- exchange fails for no reason.
abbrev contended : World AtomicStorage
contended = record {
  cell = atomic_storage.new (of_int 0);
  env =
      record { write = none; spurious = false }
      ∷ record { write = some (of_int 1); spurious = false }
      ∷ record { write = none; spurious = true }
      ∷ [];
}

abbrev take_three : F64 → F64
take_three _ = of_int 3

contended-IsBenign : IsBenign contended.env
contended-IsBenign = (tt, (of_int-IsF64 1 (omega arith), (tt, tt)))

contended-IsValid : AtomicStorage-IsAtomic.IsValid contended.cell
contended-IsValid = AtomicStorage-IsAtomic.new-IsValid (of_int 0) (of_int-IsF64 0 (omega arith))

consume-ActsOnce_example :
    ActsOnce
      (Bucket.consume (of_int 1) (of_int 20) (of_int 8) take_three)
      (consume_once (of_int 1) (of_int 20) (of_int 8) take_three)
      contended
consume-ActsOnce_example =
    consume-ActsOnce AtomicStorage-IsAtomic (of_int 1) (of_int 20) (of_int 8) take_three contended
      contended-IsBenign contended-IsValid

return_tokens-ActsOnce_example :
    ActsOnce
      (Bucket.return_tokens (of_int 2) (of_int 1))
      (return_once (of_int 2) (of_int 1))
      contended
return_tokens-ActsOnce_example =
    return_tokens-ActsOnce AtomicStorage-IsAtomic (of_int 2) (of_int 1) contended contended-IsBenign
      contended-IsValid

-- The exchange succeeds at the third attempt, on the other thread's zero time: 1 + 3 = 4.
contended_run :
    Bucket.consume (of_int 1) (of_int 20) (of_int 8) take_three contended
    ≡ some (of_int 3, record { cell = atomic_storage.new (of_int 4); env = [] })
unfolding running Bucket.consume update cas_loop load settle consume_turn balance_of zero_time_new
    to_bits from_bits compare_exchange_weak
contended_run = refl
