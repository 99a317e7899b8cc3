-- ===== src/RawBucket/Tests.antt =====
-- The raw bucket's theorems at a bucket that two threads share.
use gardal.Prelude.{◌≡◌, refl, false, none, some, [], ◌∷◌, arith}
use gardal.Float.Value.{F64, of_int, zero_f64, running}
use gardal.Float.Closed.{of_int-IsF64}
use gardal.Clock.Manual.{manual_clock}
use gardal.Storage.Interface.{World}
use gardal.Storage.Local.{local_storage}
use gardal.Storage.Atomics.{AtomicStorage, atomic_storage}
use gardal.RawBucket
use gardal.RawBucket.{set_capacity}
use gardal.Storage.Shared.{RunsAsAlone}
use gardal.RawBucket.Shared.{calls-RunsAsAlone}
use gardal.RawBucket.Rounds.{Returns, consume_with_borrow-Returns}
use gardal.RawBucket.Bounds.{available_lem}
use gardal.Float.Order.{◌≼◌}
use gardal.Storage.Linear.{IsBenign}
use gardal.Storage.Atomics.{AtomicStorage-IsAtomic}
use gardal.RawBucket.Agree.{map_result, granted_of, consume-try_consume}
use gardal.RawBucket.Slow.{slow, at, slow-IsRegular}

-- Another thread empties the bucket at time 2 while this one asks for a token at time 3.
abbrev contended : World AtomicStorage
contended = record {
  cell = atomic_storage.new (of_int 0);
  env =
      record { write = none; spurious = false }
      ∷ record { write = some (of_int 2); spurious = false }
      ∷ [];
}

consume-try_consume_example :
    RawBucket.consume 1 (at 3) slow contended
    ≡ map_result granted_of (RawBucket.try_consume 1 (at 3) slow contended)
consume-try_consume_example = consume-try_consume 1 (at 3) slow contended

contended-IsBenign : IsBenign contended.env
contended-IsBenign = (tt, (of_int-IsF64 2 (omega arith), tt))

contended-IsValid : AtomicStorage-IsAtomic.IsValid contended.cell
contended-IsValid = AtomicStorage-IsAtomic.new-IsValid (of_int 0) (of_int-IsF64 0 (omega arith))

consume_with_borrow-Returns_example :
    Returns (RawBucket.consume_with_borrow 5 (at 3) slow contended)
consume_with_borrow-Returns_example =
    consume_with_borrow-Returns AtomicStorage-IsAtomic (at 3) slow slow-IsRegular
      (of_int-IsF64 10 (omega arith)) 5 contended (omega arith, omega arith) contended-IsBenign
      contended-IsValid

burst-NonNegative : zero_f64 ≼ slow.burst
unfolding running
burst-NonNegative = refl

available_lem_example :
    ((x : F64) × (w' : World AtomicStorage) × (RawBucket.available (at 3) slow contended
        ≡ some (x, w'))
      × (zero_f64 ≼ x)
      × (x ≼ slow.burst))
    × ((x : F64) × (w' : World AtomicStorage) × (RawBucket.balance (at 3) slow contended
          ≡ some (x, w'))
        × (x ≼ slow.burst))
available_lem_example = available_lem (at 3) slow contended burst-NonNegative

calls-RunsAsAlone_example :
    RunsAsAlone (RawBucket.consume 1 (at 3) slow) contended
    × RunsAsAlone (RawBucket.try_consume 1 (at 3) slow) contended
    × RunsAsAlone (RawBucket.saturating_consume 1 (at 3) slow) contended
    × RunsAsAlone (RawBucket.add_tokens (of_int 2) slow) contended
calls-RunsAsAlone_example =
    calls-RunsAsAlone AtomicStorage-IsAtomic (at 3) slow 1 (of_int 2) contended contended-IsBenign
      contended-IsValid
