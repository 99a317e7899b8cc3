-- ===== src/Storage/Atomic.antt =====
-- src/storage/atomic.rs and src/storage/padded_atomic.rs: an f64 in an atomic 64-bit word, alone,
-- behind an `Arc`, and with the padding of src/storage/cache_padded.rs, none of which its accesses
-- see: `Arc` and `CachePadded` stand for what they hold. All orderings are relaxed and there is one
-- word, so its accesses happen one after another.
use gardal.Prelude.{
  ℕ, ◌≡◌, refl, Bool, not, ◌&&◌, ◌==◌, if◌then◌else◌, Result, ok, err, arith, ==_self,
}
use gardal.Float.Value.{F64, IsF64}
use gardal.Float.Bits.{to_bits, from_bits, from_bits-to_bits}
use gardal.Storage.Interface.{TimeStorage, IsStorage, IsAtomic}

pub record AtomicF64 : Type 0 where
  pub word : ℕ

abbrev pub new : F64 → AtomicF64
new value = record { word = to_bits value }

abbrev pub store : AtomicF64 → F64 → AtomicF64
store _ value = record { word = to_bits value }

abbrev pub load : AtomicF64 → F64
load a = from_bits a.word

unfoldable pub compare_exchange_weak :
    Bool → AtomicF64 → F64 → F64 → Result (Unit {0}) F64 × AtomicF64
compare_exchange_weak spurious a current new =
    if not spurious && (a.word == to_bits current)
    then (ok tt, store a new)
    else (err (from_bits a.word), a)

instance abbrev pub atomic_f64 : TimeStorage AtomicF64
atomic_f64 = record {
  new = new;
  load = load;
  store = store;
  compare_exchange_weak = compare_exchange_weak;
}

-- The word holds the bits of a value of the format.
abbrev IsValid : AtomicF64 → Type 0
IsValid a = (z : F64) × IsF64 z × (a.word ≡ to_bits z)

load-valid : (a : AtomicF64) (v : IsValid a) → load a ≡ v.0
load-valid a (z, h, e) = rw e (from_bits-to_bits z h)

AtomicF64-IsStorage : IsStorage AtomicF64
unfolding compare_exchange_weak
AtomicF64-IsStorage = record {
  IsValid = IsValid;
  new-IsValid = λ z h. (z, h, refl);
  store-IsValid = λ s z h. (z, h, refl);
  load-IsF64 = λ s v. rw (load-valid s v) v.1;
  load-new = λ z h. from_bits-to_bits z h;
  load-store = λ s z h. from_bits-to_bits z h;
  store-store = λ s y z. refl;
  exchange_quiet = λ s z v. rw (load-valid s v, v.2, ==_self (to_bits v.0));
}

exchange_won :
    (b : Bool) (s : AtomicF64) (y z : F64) {s' : AtomicF64}
    → IsF64 y
    → compare_exchange_weak b s y z ≡ (ok tt, s')
    → (load s ≡ y) × (s' ≡ store s z)
unfolding compare_exchange_weak
exchange_won b s y z h e = ground (arith, from_bits-to_bits y h)

exchange_lost :
    (b : Bool) (s : AtomicF64) (y z : F64) {s' : AtomicF64} {x : F64}
    → compare_exchange_weak b s y z ≡ (err x, s')
    → (x ≡ load s) × (s' ≡ s)
unfolding compare_exchange_weak
exchange_lost b s y z e = ground arith

pub AtomicF64-IsAtomic : IsAtomic AtomicF64
AtomicF64-IsAtomic = record {
  storage = AtomicF64-IsStorage;
  exchange_won = λ b s y z h e. exchange_won b s y z h e;
  exchange_lost = λ b s y z e. exchange_lost b s y z e;
}
