-- ===== src/Storage/Atomics.antt =====
-- The four storages over `AtomicF64`: src/storage/atomic.rs, alone and behind an `Arc`, and
-- src/storage/padded_atomic.rs, with padding, alone and behind an `Arc`.
use gardal.Prelude.{Bool, ok, err, ◌≡◌, refl, sym, ap, ◌∙◌}
use gardal.Float.Value.{F64, IsF64}
use gardal.Storage.Interface.{TimeStorage, IsStorage, IsAtomic}
use gardal.Storage.Atomic.{AtomicF64, atomic_f64, AtomicF64-IsAtomic}

-- `CachePadded<T>` of crossbeam: a value that has its cache line for itself.
pub record CachePadded (T : Type 0) : Type 0 where
  pub value : T

-- A storage whose methods are those of what it holds.
module _ {S T : Type 0} ⦃t : TimeStorage T⦄ (wrap : T → S) (inner : S → T) where
  abbrev pub forward : TimeStorage S
  forward = record {
    new = λ z. wrap (t.new z);
    load = λ s. t.load (inner s);
    store = λ s z. wrap (t.store (inner s) z);
    compare_exchange_weak =
        λ b s y z. let (r, a) = t.compare_exchange_weak b (inner s) y z in (r, wrap a);
  }

module _ {S T : Type 0} ⦃t : TimeStorage T⦄ (wrap : T → S) (inner : S → T)
    (inner-wrap : (a : T) → inner (wrap a) ≡ a) (wrap-inner : (s : S) → wrap (inner s) ≡ s)
    (l : IsAtomic T) where
  forward-IsStorage : IsStorage S ⦃t = forward wrap inner⦄
  forward-IsStorage = record {
    IsValid = λ s. l.IsValid (inner s);
    new-IsValid = λ z h. rw (inner-wrap (t.new z)) (l.new-IsValid z h);
    store-IsValid = λ s z h. rw (inner-wrap (t.store (inner s) z)) (l.store-IsValid (inner s) z h);
    load-IsF64 = λ s v. l.load-IsF64 (inner s) v;
    load-new = λ z h. rw (inner-wrap (t.new z)) (l.load-new z h);
    load-store = λ s z h. rw (inner-wrap (t.store (inner s) z)) (l.load-store (inner s) z h);
    store-store = λ s y z. rw (inner-wrap (t.store (inner s) y), l.store-store (inner s) y z);
    exchange_quiet = λ s z v. rw (l.exchange_quiet (inner s) z v);
  }

  forward_won :
      (b : Bool) (s : S) (y z : F64) {s' : S}
      → IsF64 y
      → (forward wrap inner).compare_exchange_weak b s y z ≡ (ok tt, s')
      → (t.load (inner s) ≡ y) × (s' ≡ wrap (t.store (inner s) z))
  forward_won b s y z h e =
      let p = t.compare_exchange_weak b (inner s) y z in
      let (found, stored) = l.exchange_won b (inner s) y z h (λ i. ((e i).0, p.1)) in
      (found, sym (λ i. (e i).1) ∙ ap wrap stored)

  forward_lost :
      (b : Bool) (s : S) (y z : F64) {s' : S} {x : F64}
      → (forward wrap inner).compare_exchange_weak b s y z ≡ (err x, s')
      → (x ≡ t.load (inner s)) × (s' ≡ s)
  forward_lost b s y z e =
      let p = t.compare_exchange_weak b (inner s) y z in
      let (found, kept) = l.exchange_lost b (inner s) y z (λ i. ((e i).0, p.1)) in
      (found, sym (λ i. (e i).1) ∙ ap wrap kept ∙ wrap-inner s)

  pub forward-IsAtomic : IsAtomic S ⦃t = forward wrap inner⦄
  forward-IsAtomic = record {
    storage = forward-IsStorage;
    exchange_won = λ b s y z h e. forward_won b s y z h e;
    exchange_lost = λ b s y z e. forward_lost b s y z e;
  }

pub record AtomicStorage : Type 0 where
  pub inner : AtomicF64

pub record AtomicSharedStorage : Type 0 where
  pub arc : AtomicF64

pub record PaddedAtomicStorage : Type 0 where
  pub inner : CachePadded AtomicF64

pub record PaddedAtomicSharedStorage : Type 0 where
  pub arc : CachePadded AtomicF64

instance abbrev pub atomic_storage : TimeStorage AtomicStorage
atomic_storage = forward (λ (a : AtomicF64). record { inner = a }) (λ s. s.inner)

instance abbrev pub atomic_shared_storage : TimeStorage AtomicSharedStorage
atomic_shared_storage = forward (λ (a : AtomicF64). record { arc = a }) (λ s. s.arc)

instance abbrev pub padded_atomic_storage : TimeStorage PaddedAtomicStorage
padded_atomic_storage =
    forward (λ (a : AtomicF64). record { inner = record { value = a } }) (λ s. s.inner.value)

instance abbrev pub padded_atomic_shared_storage : TimeStorage PaddedAtomicSharedStorage
padded_atomic_shared_storage =
    forward (λ (a : AtomicF64). record { arc = record { value = a } }) (λ s. s.arc.value)

pub AtomicStorage-IsAtomic : IsAtomic AtomicStorage
AtomicStorage-IsAtomic = forward-IsAtomic _ _ (λ _. refl) (λ _. refl) AtomicF64-IsAtomic

pub AtomicSharedStorage-IsAtomic : IsAtomic AtomicSharedStorage
AtomicSharedStorage-IsAtomic = forward-IsAtomic _ _ (λ _. refl) (λ _. refl) AtomicF64-IsAtomic

pub PaddedAtomicStorage-IsAtomic : IsAtomic PaddedAtomicStorage
PaddedAtomicStorage-IsAtomic = forward-IsAtomic _ _ (λ _. refl) (λ _. refl) AtomicF64-IsAtomic

pub PaddedAtomicSharedStorage-IsAtomic : IsAtomic PaddedAtomicSharedStorage
PaddedAtomicSharedStorage-IsAtomic = forward-IsAtomic _ _ (λ _. refl) (λ _. refl) AtomicF64-IsAtomic
