-- ===== src/Aliases.antt =====
-- The type aliases of src/lib.rs.
use gardal.Storage.Local.{LocalStorage}
use gardal.Storage.Atomics.{AtomicStorage, PaddedAtomicSharedStorage}
use gardal.Bucket.{TokenBucket}

abbrev pub LocalTokenBucket : Type 0 → Type 0
LocalTokenBucket C = TokenBucket LocalStorage C

abbrev pub AtomicTokenBucket : Type 0 → Type 0
AtomicTokenBucket C = TokenBucket AtomicStorage C

abbrev pub SharedTokenBucket : Type 0 → Type 0
SharedTokenBucket C = TokenBucket PaddedAtomicSharedStorage C
