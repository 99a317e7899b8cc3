-- ===== src/Bucket/Alone.antt =====
-- src/bucket.rs: the constructors and the changes of limit of a bucket that one thread has.
use gardal.Prelude.{ℕ, ◌*◌, ◌^◌, ◌≤◌, ◌≡◌, refl, ◌∙◌, some, none, true, arith, sym}
use gardal.Float.Value.{one, zero_f64, of_int, sub, div, lt, IsF64}
use gardal.Float.Exact.{of_int-exact, one-pos}
use gardal.Clock.Source.{Clock}
use gardal.Limit.{Limit}
use gardal.Storage.Interface.{TimeStorage, IsStorage, load, store, settle}
use gardal.Storage.Bucket as Zero
use gardal.Storage.Bucket.{balance_of}
use gardal.Storage.Alone.{alone}
use gardal.RawBucket
use gardal.RawBucket.{set_capacity, balance_at}
use gardal.RawBucket.Outcome.{IsNonZeroU32, avail, consume-after}
use gardal.RawBucket.Borrow.{IsRegular, balance_of_self}
use gardal.RawBucket.Amounts.{zero-lt_pos}
use gardal.Bucket
use gardal.Bucket.{TokenBucket, on_raw, set_limit, with_datum, update_limit}
use native.Mathlib.Nat.{mul-pos}

module _ {S C : Type 0} ⦃t : TimeStorage S⦄ ⦃k : Clock C⦄ (l : IsStorage S) (limit : Limit)
    (clock : C) (g : IsRegular limit (k.now clock)) (at_datum : k.now clock ≡ k.datum clock) where
  now_IsF64 : IsF64 (k.datum clock)
  now_IsF64 = rw (sym at_datum, g.now_eq) g.now_fits

  starts_empty :
      avail l (t.new (k.datum clock)) (l.new-IsValid (k.datum clock) now_IsF64) clock limit
      ≡ zero_f64
  starts_empty =
      rw (l.load-new (k.datum clock) now_IsF64, sym at_datum)
        (balance_of_self limit (k.now clock) g)

  -- A bucket made by `with_datum` is empty where its clock's time is its datum, with a positive finite
  -- rate, a finite time and a burst that is not below 0: it refuses every request for 1 to 2^32 - 1
  -- tokens, and stays as it is.
  pub with_datum-empty :
      (n : ℕ)
      → IsNonZeroU32 n
      → Bucket.consume {S = S} n (alone (with_datum limit clock))
        ≡ some (none, alone (with_datum limit clock))
  unfolding Bucket.consume on_raw with_datum RawBucket.new
  with_datum-empty n h =
      let s = t.new (k.datum clock) in
      let v = l.new-IsValid (k.datum clock) now_IsF64 in
      let small : n ≤ 2 ^ 53 = omega (arith, h.1) in
      let short : lt zero_f64 (of_int n) ≡ true =
        rw (of_int-exact n small) (zero-lt_pos (n * one) (mul-pos h.0 one-pos)) in
      let refused : RawBucket.consume n clock limit (alone s) ≡ some (none, alone s) =
        consume-after l s v clock limit n h ∙ rw (starts_empty, short) in
      rw (refused, on_raw)

module _ {S C : Type 0} ⦃t : TimeStorage S⦄ ⦃k : Clock C⦄ (b : TokenBucket S C)
    (new_limit : Limit) where
  -- The bucket with a new limit, and its balance under the old one.
  abbrev pub relimited : TokenBucket S C
  relimited =
      let now = k.now b.clock in
      let balance = balance_of b.limit.rate b.limit.burst now (t.load b.bucket) in
      record b {
        bucket = t.store b.bucket (sub now (div balance new_limit.rate));
        limit = new_limit;
      }

  -- `reset` and `update_limit` do the same on a bucket that no other thread touches: they set the
  -- limit, and move the zero time to where the new rate gives the balance, debts too, that the old
  -- limit gave.
  pub reset-update_limit :
      (Bucket.reset new_limit (alone b) ≡ some (tt, alone relimited))
      × (update_limit new_limit (alone b) ≡ some (tt, alone relimited))
  unfolding Bucket.reset update_limit on_raw set_limit balance_at set_capacity Zero.balance
      Zero.reset load store settle
  reset-update_limit = (refl, refl)
