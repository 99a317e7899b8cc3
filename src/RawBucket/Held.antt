-- ===== src/RawBucket/Held.antt =====
-- src/raw_bucket.rs: what a call of a run leaves, where no step rounds.
use gardal.Prelude.{ℕ, ◌^◌, ◌≤◌, ◌≡◌, Option, some}
use gardal.Clock.Source.{Clock}
use gardal.Limit.{Limit}
use gardal.Storage.Interface.{TimeStorage, World, IsStorage}
use gardal.Storage.Alone.{alone}
use gardal.RawBucket.Exact.{IsScale, time, time-IsF64}

module _ {S C : Type 0} ⦃t : TimeStorage S⦄ ⦃k : Clock C⦄ (l : IsStorage S) (limit : Limit)
    (g : IsScale limit) (clock : ℕ → C)
    (clock_at : (a : ℕ) → a ≤ 2 ^ 53 → k.now (clock a) ≡ time limit g a) where
  -- The storage holds the zero time of the ideal bucket.
  pub record Holds (s : S) (z : ℕ) : Type 0 where
    pub load_eq : t.load s ≡ time limit g z
    pub valid : l.IsValid s
    pub small : z ≤ 2 ^ 53

  pub store-Holds : (s : S) (z : ℕ) → z ≤ 2 ^ 53 → Holds (t.store s (time limit g z)) z
  store-Holds s z h = record {
    load_eq = l.load-store s (time limit g z) (time-IsF64 limit g z h);
    valid = l.store-IsValid s (time limit g z) (time-IsF64 limit g z h);
    small = h;
  }

  pub record Served {A B : Type 0} (show : A → B) (run : Option (B × World S)) (q : A × ℕ)
      : Type 0 where
    pub cell : S
    pub returns : run ≡ some (show q.0, alone cell)
    pub holds : Holds cell q.1
