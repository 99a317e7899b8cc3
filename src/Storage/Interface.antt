-- ===== src/Storage/Interface.antt =====
-- The trait `TimeStorage` of src/storage.rs, and what happens to a storage between the accesses of
-- one operation: other threads write to it, and a weak compare-exchange may fail for no reason.
use gardal.Prelude.{Bool, false, Option, none, some, List, [], ◌∷◌, ◌≡◌, Result, ok, err}
use gardal.Float.Value.{F64, IsF64}

pub record TimeStorage (S : Type 0) : Type 0 where
  pub new : F64 → S
  pub load : S → F64
  pub store : S → F64 → S
  -- The Boolean is true where the hardware lets the exchange fail although the values agree.
  pub compare_exchange_weak : Bool → S → F64 → F64 → Result (Unit {0}) F64 × S

-- What comes between one access of an operation and the next.
pub record Interference : Type 0 where
  pub write : Option F64
  pub spurious : Bool

-- A storage with the interferences that are still to come; after the last one it is left alone.
pub record World (S : Type 0) : Type 0 where
  pub cell : S
  pub env : List Interference

-- An operation on a shared storage. `none` means that it does not return.
abbrev pub M : Type 0 → Type 0 → Type 0
M S A = World S → Option (A × World S)

abbrev pub pure : {S A : Type 0} → A → M S A
pure a w = some (a, w)

infixl 5 ◌>>=◌ ◌>>◌
abbrev pub ◌>>=◌ : {S A B : Type 0} → M S A → (A → M S B) → M S B
◌>>=◌ m f w = elim (m w) [ none ↦ none | some (a, w') ↦ f a w' ]

abbrev pub ◌>>◌ : {S B : Type 0} → M S (Unit {0}) → M S B → M S B
m >> k = m >>= λ _. k

-- The rest of a block, after a first part whose outcome is known.
pub >>=-eq_of :
    {S A B : Type 0} (m : M S A) (f : A → M S B) (w : World S) {a : A} {w' : World S}
    → m w ≡ some (a, w')
    → (m >>= f) w ≡ f a w'
>>=-eq_of m f w e = rw (e, ◌>>=◌)

module _ {S : Type 0} ⦃t : TimeStorage S⦄ where
  abbrev pub disturb : Interference → S → S
  disturb e s = elim (e.write) [ none ↦ s | some v ↦ t.store s v ]

  abbrev pub disturb_all : List Interference → S → S
  disturb_all [] s = s
  disturb_all (e ∷ es) s = disturb_all es (disturb e s)

  -- The next access finds the storage as the interference before it leaves it.
  unfoldable pub settle : World S → World S
  settle w = elim (w.env) [ [] ↦ w | e ∷ es ↦ record { cell = disturb e w.cell; env = es } ]

  unfoldable pub load : M S F64
  load w = let w' = settle w in some (t.load w'.cell, w')

  unfoldable pub store : F64 → M S (Unit {0})
  store v w = let w' = settle w in some (tt, record w' { cell = t.store w'.cell v })

-- What a storage is held to while no other thread interferes.
pub record IsStorage (S : Type 0) ⦃t : TimeStorage S⦄ : Type 1 where
  pub IsValid : S → Type 0
  pub new-IsValid : (z : F64) → IsF64 z → IsValid (t.new z)
  pub store-IsValid : (s : S) (z : F64) → IsF64 z → IsValid (t.store s z)
  pub load-IsF64 : (s : S) → IsValid s → IsF64 (t.load s)
  pub load-new : (z : F64) → IsF64 z → t.load (t.new z) ≡ z
  pub load-store : (s : S) (z : F64) → IsF64 z → t.load (t.store s z) ≡ z
  pub store-store : (s : S) (y z : F64) → t.store (t.store s y) z ≡ t.store s z
  pub exchange_quiet :
      (s : S) (z : F64)
      → IsValid s
      → t.compare_exchange_weak false s (t.load s) z ≡ (ok tt, t.store s z)

-- What one shared by threads is held to besides: an exchange that succeeds found the value that it
-- was given, and one that fails changes nothing and reports the value that is there.
pub record IsAtomic (S : Type 0) ⦃t : TimeStorage S⦄ : Type 1 where
  pub storage : IsStorage S
  pub open storage use *
  pub exchange_won :
      (b : Bool) (s : S) (y z : F64) {s' : S}
      → IsF64 y
      → t.compare_exchange_weak b s y z ≡ (ok tt, s')
      → (t.load s ≡ y) × (s' ≡ t.store s z)
  pub exchange_lost :
      (b : Bool) (s : S) (y z : F64) {s' : S} {x : F64}
      → t.compare_exchange_weak b s y z ≡ (err x, s')
      → (x ≡ t.load s) × (s' ≡ s)
