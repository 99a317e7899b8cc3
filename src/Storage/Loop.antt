-- ===== src/Storage/Loop.antt =====
-- The compare-exchange loop that src/storage.rs writes in `consume`, `consume2` and `return_tokens`.
use gardal.Prelude.{false, Option, none, some, List, [], ◌∷◌, ok, err}
use gardal.Float.Value.{F64}
use gardal.Storage.Interface.{TimeStorage, Interference, World, M, ◌>>=◌, disturb, load}

-- One round, given the zero time: return a value, or try to put a new zero time and then return.
pub data Turn (R : Type 0) : Type 0 where
  stop : R → Turn R
  swap : R → F64 → Turn R

module _ {S R : Type 0} ⦃t : TimeStorage S⦄ (turn : F64 → Turn R) where
  -- `loop { … match compare_exchange_weak(old, new) { Ok(()) => return r, Err(actual) => old = actual } }`
  -- An exchange that fails with no interference left fails for ever.
  unfoldable pub cas_loop : List Interference → F64 → S → Option (R × World S)
  cas_loop [] old s = elim (turn old) [
    | stop r ↦ some (r, record { cell = s; env = [] })
    | swap r z ↦
        let (res, s') = t.compare_exchange_weak false s old z in
        elim res [ ok _ ↦ some (r, record { cell = s'; env = [] }) | err _ ↦ none ]
  ]
  cas_loop (e ∷ es) old s = elim (turn old) [
    | stop r ↦ some (r, record { cell = s; env = e ∷ es })
    | swap r z ↦
        let (res, s') = t.compare_exchange_weak e.spurious (disturb e s) old z in
        elim res [
          | ok _ ↦ some (r, record { cell = s'; env = es })
          | err actual ↦ cas_loop es actual s'
        ]
  ]

  -- `let mut old = self.inner.load(); loop { … }`
  unfoldable pub update : M S R
  update = do old ← load; λ w. cas_loop w.env old w.cell

  -- One round as a single indivisible step.
  unfoldable pub atomically : S → R × S
  atomically s = elim (turn (t.load s)) [ stop r ↦ (r, s) | swap r z ↦ (r, t.store s z) ]
