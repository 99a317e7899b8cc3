-- ===== src/Threads.antt =====
-- The compare-exchange loops of src/storage.rs as threads run them: one access to the shared word is one
-- step, and the steps of the threads come in any order.
pub mod History
pub mod Quota
pub mod Enough
pub mod Retry
pub mod Tally
pub mod Bound
pub mod Changes
pub mod Mixed
mod Tests
use gardal.Prelude.{ℕ, Bool, true, false, ◌==◌, if◌then◌else◌, List, [], ◌∷◌, Result, ok, err}
use gardal.Float.Value.{F64}
use gardal.Storage.Interface.{TimeStorage}
use gardal.Storage.Loop.{Turn, stop, swap}

-- What the scheduler picks: a thread that calls an operation and loads the word; one that tries its
-- exchange, which the hardware may fail; one that goes on with its own work after a call.
pub data Action (Op : Type 0) : Type 0 where
  begin : ℕ → Op → Action Op
  exchange : ℕ → Bool → Action Op
  leave : ℕ → Action Op

-- A thread in a call is before its exchange, with what this round returns and puts, and the value that
-- it read; or it has returned.
pub data Pc (Op R : Type 0) : Type 0 where
  idle : Pc Op R
  trying : Op → R → F64 → F64 → Pc Op R
  returned : R → Pc Op R

pub record Entry (Op R : Type 0) : Type 0 where
  pub thread : ℕ
  pub op : Op
  pub result : R

-- The log has the calls that have returned, the last one first.
pub record System (S Op R : Type 0) : Type 0 where
  pub cell : S
  pub pc : ℕ → Pc Op R
  pub log : List (Entry Op R)

abbrev pub start : {S Op R : Type 0} → S → System S Op R
start s = record { cell = s; pc = λ _. idle; log = [] }

abbrev pub log_of : {Op R : Type 0} → ℕ → Op → Pc Op R → List (Entry Op R) → List (Entry Op R)
log_of i op idle log = log
log_of i op (trying _ _ _ _) log = log
log_of i op (returned r) log = record { thread = i; op = op; result = r } ∷ log

abbrev pub put : {A : Type 0} → ℕ → A → (ℕ → A) → ℕ → A
put i a f j = if j == i then a else f j

-- Thread `i`, in a call of `op`, makes the access that leaves the storage and the thread so.
abbrev pub proceed : {S Op R : Type 0} → ℕ → Op → S → Pc Op R → System S Op R → System S Op R
proceed i op s p y = record { cell = s; pc = put i p y.pc; log = log_of i op p y.log }

abbrev pub finish : {S Op R : Type 0} → ℕ → Pc Op R → System S Op R → System S Op R
finish i idle y = y
finish i (trying _ _ _ _) y = y
finish i (returned r) y = record y { pc = put i idle y.pc }

module _ {Op R : Type 0} (turn : Op → F64 → Turn R) where
  -- The top of the loop, with the value that was read.
  unfoldable pub look : Op → F64 → Pc Op R
  look op old = elim (turn op old) [ stop r ↦ returned r | swap r z ↦ trying op r z old ]

  -- The `match` on the outcome of the exchange.
  unfoldable pub react : Op → R → Result (Unit {0}) F64 → Pc Op R
  react op r (ok _) = returned r
  react op r (err actual) = look op actual

module _ {S Op R : Type 0} ⦃t : TimeStorage S⦄ (turn : Op → F64 → Turn R) where
  unfoldable pub attempt : ℕ → Bool → Pc Op R → System S Op R → System S Op R
  attempt i spurious (trying op r z old) y =
      let (res, s) = t.compare_exchange_weak spurious y.cell old z in
      proceed i op s (react turn op r res) y
  attempt i spurious idle y = y
  attempt i spurious (returned r) y = y

  unfoldable pub call : ℕ → Op → Pc Op R → System S Op R → System S Op R
  call i op idle y = proceed i op y.cell (look turn op (t.load y.cell)) y
  call i op (trying _ _ _ _) y = y
  call i op (returned r) y = y

  unfoldable pub act : Action Op → System S Op R → System S Op R
  act (begin i op) y = call i op (y.pc i) y
  act (exchange i spurious) y = attempt i spurious (y.pc i) y
  act (leave i) y = finish i (y.pc i) y

  -- The first action of the schedule comes first.
  unfoldable pub act_all : List (Action Op) → System S Op R → System S Op R
  act_all [] y = y
  act_all (a ∷ rest) y = act_all rest (act a y)
