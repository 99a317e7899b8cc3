-- ===== src/Threads/History.antt =====
-- The threads of src/storage.rs against calls that run one after another.
use gardal.Prelude.{
  ℕ, Bool, ◌==◌, ◌≡◌, refl, sym, ap, ◌∙◌, List, [], ◌∷◌, Result, ok, err, inl, inr, Bool-cases,
}
use gardal.Float.Value.{F64, IsF64}
use gardal.Storage.Interface.{TimeStorage, IsAtomic}
use gardal.Storage.Loop.{Turn, stop, swap, atomically}
use gardal.Storage.Progress.{Fits}
use gardal.Threads.{
  Action, begin, exchange, leave, Pc, idle, trying, returned, Entry, System, start, put, look,
  react, proceed, attempt, call, finish, act, act_all,
}
use mathlib.Core.Path.{subst}

module _ {Op R : Type 0} (turn : Op → F64 → Turn R) where
  -- What the called operations put fits the format.
  abbrev pub IsFit : Op → Type 0
  IsFit op = (z : F64) → IsF64 z → Fits (turn op z)

module _ {Op : Type 0} (P : Op → Type 0) where
  -- The schedule has only such calls.
  abbrev pub AllCalls : List (Action Op) → Type 0
  AllCalls [] = Unit
  AllCalls (begin i op ∷ rest) = P op × AllCalls rest
  AllCalls (exchange i b ∷ rest) = AllCalls rest
  AllCalls (leave i ∷ rest) = AllCalls rest

  abbrev pub AllLogged : {R : Type 0} → List (Entry Op R) → Type 0
  AllLogged [] = Unit
  AllLogged (e ∷ es) = P e.op × AllLogged es

module _ {S Op R : Type 0} ⦃t : TimeStorage S⦄ (turn : Op → F64 → Turn R) where
  -- The storage after the calls of a log, one by one.
  abbrev pub replay : List (Entry Op R) → S → S
  replay [] s = s
  replay (e ∷ es) s = (atomically (turn e.op) (replay es s)).1

  -- The results in the log are those of its calls, one by one.
  abbrev pub IsHistory : List (Entry Op R) → S → Type 0
  IsHistory [] s = Unit
  IsHistory (e ∷ es) s = ((atomically (turn e.op) (replay es s)).0 ≡ e.result) × IsHistory es s

  -- The callers keep to P, and what such an operation puts fits the format.
  module _ (l : IsAtomic S) (P : Op → Type 0) (P-fits : (op : Op) → P op → IsFit turn op) where
    -- A thread before its exchange has what its operation makes of the value that it read.
    abbrev pub IsReady : Pc Op R → Type 0
    IsReady idle = Unit
    IsReady (returned r) = Unit
    IsReady (trying op r z old) = P op × IsF64 old × (turn op old ≡ swap r z)

    pub record IsLinear (s : S) (y : System S Op R) : Type 0 where
      pub cell_eq : y.cell ≡ replay y.log s
      pub history : IsHistory y.log s
      pub valid : l.IsValid y.cell
      pub asked : AllLogged P y.log
      pub ready : (i : ℕ) → IsReady (y.pc i)

    put-IsReady :
        (i : ℕ) (p : Pc Op R) (pc : ℕ → Pc Op R)
        → IsReady p
        → ((j : ℕ) → IsReady (pc j))
        → (j : ℕ) → IsReady (put i p pc j)
    put-IsReady i p pc h rest j = elim (Bool-cases (j == i)) [
      | inl e ↦ rw e h
      | inr e ↦ rw e (rest j)
    ]

    module _ (s : S) (y : System S Op R) (v : IsLinear s y) (i : ℕ) (op : Op) (fit : P op) where
      -- A round at the value that is there: it ends the call or readies an exchange.
      look_now :
          (m : Turn R)
          → turn op (t.load y.cell) ≡ m
          → IsLinear s (proceed i op y.cell (look turn op (t.load y.cell)) y)
      unfolding look atomically
      look_now (stop r) e =
          let (cell, res) : ((atomically (turn op) (replay y.log s)).1 ≡ y.cell)
              × ((atomically (turn op) (replay y.log s)).0 ≡ r) =
            rw (sym v.cell_eq) (rw (e, atomically) (refl, refl)) in
          rw (e, look)
            (record {
              cell_eq = sym cell;
              history = (res, v.history);
              asked = (fit, v.asked);
              valid = v.valid;
              ready = put-IsReady i (returned r) y.pc tt v.ready;
            })
      look_now (swap r z) e =
          rw (e, look)
            (record {
              cell_eq = v.cell_eq;
              history = v.history;
              asked = v.asked;
              valid = v.valid;
              ready =
                  put-IsReady i (trying op r z (t.load y.cell)) y.pc
                    (fit, l.load-IsF64 y.cell v.valid, e) v.ready;
            })

      -- An exchange that succeeds is the whole call.
      commit :
          (r : R) (z : F64)
          → turn op (t.load y.cell) ≡ swap r z
          → IsLinear s (proceed i op (t.store y.cell z) (returned r) y)
      unfolding atomically
      commit r z e =
          let (cell, res) : ((atomically (turn op) (replay y.log s)).1 ≡ t.store y.cell z)
              × ((atomically (turn op) (replay y.log s)).0 ≡ r) =
            rw (sym v.cell_eq) (rw (e, atomically) (refl, refl)) in
          record {
            cell_eq = sym cell;
            history = (res, v.history);
            asked = (fit, v.asked);
            valid =
                l.store-IsValid y.cell z
                  (rw e at (P-fits op fit (t.load y.cell) (l.load-IsF64 y.cell v.valid)));
            ready = put-IsReady i (returned r) y.pc tt v.ready;
          }

    pub start-IsLinear : (s : S) → l.IsValid s → IsLinear s (start s)
    start-IsLinear s v = record {
      cell_eq = refl;
      history = tt;
      valid = v;
      asked = tt;
      ready = λ i. tt;
    }

    pub attempt-IsLinear :
        (s : S) (y : System S Op R) (i : ℕ) (b : Bool) (p : Pc Op R)
        → IsReady p
        → IsLinear s y
        → IsLinear s (attempt turn i b p y)
    unfolding attempt react
    attempt-IsLinear s y i b idle h v = v
    attempt-IsLinear s y i b (returned r) h v = v
    attempt-IsLinear s y i b (trying op r z old) (fit, old_fits, e) v = go _ _ refl
      where
        go :
            (res : Result (Unit {0}) F64) (s' : S)
            → t.compare_exchange_weak b y.cell old z ≡ (res, s')
            → IsLinear s (proceed i op s' (react turn op r res) y)
        go (ok u) s' x =
            let (found, stored) = l.exchange_won b y.cell old z old_fits x in
            subst (λ c. IsLinear s (proceed i op c (returned r) y)) (sym stored)
              (commit s y v i op fit r z (ap (turn op) found ∙ e))
        go (err actual) s' x =
            let (found, kept) = l.exchange_lost b y.cell old z x in
            rw (found, kept) (look_now s y v i op fit (turn op (t.load y.cell)) refl)

    call-IsLinear :
        (s : S) (y : System S Op R) (i : ℕ) (op : Op) (p : Pc Op R)
        → P op
        → IsLinear s y
        → IsLinear s (call turn i op p y)
    unfolding call
    call-IsLinear s y i op idle fit v = look_now s y v i op fit (turn op (t.load y.cell)) refl
    call-IsLinear s y i op (trying _ _ _ _) fit v = v
    call-IsLinear s y i op (returned r) fit v = v

    finish-IsLinear :
        (s : S) (y : System S Op R) (i : ℕ) (p : Pc Op R) → IsLinear s y → IsLinear s (finish i p y)
    finish-IsLinear s y i idle v = v
    finish-IsLinear s y i (trying _ _ _ _) v = v
    finish-IsLinear s y i (returned r) v = record {
      cell_eq = v.cell_eq;
      history = v.history;
      asked = v.asked;
      valid = v.valid;
      ready = put-IsReady i idle y.pc tt v.ready;
    }

    pub act_all-IsLinear :
        (steps : List (Action Op)) (s : S) (y : System S Op R)
        → AllCalls P steps
        → IsLinear s y
        → IsLinear s (act_all turn steps y)
    unfolding act_all act
    act_all-IsLinear [] s y fit v = v
    act_all-IsLinear (begin i op ∷ rest) s y (f, fit) v =
        act_all-IsLinear rest s _ fit (call-IsLinear s y i op (y.pc i) f v)
    act_all-IsLinear (exchange i b ∷ rest) s y fit v =
        act_all-IsLinear rest s _ fit (attempt-IsLinear s y i b (y.pc i) (v.ready i) v)
    act_all-IsLinear (leave i ∷ rest) s y fit v =
        act_all-IsLinear rest s _ fit (finish-IsLinear s y i (y.pc i) v)

  -- From a valid word that no thread is at, under any schedule of the loads and the exchanges of any
  -- number of threads, with exchanges that fail for no reason, the calls that have returned, one by
  -- one in the order in which they returned, give the same results and leave the same word, if what
  -- the called operations put fits the format.
  pub act_all-IsHistory :
      (l : IsAtomic S) (steps : List (Action Op)) (s : S)
      → AllCalls (IsFit turn) steps
      → l.IsValid s
      → let y = act_all turn steps (start s) in IsHistory y.log s × (y.cell ≡ replay y.log s)
  act_all-IsHistory l steps s fit v =
      let fits : (op : Op) → IsFit turn op → IsFit turn op = λ op h. h in
      let r =
        act_all-IsLinear l (IsFit turn) fits steps s (start s) fit
          (start-IsLinear l (IsFit turn) fits s v) in
      (r.history, r.cell_eq)
