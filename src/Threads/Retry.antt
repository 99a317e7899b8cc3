-- ===== src/Threads/Retry.antt =====
-- The compare-exchange loops of src/storage.rs: what makes a thread go round again.
use gardal.Prelude.{
  ℕ, ◌<◌, ◌≡◌, ◌⊎◌, inl, inr, refl, sym, ◌∙◌, arith, Bool, true, false, ◌==◌, ==_self, List, [],
  ◌∷◌, length, Result, ok, err,
}
use mathlib.Core.Path.{subst}
use gardal.Float.Value.{F64}
use gardal.Storage.Interface.{TimeStorage, IsAtomic}
use gardal.Storage.Loop.{Turn, stop, swap}
use gardal.Threads.{
  Action, begin, exchange, leave, Pc, idle, trying, returned, System, start, put, proceed, finish,
  look, react, attempt, call, act, act_all,
}
use gardal.Threads.History.{IsFit, AllCalls, act_all-IsLinear, start-IsLinear}

abbrev pub in_loop : {Op R : Type 0} → Pc Op R → Bool
in_loop idle = false
in_loop (trying _ _ _ _) = true
in_loop (returned r) = false

abbrev pub thread_of : {Op : Type 0} → Action Op → ℕ
thread_of (begin i op) = i
thread_of (exchange i b) = i
thread_of (leave i) = i

-- None of the actions is the thread's.
abbrev pub AllOthers : {Op : Type 0} → ℕ → List (Action Op) → Type 0
AllOthers i [] = Unit
AllOthers i (a ∷ rest) = ((i == thread_of a) ≡ false) × AllOthers i rest

pub put_self : {A : Type 0} (i : ℕ) (a : A) (f : ℕ → A) → put i a f i ≡ a
put_self i a f = rw (==_self i) refl

pub put_other : {A : Type 0} (j i : ℕ) (a : A) (f : ℕ → A) → (i == j) ≡ false → put j a f i ≡ f i
put_other j i a f h = rw h refl

module _ {S Op R : Type 0} where
  -- The word is left as it was, or a call has returned.
  abbrev Moves : System S Op R → System S Op R → Type 0
  Moves x y = ((y.cell ≡ x.cell) × (length y.log ≡ length x.log)) ⊎ (length x.log < length y.log)

  Moves-trans : (x y z : System S Op R) → Moves x y → Moves y z → Moves x z
  Moves-trans x y z (inl (c, n)) (inl (d, m)) = inl (d ∙ c, m ∙ n)
  Moves-trans x y z (inl (c, n)) (inr m) = inr (omega (arith, n, m))
  Moves-trans x y z (inr n) (inl (d, m)) = inr (omega (arith, n, m))
  Moves-trans x y z (inr n) (inr m) = inr (omega (arith, n, m))

  proceed-Moves :
      (i : ℕ) (op : Op) (p : Pc Op R) (y : System S Op R) → Moves y (proceed i op y.cell p y)
  proceed-Moves i op idle y = inl (refl, refl)
  proceed-Moves i op (trying _ _ _ _) y = inl (refl, refl)
  proceed-Moves i op (returned r) y = inr (omega arith)

module _ {S Op R : Type 0} ⦃t : TimeStorage S⦄ (turn : Op → F64 → Turn R) (l : IsAtomic S) where
  attempt-Moves :
      (i : ℕ) (b : Bool) (p : Pc Op R) (y : System S Op R) → Moves y (attempt turn i b p y)
  unfolding attempt react
  attempt-Moves i b idle y = inl (refl, refl)
  attempt-Moves i b (returned r) y = inl (refl, refl)
  attempt-Moves i b (trying op r z old) y = go _ _ refl
    where
      go :
          (res : Result (Unit {0}) F64) (s' : S)
          → t.compare_exchange_weak b y.cell old z ≡ (res, s')
          → Moves y (proceed i op s' (react turn op r res) y)
      go (ok u) s' x = inr (omega arith)
      go (err actual) s' x =
          rw ((l.exchange_lost b y.cell old z x).1) (proceed-Moves i op (look turn op actual) y)

  call-Moves : (i : ℕ) (op : Op) (p : Pc Op R) (y : System S Op R) → Moves y (call turn i op p y)
  unfolding call
  call-Moves i op idle y = proceed-Moves i op (look turn op (t.load y.cell)) y
  call-Moves i op (trying _ _ _ _) y = inl (refl, refl)
  call-Moves i op (returned r) y = inl (refl, refl)

  finish-Moves : (i : ℕ) (p : Pc Op R) (y : System S Op R) → Moves y (finish i p y)
  finish-Moves i idle y = inl (refl, refl)
  finish-Moves i (trying _ _ _ _) y = inl (refl, refl)
  finish-Moves i (returned r) y = inl (refl, refl)

  act_all-Moves : (steps : List (Action Op)) (y : System S Op R) → Moves y (act_all turn steps y)
  unfolding act_all act
  act_all-Moves [] y = inl (refl, refl)
  act_all-Moves (begin i op ∷ rest) y =
      let y' = call turn i op (y.pc i) y in
      Moves-trans y y' (act_all turn rest y') (call-Moves i op (y.pc i) y) (act_all-Moves rest y')
  act_all-Moves (exchange i b ∷ rest) y =
      let y' = attempt turn i b (y.pc i) y in
      Moves-trans y y' (act_all turn rest y') (attempt-Moves i b (y.pc i) y) (act_all-Moves rest y')
  act_all-Moves (leave i ∷ rest) y =
      let y' = finish i (y.pc i) y in
      Moves-trans y y' (act_all turn rest y') (finish-Moves i (y.pc i) y) (act_all-Moves rest y')

  -- Where a thread is, another's action leaves it.
  module _ (i j : ℕ) (apart : (i == j) ≡ false) (y : System S Op R) where
    attempt-pc : (b : Bool) (p : Pc Op R) → (attempt turn j b p y).pc i ≡ y.pc i
    unfolding attempt
    attempt-pc b idle = refl
    attempt-pc b (returned r) = refl
    attempt-pc b (trying op r z old) =
        put_other j i (react turn op r (t.compare_exchange_weak b y.cell old z).0) y.pc apart

    call-pc : (op : Op) (p : Pc Op R) → (call turn j op p y).pc i ≡ y.pc i
    unfolding call
    call-pc op idle = put_other j i (look turn op (t.load y.cell)) y.pc apart
    call-pc op (trying _ _ _ _) = refl
    call-pc op (returned r) = refl

    finish-pc : (p : Pc Op R) → (finish j p y).pc i ≡ y.pc i
    finish-pc idle = refl
    finish-pc (trying _ _ _ _) = refl
    finish-pc (returned r) = put_other j i idle y.pc apart

  act_all-pc :
      (i : ℕ) (steps : List (Action Op)) (y : System S Op R)
      → AllOthers i steps
      → (act_all turn steps y).pc i ≡ y.pc i
  unfolding act_all act
  act_all-pc i [] y h = refl
  act_all-pc i (begin j op ∷ rest) y (h, others) =
      act_all-pc i rest _ others ∙ call-pc i j h y op (y.pc j)
  act_all-pc i (exchange j b ∷ rest) y (h, others) =
      act_all-pc i rest _ others ∙ attempt-pc i j h y b (y.pc j)
  act_all-pc i (leave j ∷ rest) y (h, others) =
      act_all-pc i rest _ others ∙ finish-pc i j h y (y.pc j)

  -- What a thread in the loop has read is still there.
  abbrev pub Fresh : S → Pc Op R → Type 0
  Fresh s idle = Unit
  Fresh s (trying op r z old) = old ≡ t.load s
  Fresh s (returned r) = Unit

  pub look-Fresh : (op : Op) (s : S) → Fresh s (look turn op (t.load s))
  unfolding look
  look-Fresh op s = go (turn op (t.load s)) refl
    where
      go : (m : Turn R) → turn op (t.load s) ≡ m → Fresh s (look turn op (t.load s))
      go (stop r) e = rw (e, look) tt
      go (swap r z) e = rw (e, look) refl

  attempt-Fresh :
      (i : ℕ) (b : Bool) (p : Pc Op R) (y : System S Op R)
      → y.pc i ≡ p
      → let y' = attempt turn i b p y in Fresh y'.cell (y'.pc i)
  unfolding attempt react
  attempt-Fresh i b idle y e = rw e tt
  attempt-Fresh i b (returned r) y e = rw e tt
  attempt-Fresh i b (trying op r z old) y e = go _ _ refl
    where
      go :
          (res : Result (Unit {0}) F64) (s' : S)
          → t.compare_exchange_weak b y.cell old z ≡ (res, s')
          → Fresh s' ((proceed i op s' (react turn op r res) y).pc i)
      go (ok u) s' x = rw (put_self i (returned r) y.pc) tt
      go (err actual) s' x =
          let (found, kept) = l.exchange_lost b y.cell old z x in
          rw (put_self i (look turn op actual) y.pc, found, kept) (look-Fresh op y.cell)

  -- With what it read still there, an exchange that the hardware does not fail ends the call.
  exchange_ends :
      (i : ℕ) (p : Pc Op R) (y : System S Op R)
      → l.IsValid y.cell
      → y.pc i ≡ p
      → Fresh y.cell p
      → in_loop ((attempt turn i false p y).pc i) ≡ false
  unfolding attempt react
  exchange_ends i idle y v e h = rw e refl
  exchange_ends i (returned r) y v e h = rw e refl
  exchange_ends i (trying op r z old) y v e h =
      rw (h, l.exchange_quiet y.cell z v, put_self i (returned r) y.pc) refl

  -- Between one exchange of a thread and its next one, in any schedule from a valid word that no thread
  -- is at: if the hardware does not fail the second exchange and the thread is still in the loop after
  -- it, then a call of another thread has returned in between.
  pub retry_overtaken :
      (before between : List (Action Op)) (s : S) (i : ℕ) (b : Bool)
      → AllCalls (IsFit turn) before
      → AllCalls (IsFit turn) between
      → AllOthers i between
      → l.IsValid s
      → let y = act_all turn before (start s) in
        let first = act turn (exchange i b) y in
        let second = act_all turn between first in
        (in_loop ((act turn (exchange i false) second).pc i) ≡ false)
        ⊎ (length first.log < length second.log)
  unfolding act act_all
  retry_overtaken before between s i b fit fit' others v =
      let fits : (op : Op) → IsFit turn op → IsFit turn op = λ op h. h in
      let y = act_all turn before (start s) in
      let first = attempt turn i b (y.pc i) y in
      let second = act_all turn between first in
      let linear =
        act_all-IsLinear turn l (IsFit turn) fits before s (start s) fit
          (start-IsLinear turn l (IsFit turn) fits s v) in
      let linear' =
        act_all-IsLinear turn l (IsFit turn) fits (exchange i b ∷ between) s y fit' linear in
      elim (act_all-Moves between first) [
        | inl (same, _) ↦
            let kept = attempt-Fresh i b (y.pc i) y refl in
            let there =
              subst (Fresh second.cell) (sym (act_all-pc i between first others))
                (subst (λ c. Fresh c (first.pc i)) (sym same) kept) in
            inl (exchange_ends i (second.pc i) second linear'.valid refl there)
        | inr grew ↦ inr grew
      ]
