-- ===== src/Storage/Linear.antt =====
-- The compare-exchange loops of src/storage.rs, round by round.
use gardal.Prelude.{◌≡◌, refl, sym, ap, Option, none, some, List, [], ◌∷◌, ◌++◌, Result, ok, err}
use gardal.Float.Value.{F64, IsF64}
use gardal.Storage.Interface.{
  TimeStorage, Interference, World, disturb, disturb_all, settle, load, IsStorage, IsAtomic,
}
use gardal.Storage.Loop.{Turn, stop, swap, cas_loop, update, atomically}

abbrev pub OptionAll : (F64 → Type 0) → Option F64 → Type 0
OptionAll P none = Unit
OptionAll P (some v) = P v

-- Other threads write values of the format.
abbrev pub IsBenign : List Interference → Type 0
IsBenign [] = Unit
IsBenign (e ∷ es) = OptionAll IsF64 e.write × IsBenign es

outcome : {A B : Type 0} {p : A × B} {a : A} {b : B} → p ≡ (a, b) → p.0 ≡ a
outcome e = ap (λ q. q.0) e

rest : {A B : Type 0} {p : A × B} {a : A} {b : B} → p ≡ (a, b) → p.1 ≡ b
rest e = ap (λ q. q.1) e

module _ {S R : Type 0} ⦃t : TimeStorage S⦄ (turn : F64 → Turn R) (l : IsAtomic S) where
  pub disturb-IsValid :
      (e : Interference) (s : S) → OptionAll IsF64 e.write → l.IsValid s → l.IsValid (disturb e s)
  disturb-IsValid e s b v = go e.write b
    where
      go :
          (w : Option F64)
          → OptionAll IsF64 w
          → l.IsValid (elim w [ none ↦ s | some z ↦ t.store s z ])
      go none b = v
      go (some z) b = l.store-IsValid s z b

  -- What a run of the loop from `s` amounts to.
  pub record Linearized (env : List Interference) (s : S) (run : Option (R × World S))
      : Type 0 where
    pub result : R
    pub before : List Interference
    pub after : World S
    pub returns : run ≡ some (result, after)
    pub order : env ≡ before ++ after.env
    pub indivisible : atomically turn (disturb_all before s) ≡ (result, after.cell)

  last_round : (s : S) → l.IsValid s → Linearized [] s (cas_loop turn [] (t.load s) s)
  unfolding cas_loop atomically
  last_round s v = go (turn (t.load s)) refl
    where
      go : (m : Turn R) → turn (t.load s) ≡ m → Linearized [] s (cas_loop turn [] (t.load s) s)
      go (stop r) e = record {
        result = r;
        before = [];
        after = record { cell = s; env = [] };
        returns = rw (e, cas_loop);
        order = refl;
        indivisible = rw (e, atomically);
      }
      go (swap r z) e = record {
        result = r;
        before = [];
        after = record { cell = t.store s z; env = [] };
        returns =
            rw (e, cas_loop) (rw (outcome (l.exchange_quiet s z v), rest (l.exchange_quiet s z v)));
        order = refl;
        indivisible = rw (e, atomically);
      }

  one_round :
      (i : Interference) (is : List Interference) (s : S)
      → l.IsValid s
      → (let s₁ = disturb i s in Linearized is s₁ (cas_loop turn is (t.load s₁) s₁))
      → Linearized (i ∷ is) s (cas_loop turn (i ∷ is) (t.load s) s)
  unfolding cas_loop atomically
  one_round i is s v again = go (turn (t.load s)) refl
    where
      s₁ : S
      s₁ = disturb i s

      try_swap :
          (r : R) (z : F64)
          → turn (t.load s) ≡ swap r z
          → (res : Result (Unit {0}) F64) (s' : S)
          → t.compare_exchange_weak i.spurious s₁ (t.load s) z ≡ (res, s')
          → Linearized (i ∷ is) s (cas_loop turn (i ∷ is) (t.load s) s)
      try_swap r z e (ok tt) s' x =
          let (found, stored) = l.exchange_won i.spurious s₁ (t.load s) z (l.load-IsF64 s v) x in
          record {
            result = r;
            before = i ∷ [];
            after = record { cell = s'; env = is };
            returns = rw (e, cas_loop) (rw (outcome x, rest x));
            order = refl;
            indivisible = rw (found, e, atomically) (ap (λ c. (r, c)) (sym stored));
          }
      try_swap r z e (err a) s' x =
          let (found, kept) = l.exchange_lost i.spurious s₁ (t.load s) z x in
          record {
            result = again.result;
            before = i ∷ again.before;
            after = again.after;
            returns = rw (e, cas_loop) (rw (outcome x, rest x, found, kept) again.returns);
            order = ap (λ es. i ∷ es) again.order;
            indivisible = again.indivisible;
          }

      go :
          (m : Turn R)
          → turn (t.load s) ≡ m
          → Linearized (i ∷ is) s (cas_loop turn (i ∷ is) (t.load s) s)
      go (stop r) e = record {
        result = r;
        before = [];
        after = record { cell = s; env = i ∷ is };
        returns = rw (e, cas_loop);
        order = refl;
        indivisible = rw (e, atomically);
      }
      go (swap r z) e = try_swap r z e _ _ refl

  pub cas_loop-Linearized :
      (env : List Interference) (s : S)
      → IsBenign env
      → l.IsValid s
      → Linearized env s (cas_loop turn env (t.load s) s)
  cas_loop-Linearized [] s b v = last_round s v
  cas_loop-Linearized (i ∷ is) s b v =
      one_round i is s v (cas_loop-Linearized is (disturb i s) b.1 (disturb-IsValid i s b.0 v))

  from_load :
      (env : List Interference) (s : S)
      → IsBenign env
      → l.IsValid s
      → Linearized env s (update turn (record { cell = s; env = env }))
  unfolding update settle load
  from_load [] s b v = cas_loop-Linearized [] s b v
  from_load (i ∷ is) s b v =
      let tail = cas_loop-Linearized is (disturb i s) b.1 (disturb-IsValid i s b.0 v) in
      record {
        result = tail.result;
        before = i ∷ tail.before;
        after = tail.after;
        returns = tail.returns;
        order = ap (λ es. i ∷ es) tail.order;
        indivisible = tail.indivisible;
      }

  -- The load comes first, and the loop goes on from what it found.
  pub update-Linearized :
      (w : World S) → IsBenign w.env → l.IsValid w.cell → Linearized w.env w.cell (update turn w)
  update-Linearized w b v = from_load w.env w.cell b v

module _ {S R : Type 0} ⦃t : TimeStorage S⦄ (turn : F64 → Turn R) (l : IsStorage S) where
  -- Alone, one round is enough, for any storage.
  pub update_alone :
      (s : S)
      → l.IsValid s
      → let (r, s') = atomically turn s in
        update turn (record { cell = s; env = [] }) ≡ some (r, record { cell = s'; env = [] })
  unfolding update settle load cas_loop atomically
  update_alone s v = go (turn (t.load s)) refl
    where
      go :
          (m : Turn R)
          → turn (t.load s) ≡ m
          → let (r, s') = atomically turn s in
            update turn (record { cell = s; env = [] }) ≡ some (r, record { cell = s'; env = [] })
      go (stop r) e = rw (e, cas_loop, atomically)
      go (swap r z) e =
          rw (e, cas_loop, atomically)
            (rw (outcome (l.exchange_quiet s z v), rest (l.exchange_quiet s z v)))
