-- ===== src/Storage/Answers.antt =====
-- src/storage.rs: what can be said of any result of an operation, if it returns.
use gardal.Prelude.{◌≡◌, refl, ap, false, Option, none, some, List, [], ◌∷◌, Result, ok, err}
use mathlib.Core.Path.{subst}
use gardal.Float.Value.{F64}
use gardal.Storage.Interface.{TimeStorage, World, M, ◌>>=◌, settle, load, disturb, Interference}
use gardal.Storage.Loop.{Turn, stop, swap, cas_loop, update}
use gardal.Storage.Progress.{result_of}

-- If the operation returns, its result is of this kind.
abbrev pub Answers : {S A : Type 0} → (A → Type 0) → Option (A × World S) → Type 0
Answers P none = Unit
Answers P (some (a, w)) = P a

module _ {S A B : Type 0} (m : M S A) (f : A → M S B) (w : World S) where
  pub bind-Answers :
      (P : A → Type 0) (Q : B → Type 0)
      → ((a : A) (w' : World S) → P a → Answers Q (f a w'))
      → Answers P (m w)
      → Answers Q ((m >>= f) w)
  bind-Answers P Q h = go (m w)
    where
      go :
          (o : Option (A × World S))
          → Answers P o
          → Answers Q (elim o [ none ↦ none | some (a, w') ↦ f a w' ])
      go none p = tt
      go (some (a, w')) p = h a w' p

  -- The rest says it, whatever came first.
  pub tail-Answers :
      (Q : B → Type 0) → ((a : A) (w' : World S) → Answers Q (f a w')) → Answers Q ((m >>= f) w)
  tail-Answers Q h = go (m w)
    where
      go : (o : Option (A × World S)) → Answers Q (elim o [ none ↦ none | some (a, w') ↦ f a w' ])
      go none = tt
      go (some (a, w')) = h a w'

-- What holds of the result of every round holds of the loop's.
module _ {S R : Type 0} ⦃t : TimeStorage S⦄ (turn : F64 → Turn R) (P : R → Type 0)
    (every : (z : F64) → P (result_of (turn z))) where
  -- The rest of a round, after its exchange.
  tried-Answers :
      {r : R} (env : List Interference) (next : F64 → S → Option (R × World S))
      (q : Result (Unit {0}) F64 × S)
      → P r
      → ((x : F64) (s' : S) → Answers P (next x s'))
      → Answers P
          (elim (q.0) [ ok _ ↦ some (r, record { cell = q.1; env = env }) | err x ↦ next x q.1 ])
  tried-Answers env next (ok u, s') p again = p
  tried-Answers env next (err x, s') p again = again x s'

  last-Answers :
      (old : F64) (s : S) (m : Turn R) → turn old ≡ m → Answers P (cas_loop turn [] old s)
  unfolding cas_loop
  last-Answers old s (stop r) e = rw (e, cas_loop) (subst P (ap result_of e) (every old))
  last-Answers old s (swap r z) e =
      rw (e, cas_loop)
        (tried-Answers [] (λ x s'. none) (t.compare_exchange_weak false s old z)
          (subst P (ap result_of e) (every old)) (λ x s'. tt))

  round-Answers :
      (i : Interference) (env : List Interference) (old : F64) (s : S) (m : Turn R)
      → turn old ≡ m
      → ((x : F64) (s' : S) → Answers P (cas_loop turn env x s'))
      → Answers P (cas_loop turn (i ∷ env) old s)
  unfolding cas_loop
  round-Answers i env old s (stop r) e again =
      rw (e, cas_loop) (subst P (ap result_of e) (every old))
  round-Answers i env old s (swap r z) e again =
      rw (e, cas_loop)
        (tried-Answers env (cas_loop turn env)
          (t.compare_exchange_weak i.spurious (disturb i s) old z)
          (subst P (ap result_of e) (every old)) again)

  cas_loop-Answers :
      (env : List Interference) (old : F64) (s : S) → Answers P (cas_loop turn env old s)
  cas_loop-Answers [] old s = last-Answers old s (turn old) refl
  cas_loop-Answers (i ∷ is) old s = round-Answers i is old s (turn old) refl (cas_loop-Answers is)

  pub update-Answers : (w : World S) → Answers P (update turn w)
  unfolding update load settle
  update-Answers w = cas_loop-Answers _ _ _
