-- ===== src/RawBucket/Agree.antt =====
-- src/raw_bucket.rs: `try_consume` and `consume` compared.
use gardal.Prelude.{
  ℕ, ◌≡◌, refl, sym, ap, ◌∙◌, Option, some, none, List, [], ◌∷◌, arith, inl, inr, Bool-cases,
  Result, ok, err,
}
use gardal.Float.Value.{F64, zero_f64, of_int, eq}
use gardal.Clock.Source.{Clock}
use gardal.Tokens
use gardal.Tokens.{Tokens}
use gardal.Limit.{Limit}
use gardal.Error.{RateLimited}
use gardal.Storage.Interface.{TimeStorage, Interference, World, M, ◌>>=◌, pure, settle, load}
use gardal.Storage.Loop.{Turn, stop, swap, cas_loop, update}
use gardal.Storage.Bucket
use gardal.Storage.Bucket.{TokenAcquisition, acquired, zeroed_at, consume_turn, consume2_turn}
use gardal.RawBucket
use gardal.RawBucket.{all_or_nothing, or_retry}
use mathlib.Core.Path.{fun_ext}

abbrev map_turn : {A B : Type 0} → (A → B) → Turn A → Turn B
map_turn f (stop r) = stop (f r)
map_turn f (swap r z) = swap (f r) z

module _ {A B S : Type 0} (f : A → B) where
  -- The result of a run, changed by a function.
  abbrev pub map_result : Option (A × World S) → Option (B × World S)
  map_result none = none
  map_result (some (a, w)) = some (f a, w)

-- Loops whose rounds correspond have results that correspond.
module _ {A B S : Type 0} ⦃t : TimeStorage S⦄ (f : A → B) (p : F64 → Turn A) (q : F64 → Turn B)
    (same : (z : F64) → q z ≡ map_turn f (p z)) where
  cas_loop-map :
      (env : List Interference) (old : F64) (s : S)
      → cas_loop q env old s ≡ map_result f (cas_loop p env old s)
  unfolding cas_loop
  cas_loop-map [] old s = go (p old) refl
    where
      go : (m : Turn A) → p old ≡ m → cas_loop q [] old s ≡ map_result f (cas_loop p [] old s)
      go (stop r) e = rw (same old, e, cas_loop)
      go (swap r z) e = rw (same old, e, cas_loop) (ground arith)
  cas_loop-map (i ∷ is) old s = go (p old) refl (cas_loop-map is)
    where
      after_exchange :
          (r : A)
          → ((old : F64) (s : S) → cas_loop q is old s ≡ map_result f (cas_loop p is old s))
          → (res : Result (Unit {0}) F64) (s' : S)
          → elim res [
            | ok _ ↦ some (f r, record { cell = s'; env = is })
            | err a ↦ cas_loop q is a s'
          ]
            ≡ map_result f (elim res [
              | ok _ ↦ some (r, record { cell = s'; env = is })
              | err a ↦ cas_loop p is a s'
            ])
      after_exchange r ih (ok _) s' = refl
      after_exchange r ih (err a) s' = ih a s'

      go :
          (m : Turn A)
          → p old ≡ m
          → ((old : F64) (s : S) → cas_loop q is old s ≡ map_result f (cas_loop p is old s))
          → cas_loop q (i ∷ is) old s ≡ map_result f (cas_loop p (i ∷ is) old s)
      go (stop r) e ih = rw (same old, e, cas_loop)
      go (swap r z) e ih = rw (same old, e, cas_loop) (after_exchange r ih _ _)

  update-map : (w : World S) → update q w ≡ map_result f (update p w)
  unfolding update load
  update-map w = cas_loop-map (settle w).env (t.load (settle w).cell) (settle w).cell

module _ {A B S : Type 0} (f : A → B) where
  bind-pure : (m : M S A) (w : World S) → (m >>= λ a. pure (f a)) w ≡ map_result f (m w)
  bind-pure m w = go (m w)
    where
      go :
          (o : Option (A × World S))
          → elim o [ none ↦ none | some (a, w') ↦ some (f a, w') ] ≡ map_result f o
      go none = refl
      go (some (a, w')) = refl

-- Leaves out the time to wait.
abbrev pub granted_of : Result Tokens RateLimited → Option Tokens
granted_of (ok t) = some t
granted_of (err _) = none

-- The tokens of an acquisition.
abbrev tokens_of : TokenAcquisition → Option Tokens
tokens_of (acquired c) = some (Tokens.new_unchecked c)
tokens_of (zeroed_at _) = none

turns_agree :
    (rate burst_size now : F64) (f : F64 → F64) (z : F64)
    → map_turn Tokens.new_checked (consume_turn rate burst_size now f z)
      ≡ map_turn tokens_of (consume2_turn rate burst_size now f z)
unfolding consume_turn consume2_turn Tokens.new_checked eq
turns_agree rate burst_size now f z =
    let c = f (Bucket.balance_of rate burst_size now z) in
    elim (Bool-cases (eq c zero_f64)) [ inl e ↦ rw e | inr e ↦ rw e (rw e) ]

module _ (n : ℕ) (now : F64) (limit : Limit) where
  abbrev decide : F64 → Turn F64
  decide = consume_turn limit.rate limit.burst now (all_or_nothing (of_int n))

  abbrev decide2 : F64 → Turn TokenAcquisition
  decide2 = consume2_turn limit.rate limit.burst now (all_or_nothing (of_int n))

  abbrev answer : TokenAcquisition → Result Tokens RateLimited
  answer = or_retry now (of_int n) limit.rate

  forget_answer :
      {S : Type 0} (o : Option (TokenAcquisition × World S))
      → map_result tokens_of o ≡ map_result granted_of (map_result answer o)
  unfolding or_retry
  forget_answer none = refl
  forget_answer (some (acquired c, w)) = refl
  forget_answer (some (zeroed_at z, w)) = refl

module _ {S C : Type 0} ⦃t : TimeStorage S⦄ ⦃k : Clock C⦄ (n : ℕ) (clock : C) (limit : Limit) where
  -- Over any storage and under any interference, `consume` grants the tokens that `try_consume` grants,
  -- leaves the same bucket, and returns exactly where `try_consume` does.
  pub consume-try_consume :
      (w : World S)
      → RawBucket.consume n clock limit w
        ≡ map_result granted_of (RawBucket.try_consume n clock limit w)
  unfolding RawBucket.consume RawBucket.try_consume Bucket.consume Bucket.consume2
  consume-try_consume w =
      let now = k.now clock in
      let p : F64 → Turn F64 = decide n now limit in
      let q : F64 → Turn TokenAcquisition = decide2 n now limit in
      let same = turns_agree limit.rate limit.burst now (all_or_nothing (of_int n)) in
      bind-pure Tokens.new_checked (update p) w
      ∙ sym (update-map Tokens.new_checked p (λ z. map_turn Tokens.new_checked (p z)) (λ _. refl) w)
      ∙ ap (λ (r : F64 → Turn (Option Tokens)). update r w) (fun_ext same)
      ∙ update-map tokens_of q (λ z. map_turn tokens_of (q z)) (λ _. refl) w
      ∙ forget_answer n now limit (update q w)
      ∙ ap (map_result granted_of) (sym (bind-pure (answer n now limit) (update q) w))
