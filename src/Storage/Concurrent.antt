-- ===== src/Storage/Concurrent.antt =====
-- src/storage.rs among threads: `consume` and `return_tokens` against indivisible steps.
use gardal.Prelude.{◌≡◌, sym, ap, ◌∙◌, some, List, ◌++◌, arith, if◌then◌else◌}
use gardal.Float.Value.{F64, zero_f64, sub, div, eq}
use gardal.Storage.Interface.{TimeStorage, Interference, World, M, disturb_all, IsAtomic}
use gardal.Storage.Loop.{Turn, update, atomically}
use gardal.Storage.Linear.{IsBenign, update-Linearized}
use gardal.Storage.Bucket
use mathlib.Core.Path.{subst, fun_ext}
use gardal.Storage.Bucket.{
  TokenAcquisition, acquired, zeroed_at, balance_of, zero_time_new, consume_turn, consume2_turn,
  return_turn,
}

-- `run` comes to `once` on the storage as a first part of the interference leaves it: it returns what
-- `once` does and leaves the storage that `once` leaves, with the rest of the interference to come.
module _ {S R : Type 0} ⦃t : TimeStorage S⦄ where
  abbrev pub ActsOnce : M S R → (S → R × S) → World S → Type 0
  ActsOnce run once w =
      (before : List Interference) × (after : World S) × (w.env ≡ before ++ after.env)
      × (run w ≡ some ((once (disturb_all before w.cell)).0, after))
      × (after.cell ≡ (once (disturb_all before w.cell)).1)

  update-ActsOnce :
      (turn : F64 → Turn R) (l : IsAtomic S) (w : World S)
      → IsBenign w.env
      → l.IsValid w.cell
      → ActsOnce (update turn) (atomically turn) w
  update-ActsOnce turn l w b v =
      let r = update-Linearized turn l w b v in
      (
        r.before,
        r.after,
        r.order,
        r.returns ∙ ap (λ c. some (c, r.after)) (sym (λ i. (r.indivisible i).0)),
        sym (λ i. (r.indivisible i).1),
      )

-- What the operations mean, as steps on a storage that nobody else touches meanwhile.
module _ {S : Type 0} ⦃t : TimeStorage S⦄ where
  pub consume_once : F64 → F64 → F64 → (F64 → F64) → S → F64 × S
  consume_once rate burst_size now f s =
      let available = balance_of rate burst_size now (t.load s) in
      let consumed = f available in
      if eq consumed zero_f64
      then (zero_f64, s)
      else (consumed, t.store s (zero_time_new rate now available consumed))

  pub return_once : F64 → F64 → S → F64 × S
  return_once tokens rate s = let z = sub (t.load s) (div tokens rate) in (z, t.store s z)

  atomically-consume :
      (rate burst_size now : F64) (f : F64 → F64) (s : S)
      → atomically (consume_turn rate burst_size now f) s ≡ consume_once rate burst_size now f s
  unfolding atomically consume_turn consume_once
  atomically-consume rate burst_size now f s = ground arith

  -- `consume` on an atomic storage in a valid state, with any interference by other threads that
  -- write values of the format, returns; and it acts as one indivisible `consume_once` on the
  -- storage as it is between two interferences, whatever it read before.
  pub consume-ActsOnce :
      (l : IsAtomic S) (rate burst_size now : F64) (f : F64 → F64) (w : World S)
      → IsBenign w.env
      → l.IsValid w.cell
      → ActsOnce (Bucket.consume rate burst_size now f) (consume_once rate burst_size now f) w
  unfolding Bucket.consume
  consume-ActsOnce l rate burst_size now f w b v =
      let turn = consume_turn rate burst_size now f in
      subst (λ o. ActsOnce (update turn) o w) (fun_ext (atomically-consume rate burst_size now f))
        (update-ActsOnce turn l w b v)

  -- `return_tokens` on an atomic storage in a valid state, with any interference by other threads that
  -- write values of the format, returns; and it acts as one indivisible `return_once` on the
  -- storage as it is between two interferences.
  pub return_tokens-ActsOnce :
      (l : IsAtomic S) (tokens rate : F64) (w : World S)
      → IsBenign w.env
      → l.IsValid w.cell
      → ActsOnce (Bucket.return_tokens tokens rate) (return_once tokens rate) w
  unfolding Bucket.return_tokens return_once return_turn atomically
  return_tokens-ActsOnce l tokens rate w b v = update-ActsOnce (return_turn tokens rate) l w b v
