-- ===== src/Storage/Progress.antt =====
-- The compare-exchange loops of src/storage.rs: what an update leaves to come, and its storage.
use gardal.Prelude.{
  ◌-◌, ◌≤◌, ◌≡◌, refl, sym, ap, ◌∙◌, Option, some, List, [], ◌∷◌, ◌++◌, arith, length,
  length_append_le,
}
use gardal.Float.Value.{F64, IsF64}
use gardal.Storage.Interface.{
  TimeStorage, Interference, World, IsAtomic, disturb, disturb_all, settle, load,
}
use gardal.Storage.Loop.{Turn, stop, swap, update, atomically}
use gardal.Storage.Linear.{IsBenign, Linearized, cas_loop-Linearized, disturb-IsValid}
use mathlib.Core.Path.{subst}

abbrev pub result_of : {R : Type 0} → Turn R → R
result_of (stop r) = r
result_of (swap r z) = r

-- The new zero time of a round fits the format.
abbrev pub Fits : {R : Type 0} → Turn R → Type 0
Fits (stop r) = Unit
Fits (swap r z) = IsF64 z

-- A round, given the value that it reads.
module _ {S R : Type 0} ⦃t : TimeStorage S⦄ (turn : F64 → Turn R) (s : S) {old : F64} {r : R} where
  pub atomically-stop : t.load s ≡ old → turn old ≡ stop r → atomically turn s ≡ (r, s)
  unfolding atomically
  atomically-stop found e = rw (ap turn found ∙ e, atomically) refl

  pub atomically-swap :
      {z : F64} → t.load s ≡ old → turn old ≡ swap r z → atomically turn s ≡ (r, t.store s z)
  unfolding atomically
  atomically-swap found e = rw (ap turn found ∙ e, atomically) refl

pub IsBenign-rest : (before after : List Interference) → IsBenign (before ++ after) → IsBenign after
IsBenign-rest [] after b = b
IsBenign-rest (e ∷ es) after b = IsBenign-rest es after b.1

module _ {S R : Type 0} ⦃t : TimeStorage S⦄ (turn : F64 → Turn R) (l : IsAtomic S) where
  pub record Progress (w : World S) (run : Option (R × World S)) : Type 0 where
    pub result : R
    pub after : World S
    pub returns : run ≡ some (result, after)
    pub shorter : length after.env ≤ length w.env - 1
    pub benign : IsBenign after.env
    pub valid : l.IsValid after.cell
    pub seen : F64
    pub seen_fits : IsF64 seen
    pub decided : result ≡ result_of (turn seen)

  pub disturb_all-IsValid :
      (es rest : List Interference) (s : S)
      → IsBenign (es ++ rest)
      → l.IsValid s
      → l.IsValid (disturb_all es s)
  disturb_all-IsValid [] rest s b v = v
  disturb_all-IsValid (e ∷ es) rest s b v =
      disturb_all-IsValid es rest (disturb e s) b.1 (disturb-IsValid turn l e s b.0 v)

  module _ (fits : (z : F64) → IsF64 z → Fits (turn z)) where
    atomically-IsValid : (s : S) → l.IsValid s → l.IsValid (atomically turn s).1
    unfolding atomically
    atomically-IsValid s v = go (turn (t.load s)) refl
      where
        go : (m : Turn R) → turn (t.load s) ≡ m → l.IsValid (atomically turn s).1
        go (stop r) e = rw (e, atomically) v
        go (swap r z) e =
            rw (e, atomically) (l.store-IsValid s z (rw e at (fits (t.load s) (l.load-IsF64 s v))))

    atomically-result : (s : S) → (atomically turn s).0 ≡ result_of (turn (t.load s))
    unfolding atomically
    atomically-result s = go (turn (t.load s)) refl
      where
        go :
            (m : Turn R) → turn (t.load s) ≡ m → (atomically turn s).0 ≡ result_of (turn (t.load s))
        go (stop r) e = rw (e, atomically)
        go (swap r z) e = rw (e, atomically)

    Progress-of :
        (w : World S) (env : List Interference) (s : S) (run : Option (R × World S))
        → length env ≤ length w.env - 1
        → IsBenign env
        → l.IsValid s
        → Linearized turn l env s run
        → Progress w run
    Progress-of w env s run short b v r =
        let mid = disturb_all r.before s in
        let rest : IsBenign (r.before ++ r.after.env) = subst IsBenign r.order b in
        let mid_valid = disturb_all-IsValid r.before r.after.env s rest v in
        record {
          result = r.result;
          after = r.after;
          returns = r.returns;
          shorter = omega (arith, short, ap length r.order, length_append_le r.before r.after.env);
          benign = IsBenign-rest r.before r.after.env rest;
          valid = subst l.IsValid (ap (λ q. q.1) r.indivisible) (atomically-IsValid mid mid_valid);
          seen = t.load mid;
          seen_fits = l.load-IsF64 mid mid_valid;
          decided = sym (ap (λ q. q.0) r.indivisible) ∙ atomically-result mid;
        }

    pub update-Progress :
        (w : World S) → IsBenign w.env → l.IsValid w.cell → Progress w (update turn w)
    unfolding update settle load
    update-Progress w b v = go w.env w.cell b v
      where
        go :
            (env : List Interference) (s : S)
            → IsBenign env
            → l.IsValid s
            → Progress
                (record { cell = s; env = env })
                (update turn (record { cell = s; env = env }))
        go [] s b v = Progress-of _ [] s _ (omega arith) b v (cas_loop-Linearized turn l [] s b v)
        go (e ∷ es) s b v =
            let s₁ = disturb e s in
            let v₁ = disturb-IsValid turn l e s b.0 v in
            Progress-of _ es s₁ _ (omega arith) b.1 v₁ (cas_loop-Linearized turn l es s₁ b.1 v₁)
