-- ===== src/Storage/Shared.antt =====
-- src/storage.rs among threads: a call on a shared storage against the same call alone.
use gardal.Prelude.{◌≡◌, ap, ◌∙◌, some, List, ◌++◌}
use gardal.Float.Value.{F64}
use gardal.Storage.Interface.{
  TimeStorage, Interference, World, M, IsAtomic, disturb_all, pure, ◌>>=◌,
}
use gardal.Storage.Loop.{Turn, update}
use gardal.Storage.Linear.{IsBenign, update-Linearized, update_alone}
use gardal.Storage.Progress.{disturb_all-IsValid}
use gardal.Storage.Alone.{alone}
use mathlib.Core.Path.{subst}

module _ {S R : Type 0} ⦃t : TimeStorage S⦄ where
  -- The call returns, with the interferences `before` past; alone on the storage as these leave it,
  -- it has the same result and leaves the same storage.
  pub record RunsAsAlone (call : M S R) (w : World S) : Type 0 where
    pub before : List Interference
    pub result : R
    pub after : World S
    pub order : w.env ≡ before ++ after.env
    pub returns : call w ≡ some (result, after)
    pub undisturbed : call (alone (disturb_all before w.cell)) ≡ some (result, alone after.cell)

  pub update-RunsAsAlone :
      (turn : F64 → Turn R) (l : IsAtomic S) (w : World S)
      → IsBenign w.env
      → l.IsValid w.cell
      → RunsAsAlone (update turn) w
  update-RunsAsAlone turn l w b v =
      let r = update-Linearized turn l w b v in
      let mid = disturb_all r.before w.cell in
      let valid =
        disturb_all-IsValid turn l r.before r.after.env w.cell (subst IsBenign r.order b) v in
      record {
        before = r.before;
        result = r.result;
        after = r.after;
        order = r.order;
        returns = r.returns;
        undisturbed =
            update_alone turn l.storage mid valid ∙ ap (λ q. some (q.0, alone q.1)) r.indivisible;
      }

module _ {S A B : Type 0} ⦃t : TimeStorage S⦄ where
  pub bind-RunsAsAlone :
      (call : M S A) (f : A → B) (w : World S)
      → RunsAsAlone call w
      → RunsAsAlone (call >>= λ a. pure (f a)) w
  bind-RunsAsAlone call f w r = record {
    before = r.before;
    result = f r.result;
    after = r.after;
    order = r.order;
    returns = rw (r.returns, ◌>>=◌);
    undisturbed = rw (r.undisturbed, ◌>>=◌);
  }
