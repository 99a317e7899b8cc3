-- ===== src/Ideal/Ledger.antt =====
-- The abstract bucket of whole units, shared by `n` clients that each owe for one item at most: what has
-- been handed out.
use gardal.Prelude.{
  total, total-change, ℕ, zero, suc, ◌+◌, ◌-◌, ◌≤◌, ◌<◌, ◌≡◌, ◌⊎◌, inl, inr, refl, ap, arith, leb,
  ◌==◌, ==_self, if◌then◌else◌, Option, none, some,
}
use Prim.Native.Nat.{max}
use native.Mathlib.Decide.{dec_le}

-- What a client owes: the weight of its item, and the end of its loan.
abbrev pub Owed : Type 0
Owed = Option (ℕ × ℕ)

-- What a client's move at `now` hands out, what it then owes, and the zero time, `z` before.
pub data Move (cap now z : ℕ) (owed : Owed) (out : ℕ) (owed' : Owed) (z' : ℕ) : Type 0 where
  rests : out ≡ 0 → owed' ≡ owed → z' ≡ z → Move cap now z owed out owed' z'
  redeems :
      (u y : ℕ)
      → owed ≡ some (u, y)
      → y ≤ now
      → out ≡ u
      → owed' ≡ none
      → z' ≡ z
      → Move cap now z owed out owed' z'
  pays :
      (u : ℕ)
      → u ≤ cap
      → owed ≡ none
      → out ≡ u
      → owed' ≡ none
      → z' ≡ max z (now - cap) + u
      → z' ≤ now
      → Move cap now z owed out owed' z'
  borrows :
      (u : ℕ)
      → u ≤ cap
      → owed ≡ none
      → out ≡ 0
      → owed' ≡ some (u, z')
      → z' ≡ max z (now - cap) + u
      → Move cap now z owed out owed' z'

-- A move takes the zero time no further than a burst past it and the present.
pub Move-le :
    (cap now z : ℕ) (owed : Owed) (out : ℕ) (owed' : Owed) (z' : ℕ)
    → Move cap now z owed out owed' z'
    → z' ≤ max z now + cap
Move-le cap now z owed out owed' z' (rests _ _ same) = omega (arith, same)
Move-le cap now z owed out owed' z' (redeems u y _ _ _ _ same) = omega (arith, same)
Move-le cap now z owed out owed' z' (pays u fits _ _ _ z'_eq _) = omega (arith, fits, z'_eq)
Move-le cap now z owed out owed' z' (borrows u fits _ _ _ z'_eq) = omega (arith, fits, z'_eq)

-- What is owed on loans that end by `by`.
abbrev pub owed_by : ℕ → Owed → ℕ
owed_by by none = 0
owed_by by (some (u, y)) = if leb y by then u else 0

-- `base` is the zero time at the start, or a burst before `first`; `out` has been handed out until `last`,
-- and `z` is the zero time. For the proof: what has been paid for, in all and with loans that end by a
-- time, and what of this has been handed out.
pub record Ledger (cap first z₀ n : ℕ) (owed : ℕ → Owed) (last out z : ℕ) : Type 0 where
  pub paid : ℕ
  pub paid_by : ℕ → ℕ
  pub out_by : ℕ → ℕ
  pub from : first ≤ last
  pub all_paid : paid + max z₀ (first - cap) ≤ max z (first - cap)
  pub by_le : (by : ℕ) → paid_by by ≤ paid
  pub come : (by : ℕ) → (paid_by by ≡ 0) ⊎ (paid_by by + max z₀ (first - cap) ≤ by)
  pub parts : (by : ℕ) → out_by by + total n (λ i. owed_by by (owed i)) ≡ paid_by by
  pub all_out : (by : ℕ) → last ≤ by → out_by by ≡ out

abbrev pub put : ℕ → Owed → (ℕ → Owed) → ℕ → Owed
put i o owed j = if j == i then o else owed j

module _ (cap first z₀ n : ℕ) (owed : ℕ → Owed) (last out z : ℕ)
    (g : Ledger cap first z₀ n owed last out z) (i now : ℕ) (less : i < n)
    (later : last ≤ now) where
  abbrev base : ℕ
  base = max z₀ (first - cap)

  -- What client `i` owes is changed.
  total-put :
      (o : Owed) (by : ℕ)
      → total n (λ j. owed_by by (put i o owed j)) + owed_by by (owed i)
        ≡ total n (λ j. owed_by by (owed j)) + owed_by by o
  total-put o by =
      let change =
        total-change n i (λ j. owed_by by (owed j)) (λ j. owed_by by (put i o owed j)) less
          (λ j apart. ap (λ q. owed_by by q) (rw apart refl)) in
      let here : owed_by by (put i o owed i) ≡ owed_by by o = rw (==_self i) refl in
      omega (arith, change, here)

  -- An item of weight `u` is paid for, with what comes in until `y`.
  module _ (u y : ℕ) (y_eq : y ≡ max z (now - cap) + u) where
    abbrev more : ℕ → ℕ
    more by = if leb y by then u else 0

    come_more : (by : ℕ) → (g.paid_by by + more by ≡ 0) ⊎ (g.paid_by by + more by + base ≤ by)
    come_more by = elim (dec_le y by) [
      | yes over ↦
          let all : more by ≡ u = ground (arith, over) in
          inr (omega (arith, all, g.all_paid, g.by_le by, y_eq, over, g.from, later))
      | no owing ↦
          let none_more : more by ≡ 0 = ground (arith, owing) in
          rw none_more (elim (g.come by) [
            | inl nothing ↦ inl (omega (arith, nothing))
            | inr come ↦ inr (omega (arith, come))
          ])
    ]

    more-le : (by : ℕ) → more by ≤ u
    more-le by = ground arith

  pub Move-Ledger :
      (o : Owed) (handed z' : ℕ)
      → Move cap now z (owed i) handed o z'
      → Ledger cap first z₀ n (put i o owed) now (out + handed) z'
  Move-Ledger o handed z' (rests none_out same_owed same) = record {
    paid = g.paid;
    paid_by = g.paid_by;
    out_by = g.out_by;
    from = omega (arith, g.from, later);
    all_paid = rw same g.all_paid;
    by_le = g.by_le;
    come = g.come;
    parts = λ by.
        let same_by : owed_by by o ≡ owed_by by (owed i) = ap (owed_by by) same_owed in
        omega (arith, g.parts by, total-put o by, same_by);
    all_out = λ by h. omega (arith, g.all_out by (omega (arith, h, later)), none_out);
  }
  Move-Ledger o handed z' (redeems u y was over all_out now_none same) = record {
    paid = g.paid;
    paid_by = g.paid_by;
    out_by = λ by. g.out_by by + (if leb y by then u else 0);
    from = omega (arith, g.from, later);
    all_paid = rw same g.all_paid;
    by_le = g.by_le;
    come = g.come;
    parts = λ by.
        let was_by = ap (owed_by by) was in
        let now_by = ap (owed_by by) now_none in
        omega (arith, g.parts by, total-put o by, was_by, now_by);
    all_out = λ by h.
        let all : (if leb y by then u else 0) ≡ u = ground (arith, over, h) in
        omega (arith, g.all_out by (omega (arith, h, later)), all_out, all);
  }
  Move-Ledger o handed z' (pays u fits was all_out now_none z'_eq covered) = record {
    paid = g.paid + u;
    paid_by = λ by. g.paid_by by + more u z' z'_eq by;
    out_by = λ by. g.out_by by + more u z' z'_eq by;
    from = omega (arith, g.from, later);
    all_paid = omega (arith, g.all_paid, z'_eq, g.from, later);
    by_le = λ by. omega (arith, g.by_le by, more-le u z' z'_eq by);
    come = come_more u z' z'_eq;
    parts = λ by.
        let was_by = ap (owed_by by) was in
        let now_by = ap (owed_by by) now_none in
        omega (arith, g.parts by, total-put o by, was_by, now_by);
    all_out = λ by h.
        let all : more u z' z'_eq by ≡ u = ground (arith, covered, h) in
        omega (arith, g.all_out by (omega (arith, h, later)), all_out, all);
  }
  Move-Ledger o handed z' (borrows u fits was none_out now_owed z'_eq) = record {
    paid = g.paid + u;
    paid_by = λ by. g.paid_by by + more u z' z'_eq by;
    out_by = g.out_by;
    from = omega (arith, g.from, later);
    all_paid = omega (arith, g.all_paid, z'_eq, g.from, later);
    by_le = λ by. omega (arith, g.by_le by, more-le u z' z'_eq by);
    come = come_more u z' z'_eq;
    parts = λ by.
        let was_by = ap (owed_by by) was in
        let now_by = ap (owed_by by) now_owed in
        omega (arith, g.parts by, total-put o by, was_by, now_by);
    all_out = λ by h. omega (arith, g.all_out by (omega (arith, h, later)), none_out);
  }

-- Nothing is owed at first.
pub start-Ledger : (cap first z₀ n : ℕ) → Ledger cap first z₀ n (λ _. none) first 0 z₀
start-Ledger cap first z₀ n = record {
  paid = 0;
  paid_by = λ _. 0;
  out_by = λ _. 0;
  from = omega arith;
  all_paid = omega arith;
  by_le = λ _. omega arith;
  come = λ _. inl refl;
  parts = λ by. total-nothing n;
  all_out = λ _ _. refl;
}
  where
    total-nothing : (n : ℕ) → 0 + total n (λ _. 0) ≡ 0
    total-nothing zero = refl
    total-nothing (suc n) = omega (arith, total-nothing n)

-- What is handed out has come in since the start, a burst at most before.
pub out_bounded :
    (cap first z₀ n : ℕ) (owed : ℕ → Owed) (last out z : ℕ)
    → Ledger cap first z₀ n owed last out z
    → (out ≤ cap + (last - first)) × (out ≤ last - max z₀ (first - cap))
out_bounded cap first z₀ n owed last out z g =
    let all = g.all_out last (omega arith) in
    let within = g.parts last in
    elim (g.come last) [
      | inl nothing ↦ (omega (arith, nothing, all, within), omega (arith, nothing, all, within))
      | inr come ↦ (omega (arith, come, all, within, g.from), omega (arith, come, all, within))
    ]
