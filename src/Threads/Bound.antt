-- ===== src/Threads/Bound.antt =====
-- The compare-exchange loops of src/storage.rs: how many exchanges it takes until every thread has left.
use gardal.Prelude.{
  ℕ, ◌+◌, ◌≤◌, ◌<◌, ◌≡◌, ◌⊎◌, refl, sym, ap, ◌∙◌, arith, Bool, true, false, not, ◌&&◌, ◌==◌, inl,
  inr, Bool-cases, List, [], ◌∷◌, length, Result, ok, err, suc,
}
use mathlib.Core.Path.{subst}
use gardal.Float.Value.{F64}
use gardal.Storage.Interface.{TimeStorage, IsAtomic}
use gardal.Storage.Loop.{Turn}
use gardal.Threads.{
  Action, begin, exchange, leave, Pc, idle, trying, returned, System, start, put, proceed, look,
  react, attempt, act_all,
}
use gardal.Threads.History.{
  IsFit, AllCalls, IsLinear, IsReady, attempt-IsLinear, act_all-IsLinear, start-IsLinear,
}
use gardal.Threads.Retry.{in_loop, put_self, put_other, Fresh, look-Fresh}
use gardal.Threads.Tally.{bit, tally, sum_to, tally-le, tally_mono, tally-change, sum_to_mono}

-- The exchanges of a schedule that the hardware may fail for no reason.
abbrev pub faults : {Op : Type 0} → List (Action Op) → ℕ
faults [] = 0
faults (exchange i b ∷ rest) = bit b + faults rest
faults (begin i op ∷ rest) = faults rest
faults (leave i ∷ rest) = faults rest

module _ {S Op R : Type 0} ⦃t : TimeStorage S⦄ (turn : Op → F64 → Turn R) where
  -- Each action is an exchange of one of the first `n` threads that is in the loop.
  abbrev pub AllBusy : ℕ → List (Action Op) → System S Op R → Type 0
  AllBusy n [] y = Unit
  AllBusy n (exchange i b ∷ rest) y =
      (i < n) × (in_loop (y.pc i) ≡ true) × AllBusy n rest (attempt turn i b (y.pc i) y)
  AllBusy n (begin i op ∷ rest) y = ⊥
  AllBusy n (leave i ∷ rest) y = ⊥

  abbrev busy : System S Op R → ℕ → Bool
  busy y j = in_loop (y.pc j)

  -- In the loop, and not known to have the value that is there.
  abbrev late : System S Op R → (ℕ → Bool) → ℕ → Bool
  late y fresh j = in_loop (y.pc j) && not (fresh j)

  -- Every thread in the loop can make the others late once.
  abbrev rounds_left : ℕ → System S Op R → (ℕ → Bool) → ℕ
  rounds_left n y fresh = sum_to (tally n (busy y)) + tally n (late y fresh)

  module _ (l : IsAtomic S) where
    abbrev fits : (op : Op) → IsFit turn op → IsFit turn op
    fits op h = h

    abbrev Linear : S → System S Op R → Type 0
    Linear s y = IsLinear turn l (IsFit turn) fits s y

    abbrev Sound : System S Op R → (ℕ → Bool) → Type 0
    Sound y fresh = (j : ℕ) → fresh j ≡ true → Fresh turn l y.cell (y.pc j)

    -- The threads that are known to be up to date after a step, and the rounds that are left.
    record Spends (n : ℕ) (y : System S Op R) (fresh : ℕ → Bool) (b : Bool) (y' : System S Op R)
        : Type 0 where
      fresh' : ℕ → Bool
      sound : Sound y' fresh'
      spent : rounds_left n y' fresh' + 1 ≤ rounds_left n y fresh + bit b

    module _ (n i : ℕ) (less : i < n) (op : Op) (y : System S Op R) (fresh : ℕ → Bool)
        (sound : Sound y fresh) (b : Bool) (in_it : in_loop (y.pc i) ≡ true) where
      -- The exchange that succeeds makes all the others late.
      won : (s' : S) (r : R) → Spends n y fresh b (proceed i op s' (returned r) y)
      won s' r =
          let y' = proceed i op s' (returned r) y in
          let fewer =
            tally-change n i (busy y) (busy y') less
              (λ j apart. ap (λ p. in_loop p) (put_other i j (returned r) y.pc apart)) in
          let out : bit (busy y' i) ≡ 0 = rw (put_self i (returned r) y.pc) refl in
          let was : bit (busy y i) ≡ 1 = rw in_it refl in
          let one_less : tally n (busy y) ≡ suc (tally n (busy y')) =
            omega (arith, fewer, out, was) in
          let others : tally n (late y' (λ _. false)) ≤ tally n (busy y') =
            tally_mono n (late y' (λ _. false)) (busy y') (λ j. ground arith) in
          record {
            fresh' = λ _. false;
            sound = λ j h. absurd (ground arith);
            spent = rw one_less (omega (arith, others));
          }

      -- One that fails has the value that is there.
      lost :
          (b ≡ true) ⊎ (fresh i ≡ false)
          → Spends n y fresh b (proceed i op y.cell (look turn op (t.load y.cell)) y)
      lost why =
          let p = look turn op (t.load y.cell) in
          let y' = proceed i op y.cell p y in
          let fresh' = put i true fresh in
          let no_more =
            tally-change n i (busy y) (busy y') less
              (λ j apart. ap (λ q. in_loop q) (put_other i j p y.pc apart)) in
          let was : bit (busy y i) ≡ 1 = rw in_it refl in
          let fewer : tally n (busy y') ≤ tally n (busy y) = ground (arith, no_more, was) in
          let fewer_rounds = sum_to_mono (tally n (busy y')) (tally n (busy y)) fewer in
          let known =
            tally-change n i (late y fresh) (late y' fresh') less
              (λ j apart. rw (put_other i j p y.pc apart, put_other i j true fresh apart) refl) in
          let up_to_date : bit (late y' fresh' i) ≡ 0 = rw (put_self i true fresh) (ground arith) in
          record {
            fresh' = fresh';
            sound = λ j h. elim (Bool-cases (j == i)) [
              | inl same ↦ rw (same) (look-Fresh turn l op y.cell)
              | inr apart ↦
                  rw (put_other i j p y.pc apart)
                    (sound j (rw (put_other i j true fresh apart) at h))
            ];
            spent = elim why [
              | inl failed ↦
                  let one : bit b ≡ 1 = rw failed refl in
                  omega (arith, fewer_rounds, known, up_to_date, one)
              | inr stale ↦
                  let was_late : bit (late y fresh i) ≡ 1 = rw (in_it, stale) refl in
                  omega (arith, fewer_rounds, known, up_to_date, was_late)
            ];
          }

    step :
        (n i : ℕ) (less : i < n) (s : S) (y : System S Op R) (fresh : ℕ → Bool) (b : Bool)
        (p : Pc Op R)
        → y.pc i ≡ p
        → Linear s y
        → Sound y fresh
        → in_loop p ≡ true
        → Spends n y fresh b (attempt turn i b p y)
    unfolding attempt react
    step n i less s y fresh b idle at v sound in_it = absurd (ground arith)
    step n i less s y fresh b (returned r) at v sound in_it = absurd (ground arith)
    step n i less s y fresh b (trying op r z old) at v sound in_it = go _ _ refl
      where
        ready : IsReady turn l (IsFit turn) fits (trying op r z old)
        ready = subst (IsReady turn l (IsFit turn) fits) at (v.ready i)

        go :
            (res : Result (Unit {0}) F64) (s' : S)
            → t.compare_exchange_weak b y.cell old z ≡ (res, s')
            → Spends n y fresh b (proceed i op s' (react turn op r res) y)
        go (ok u) s' x = won n i less op y fresh sound b (ap (λ q. in_loop q) at) s' r
        go (err actual) s' x =
            let (found, kept) = l.exchange_lost b y.cell old z x in
            rw (found, kept)
              (lost n i less op y fresh sound b (ap (λ q. in_loop q) at) (elim (Bool-cases b) [
                | inl failed ↦ inl failed
                | inr quiet ↦ inr (elim (Bool-cases (fresh i)) [
                  | inr stale ↦ stale
                  | inl up_to_date ↦
                      let there : old ≡ t.load y.cell =
                        subst (Fresh turn l y.cell) at (sound i up_to_date) in
                      let quiet_ok = l.exchange_quiet y.cell z v.valid in
                      let failed = rw (quiet, there) at x in
                      let both : ◌≡◌ {A = Result (Unit {0}) F64} (ok tt) (err actual) =
                        ap (λ q. q.0) (sym quiet_ok ∙ failed) in
                      absurd (cc both)
                ])
              ]))

    all_spend :
        (n : ℕ) (steps : List (Action Op)) (s : S) (y : System S Op R) (fresh : ℕ → Bool)
        → Linear s y
        → Sound y fresh
        → AllBusy n steps y
        → length steps ≤ rounds_left n y fresh + faults steps
    all_spend n [] s y fresh v sound h = omega arith
    all_spend n (begin i op ∷ rest) s y fresh v sound h = elim h [ ]
    all_spend n (leave i ∷ rest) s y fresh v sound h = elim h [ ]
    all_spend n (exchange i b ∷ rest) s y fresh v sound (less, in_it, h) =
        let one = step n i less s y fresh b (y.pc i) refl v sound in_it in
        let y' = attempt turn i b (y.pc i) y in
        let v' = attempt-IsLinear turn l (IsFit turn) fits s y i b (y.pc i) (v.ready i) v in
        omega (arith, one.spent, all_spend n rest s y' one.fresh' v' one.sound h)

    -- After any schedule from a valid word that no thread is at, a schedule of exchanges of the first `n`
    -- threads, each of a thread that is then in the loop, is at most n + (1 + 2 + … + n) long, and one
    -- longer for each exchange that the hardware may fail for no reason: the loops of `n` threads end,
    -- whoever is scheduled.
    pub busy_bounded :
        (n : ℕ) (before steps : List (Action Op)) (s : S)
        → AllCalls (IsFit turn) before
        → l.IsValid s
        → AllBusy n steps (act_all turn before (start s))
        → length steps ≤ n + sum_to n + faults steps
    busy_bounded n before steps s fit valid h =
        let v =
          act_all-IsLinear turn l (IsFit turn) fits before s (start s) fit
            (start-IsLinear turn l (IsFit turn) fits s valid) in
        let y = act_all turn before (start s) in
        let none_fresh : ℕ → Bool = λ _. false in
        let all = all_spend n steps s y none_fresh v (λ j e. absurd (ground arith)) h in
        let threads = sum_to_mono (tally n (busy y)) n (tally-le n (busy y)) in
        omega (arith, all, threads, tally-le n (late y none_fresh))
