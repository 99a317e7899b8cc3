-- ===== src/Stream/Shared/Bound.antt =====
-- src/futures/stream.rs: how much the streams deliver together that share one bucket, where no step rounds.
use gardal.Prelude.{
  ℕ, suc, ◌+◌, ◌-◌, ◌*◌, ◌^◌, ◌≤◌, ◌<◌, ◌≡◌, refl, sym, arith, inl, inr, Bool-cases, ◌==◌, Option,
  none, some, List, [], ◌++◌,
}
use Prim.Native.Nat.{max}
use mathlib.Core.Path.{subst}
use gardal.Clock.Source.{Clock}
use gardal.Ideal.Ledger.{Owed, Move-le, put, Ledger, Move-Ledger, start-Ledger, out_bounded}
use gardal.Storage.Interface.{TimeStorage}
use gardal.RawBucket.Held.{Holds}
use gardal.Bucket.{TokenBucket}
use gardal.Stream
use gardal.Stream.{Poll, InnerStream, Runtime, WeightedStream, Task, poll_next}
use gardal.Stream.Order.{pulled}
use gardal.Stream.Pace.{Setting}
use gardal.Stream.Weigh.{weigh, weigh-append}
use gardal.Stream.Client.{Shares, HoldsIn, Moved}
use gardal.Stream.Shared.{replace, stored_in, found, SharedRun, start, polled, stream-Moved}

module _ {S ST C D X Item : Type 0} ⦃t : TimeStorage ST⦄ ⦃k : Clock C⦄ ⦃i : InnerStream S Item X⦄
    ⦃r : Runtime X D⦄ (o : Setting S ST C D X Item) where
  open o use {l, limit, g, clock, clock_at, timed, per_unit, f}

  -- A poll leaves the shared storage in the stream's bucket.
  left_in :
      (s : ST) (b : Option (TokenBucket ST C)) (z : ℕ)
      → HoldsIn o b z
      → Holds l limit g clock clock_at (stored_in s b) z
  left_in s none z h = elim h [ ]
  left_in s (some b) z h = h

  module _ (n first z₀ : ℕ) where
    -- What is kept in a run.
    pub record KeepsShared (polls : ℕ) (given : List Item) (last : ℕ) (s : ST)
        (streams : ℕ → WeightedStream S ST C D Item) : Type 0 where
      pub owed : ℕ → Owed
      pub z : ℕ
      pub holds : Holds l limit g clock clock_at s z
      pub small : z ≤ max z₀ last + polls * g.cap
      pub weights : (j : ℕ) → (streams j).weight_fn ≡ f
      pub shares :
          (j : ℕ) → Shares o (owed j) (streams j).bucket (streams j).delay (streams j).pending_item
      pub ledger : Ledger g.cap first z₀ n owed last (weigh o given) z

    module _ (polls : ℕ) (given : List Item) (last : ℕ) (s : ST)
        (streams : ℕ → WeightedStream S ST C D Item) (h : KeepsShared polls given last s streams)
        (j now : ℕ) (cx : X) (less : j < n) (later : last ≤ now)
        (top : max z₀ now + suc polls * g.cap ≤ 2 ^ 53)
        (time_eq : timed.nanos_at cx ≡ now * per_unit) (a : Poll (Option Item))
        (q : Task S ST C D X Item)
        (e : poll_next (found clock s now cx (streams j)) ≡ some (a, q)) where
      moved : Moved o now h.z (h.owed j) (some (a, q))
      moved =
          let w = streams j in
          let now_top : now + g.cap ≤ 2 ^ 53 = omega (arith, top) in
          subst (Moved o now h.z (h.owed j)) e (
            stream-Moved o now now_top s h.z h.holds (h.owed j)
              (λ _. omega (arith, h.small, top, later)) w.stream w.bucket w.weight_fn w.delay
              w.pending_item cx time_eq (h.weights j) (h.shares j))

      kept :
          KeepsShared
            (suc polls)
            (given ++ pulled a)
            now
            (stored_in s q.this.bucket)
            (replace j q.this streams)
      kept =
          let (weights, o', z', move, shares, holds) = moved in
          record {
            owed = put j o' h.owed;
            z = z';
            holds = left_in s q.this.bucket z' holds;
            small = omega (
              arith,
              Move-le g.cap now h.z (h.owed j) (weigh o (pulled a)) o' z' move,
              h.small,
              later,
            );
            weights = λ i. elim (Bool-cases (i == j)) [
              | inl same ↦ rw same weights
              | inr apart ↦ rw apart (h.weights i)
            ];
            shares = λ i. elim (Bool-cases (i == j)) [
              | inl same ↦ rw same shares
              | inr apart ↦ rw apart (h.shares i)
            ];
            ledger =
                subst (λ w. Ledger g.cap first z₀ n (put j o' h.owed) now w z')
                  (sym (weigh-append o given (pulled a)))
                  (Move-Ledger g.cap first z₀ n h.owed last (weigh o given) h.z h.ledger j now less
                    later o' (weigh o (pulled a)) z' move);
          }

    SharedRun-Keeps :
        {s₀ : ST} {streams₀ : ℕ → WeightedStream S ST C D Item} {polls : ℕ} {given : List Item}
        {last : ℕ} {s : ST} {streams : ℕ → WeightedStream S ST C D Item}
        → KeepsShared 0 [] first s₀ streams₀
        → SharedRun clock timed per_unit n first s₀ streams₀ polls given last s streams
        → max z₀ last + polls * g.cap ≤ 2 ^ 53
        → KeepsShared polls given last s streams
    SharedRun-Keeps h start top = h
    SharedRun-Keeps h
          (polled {polls} {given} {last} {s} {streams} {a} {q} run j now cx less later time_eq e)
          top =
        let before = SharedRun-Keeps h run (omega (arith, later, top)) in
        kept polls given last s streams before j now cx less later top time_eq a q e

  -- In a `Setting`, for `n` new streams that share one bucket over a valid storage that holds the zero
  -- time `z₀`: in any run of their polls that answer, in any order, at times from `first` on that do not
  -- go back, with a burst for each poll added within 2^53 units, the items that all of them have
  -- delivered until `last` weigh together no more than a burst and what comes in from `first` to
  -- `last`; and no more than comes in until `last` from the later of the zero time and of a burst
  -- before `first`.
  pub shared_bounded :
      (n first z₀ : ℕ) (str : ℕ → S) (s₀ : ST) (c : ℕ → C)
      → Holds l limit g clock clock_at s₀ z₀
      → (polls : ℕ) (given : List Item) (last : ℕ) (s : ST)
        (streams : ℕ → WeightedStream S ST C D Item)
      → max z₀ last + polls * g.cap ≤ 2 ^ 53
      → SharedRun clock timed per_unit n first s₀
          (λ j. Stream.new (str j) (some (record { bucket = s₀; clock = c j; limit = limit })) f)
          polls
          given
          last
          s
          streams
      → (weigh o given ≤ g.cap + (last - first)) × (weigh o given ≤ last - max z₀ (first - g.cap))
  shared_bounded n first z₀ str s₀ c v polls given last s streams top run =
      let fresh : KeepsShared n first z₀ 0 [] first s₀
          (λ j. Stream.new (str j) (some (record { bucket = s₀; clock = c j; limit = limit })) f) =
        record {
          owed = λ _. none;
          z = z₀;
          holds = v;
          small = omega arith;
          weights = λ _. refl;
          shares = λ _. refl;
          ledger = start-Ledger g.cap first z₀ n;
        } in
      let r = SharedRun-Keeps n first z₀ fresh run top in
      out_bounded g.cap first z₀ n r.owed last (weigh o given) r.z r.ledger
