-- ===== src/Stream/Rate.antt =====
-- src/futures/stream.rs: runs of a stream as time goes on, where no step rounds.
use gardal.Prelude.{
  ℕ, ◌+◌, ◌-◌, ◌*◌, ◌^◌, ◌≤◌, ◌≡◌, refl, sym, arith, Option, none, some, List, [], ◌++◌,
}
use Prim.Native.Nat.{max}
use mathlib.Core.Path.{subst}
use gardal.Clock.Source.{Clock}
use gardal.Storage.Interface.{TimeStorage}
use gardal.RawBucket.Held.{Holds}
use gardal.Bucket.{TokenBucket}
use gardal.Stream
use gardal.Stream.{
  Poll, ready, pending, Polled, InnerStream, Runtime, WeightedStream, Task, poll_next,
}
use gardal.Stream.Order.{pulled}
use gardal.Stream.Runs.{meanwhile}
use gardal.Stream.Pace.{Setting, IsTimed}
use gardal.Stream.Weigh.{weigh, weigh-append}
use gardal.Stream.Client.{Shares, HoldsIn, Moved}
use gardal.Stream.Shared.{stream-Moved}
use gardal.Ideal.Ledger.{
  Owed, Move, rests, redeems, pays, borrows, put, Ledger, Move-Ledger, start-Ledger, out_bounded,
}

-- Polls of a stream that has its bucket for itself, each at a time that is not before the last one, which
-- the clock of the bucket and the context both have. The items are those delivered until `last`.
pub data TimedRun {S ST C D X Item : Type 0} ⦃t : TimeStorage ST⦄ ⦃k : Clock C⦄
    ⦃i : InnerStream S Item X⦄ ⦃r : Runtime X D⦄ (clock : ℕ → C) (timed : IsTimed X D)
    (per_unit : ℕ) (first : ℕ) (p : Task S ST C D X Item)
    : List Item → ℕ → Task S ST C D X Item → Type 0 where
  start : TimedRun clock timed per_unit first p [] first p
  polled :
      {given : List Item} {last : ℕ} {q q' : Task S ST C D X Item} {x : Poll (Option Item)}
      → TimedRun clock timed per_unit first p given last q
      → (now : ℕ) (cx : X) → last ≤ now
      → timed.nanos_at cx ≡ now * per_unit
      → poll_next (meanwhile (λ b. record b { clock = clock now }) [] cx q) ≡ some (x, q')
      → TimedRun clock timed per_unit first p (given ++ pulled x) now q'

module _ {S ST C D X Item : Type 0} ⦃t : TimeStorage ST⦄ ⦃k : Clock C⦄ ⦃i : InnerStream S Item X⦄
    ⦃r : Runtime X D⦄ (o : Setting S ST C D X Item) where
  open o use {
    l, limit, g, clock, clock_at, timed, inner_at, per_unit, per_unit_pos, whole, f, f-IsNonZeroU32,
  }

  -- A stream that owes nothing has no zero time to come, and one that does owes until then.
  abbrev Settled : ℕ → Owed → ℕ → Type 0
  Settled top none z = z ≤ top
  Settled top (some (u, y)) z = y ≡ z

  move-Settled :
      (now z top : ℕ) (owed : Owed) (out : ℕ) (owed' : Owed) (z' : ℕ)
      → now ≤ top
      → Settled top owed z
      → Move g.cap now z owed out owed' z'
      → Settled top owed' z'
  move-Settled now z top owed out owed' z' in_time h (rests _ same_owed same) =
      rw (same_owed, same) h
  move-Settled now z top owed out owed' z' in_time h (redeems u y was over _ now_none same) =
      let ends : y ≡ z = subst (λ q. Settled top q z) was h in
      rw now_none (omega (arith, ends, over, same, in_time))
  move-Settled now z top owed out owed' z' in_time h (pays u fits _ _ now_none _ covered) =
      rw now_none (omega (arith, covered, in_time))
  move-Settled now z top owed out owed' z' in_time h (borrows u fits _ _ now_owed _) =
      rw now_owed refl

  Settled-later :
      (top top' : ℕ) (owed : Owed) (z : ℕ) → top ≤ top' → Settled top owed z → Settled top' owed z
  Settled-later top top' none z later h = omega (arith, h, later)
  Settled-later top top' (some (u, y)) z later h = h

  -- A poll of a stream with its own bucket at a time of the clock.
  own_poll :
      (now : ℕ)
      → now + g.cap ≤ 2 ^ 53
      → (z : ℕ) (owed : Owed) (str : S) (b : Option (TokenBucket ST C)) (own : Item → ℕ)
        (d : Option D) (x : Option Item) (cx : X)
      → HoldsIn o b z
      → (owed ≡ none → z + g.cap ≤ 2 ^ 53)
      → timed.nanos_at cx ≡ now * per_unit
      → own ≡ f
      → Shares o owed b d x
      → Moved o now z owed (
          poll_next (
            meanwhile
              (λ b. record b { clock = clock now })
              []
              cx
              (record {
                this = record {
                  stream = str;
                  bucket = b;
                  weight_fn = own;
                  delay = d;
                  pending_item = x;
                };
                env = [];
                cx = cx;
              })))
  own_poll now now_top z owed str none own d x cx v z_top time_eq own_eq h = elim v [ ]
  own_poll now now_top z owed str (some b) own d x cx v z_top time_eq own_eq h =
      stream-Moved o now now_top b.bucket z v owed z_top str (some b) own d x cx time_eq own_eq h

  module _ (first z₀ : ℕ) (z₀_top : z₀ + g.cap ≤ 2 ^ 53) where
    -- What is kept in a run.
    pub record KeepsPace (given : List Item) (last : ℕ) (q : Task S ST C D X Item) : Type 0 where
      pub owed : ℕ → Owed
      pub z : ℕ
      pub holds : HoldsIn o q.this.bucket z
      pub settled : Settled (max z₀ last) (owed 0) z
      pub weights : q.this.weight_fn ≡ f
      pub shares : Shares o (owed 0) q.this.bucket q.this.delay q.this.pending_item
      pub ledger : Ledger g.cap first z₀ 1 owed last (weigh o given) z

    no_debt :
        (top z : ℕ) (owed : Owed)
        → top + g.cap ≤ 2 ^ 53
        → Settled top owed z
        → owed ≡ none
        → z + g.cap ≤ 2 ^ 53
    no_debt top z owed small h e =
        let settled : z ≤ top = subst (λ q. Settled top q z) e h in omega (arith, settled, small)

    TimedRun-KeepsPace :
        {p q : Task S ST C D X Item} {given : List Item} {last : ℕ}
        → KeepsPace [] first p
        → TimedRun clock timed per_unit first p given last q
        → last + g.cap ≤ 2 ^ 53
        → KeepsPace given last q
    TimedRun-KeepsPace h start top = h
    TimedRun-KeepsPace h (polled {given} {last} {q} {q'} {x} run now cx later time_eq e) top =
        let before = TimedRun-KeepsPace h run (omega (arith, later, top)) in
        let w = q.this in
        let settled =
          Settled-later (max z₀ last) (max z₀ now) (before.owed 0) before.z (omega (arith, later))
            before.settled in
        let (weights, o', z', move, shares, holds) : Moved o now before.z (before.owed 0)
            (some (x, q')) =
          subst (Moved o now before.z (before.owed 0)) e (
            own_poll now top before.z (before.owed 0) w.stream w.bucket w.weight_fn w.delay
              w.pending_item cx before.holds
              (no_debt (max z₀ now) before.z (before.owed 0) (omega (arith, z₀_top, top)) settled)
              time_eq before.weights before.shares) in
        record {
          owed = put 0 o' before.owed;
          z = z';
          holds = holds;
          settled =
              move-Settled now before.z (max z₀ now) (before.owed 0) (weigh o (pulled x)) o' z'
                (omega arith) settled move;
          weights = weights;
          shares = shares;
          ledger =
              subst (λ w. Ledger g.cap first z₀ 1 (put 0 o' before.owed) now w z')
                (sym (weigh-append o given (pulled x)))
                (Move-Ledger g.cap first z₀ 1 before.owed last (weigh o given) before.z
                  before.ledger 0 now (omega arith) later o' (weigh o (pulled x)) z' move);
        }

  -- In a `Setting`, for a new stream that has its bucket for itself, over a valid storage that holds the
  -- zero time `z₀`: in any run of polls that answer, at times
  -- from `first` on that do not go back, with a burst added within 2^53 units, the items delivered
  -- until `last` weigh together no more than a burst and what comes in from `first` to `last`; and no
  -- more than comes in until `last` from the later of the zero time and of a burst before `first`.
  pub delivered_bounded :
      (first z₀ : ℕ)
      → z₀ + g.cap ≤ 2 ^ 53
      → (str : S) (s : ST) (c : C) (cx : X) → Holds l limit g clock clock_at s z₀
      → (given : List Item) (last : ℕ) (q : Task S ST C D X Item) → last + g.cap ≤ 2 ^ 53
      → TimedRun clock timed per_unit first
          (record {
            this = Stream.new str (some (record { bucket = s; clock = c; limit = limit })) f;
            env = [];
            cx = cx;
          })
          given
          last
          q
      → (weigh o given ≤ g.cap + (last - first)) × (weigh o given ≤ last - max z₀ (first - g.cap))
  delivered_bounded first z₀ z₀_top str s c cx v given last q top run =
      let new_stream : KeepsPace first z₀ z₀_top [] first (record {
        this = Stream.new str (some (record { bucket = s; clock = c; limit = limit })) f;
        env = [];
        cx = cx;
      }) =
        record {
          owed = λ _. none;
          z = z₀;
          holds = v;
          settled = omega arith;
          weights = refl;
          shares = refl;
          ledger = start-Ledger g.cap first z₀ 1;
        } in
      let r = TimedRun-KeepsPace first z₀ z₀_top new_stream run top in
      out_bounded g.cap first z₀ 1 r.owed last (weigh o given) r.z r.ledger
