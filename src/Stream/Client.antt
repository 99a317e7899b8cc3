-- ===== src/Stream/Client.antt =====
-- src/futures/stream.rs: a stream between two polls as a client of the ideal bucket, where no step rounds.
use gardal.Prelude.{ℕ, ◌*◌, ◌≤◌, ◌≡◌, Option, none, some, []}
use gardal.Clock.Source.{Clock}
use gardal.Ideal.Ledger.{Owed, Move}
use gardal.Storage.Interface.{TimeStorage}
use gardal.RawBucket.Held.{Holds}
use gardal.Bucket.{TokenBucket}
use gardal.Stream.{Polled, InnerStream, Runtime, Task}
use gardal.Stream.Order.{pulled}
use gardal.Stream.Pace.{Setting}
use gardal.Stream.Weigh.{weight, weigh}

module _ {S ST C D X Item : Type 0} ⦃t : TimeStorage ST⦄ ⦃k : Clock C⦄ ⦃i : InnerStream S Item X⦄
    ⦃r : Runtime X D⦄ (o : Setting S ST C D X Item) where
  open o use {
    l, limit, g, clock, clock_at, timed, inner_at, per_unit, per_unit_pos, whole, f, f-IsNonZeroU32,
  }

  -- A stream that owes so much is one between two polls.
  abbrev pub Shares : Owed → Option (TokenBucket ST C) → Option D → Option Item → Type 0
  Shares none (some b) none none = b.limit ≡ limit
  Shares (some (u, y)) (some b) (some d) (some x) =
      (b.limit ≡ limit) × (u ≡ weight o x) × (y * per_unit ≤ timed.due d)
  Shares _ _ _ _ = ⊥

  abbrev pub HoldsIn : Option (TokenBucket ST C) → ℕ → Type 0
  HoldsIn none z = ⊥
  HoldsIn (some b) z = Holds l limit g clock clock_at b.bucket z

  -- The move that a poll made.
  abbrev pub Moved : ℕ → ℕ → Owed → Polled Item (Task S ST C D X Item) → Type 0
  Moved now z owed none = Unit
  Moved now z owed (some (a, q)) =
      (q.this.weight_fn ≡ f)
      × (owed' : Owed) × (z' : ℕ) × Move g.cap now z owed (weigh o (pulled a)) owed' z'
      × Shares owed' q.this.bucket q.this.delay q.this.pending_item
      × HoldsIn q.this.bucket z'

  -- A task with these fields, whose bucket reads `now` on its clock.
  abbrev pub polling : S → ST → ℕ → Option D → Option Item → X → Task S ST C D X Item
  polling str s now d x cx = record {
    this = record {
      stream = str;
      bucket = some (record { bucket = s; clock = clock now; limit = limit });
      weight_fn = f;
      delay = d;
      pending_item = x;
    };
    env = [];
    cx = cx;
  }
