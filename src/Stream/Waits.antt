-- ===== src/Stream/Waits.antt =====
-- src/futures/stream.rs: what becomes of an item that the inner stream gives.
use gardal.Prelude.{ℕ, ◌≡◌, ◌∙◌, Option, none, some, true, List, ok, err}
use gardal.Float.Value.{of_int, lt}
use gardal.Float.Duration.{Duration}
use gardal.Clock.Nanos.{Nanos, to_duration}
use gardal.Clock.Source.{Clock}
use gardal.Error.{exceeded_burst_capacity}
use gardal.Storage.Interface.{TimeStorage, Interference, World}
use gardal.RawBucket
use gardal.Bucket
use gardal.Bucket.{TokenBucket, on_raw}
use gardal.Stream.{Poll, ready, pending, InnerStream, Runtime, Task, pay, fetch, poll_next}

-- Whether a pending item is answered.
abbrev pub once_ready : {Item : Type 0} → Item → Poll (Unit {0}) → Poll (Option Item)
once_ready item (ready _) = ready (some item)
once_ready item pending = pending

-- What is pending after that.
abbrev pub still_held : {Item : Type 0} → Item → Poll (Unit {0}) → Option Item
still_held item (ready _) = none
still_held item pending = some item

module _ {ST C : Type 0} ⦃t : TimeStorage ST⦄ ⦃k : Clock C⦄ where
  pub over_burst :
      (b : TokenBucket ST C) (env : List Interference) (n : ℕ)
      → lt b.limit.burst (of_int n) ≡ true
      → Bucket.consume_with_borrow n (record { cell = b; env = env })
        ≡ some (err exceeded_burst_capacity, record { cell = b; env = env })
  unfolding Bucket.consume_with_borrow on_raw RawBucket.consume_with_borrow
  over_burst b env n h = rw (h, on_raw)

module _ {S ST C D X Item : Type 0} ⦃t : TimeStorage ST⦄ ⦃k : Clock C⦄ ⦃i : InnerStream S Item X⦄
    ⦃r : Runtime X D⦄ where
  -- A task that is about to fetch an item: its budget is not spent, it has no item pending, and its
  -- inner stream gives `item`.
  pub record Fetches (p : Task S ST C D X Item) (b : TokenBucket ST C) (item : Item) : Type 0 where
    pub proceeds : (r.poll_proceed p.cx).0 ≡ ready tt
    pub has_bucket : p.this.bucket ≡ some b
    pub no_item : p.this.pending_item ≡ none
    pub no_delay : p.this.delay ≡ none
    pub gives : (i.poll_next p.this.stream (r.poll_proceed p.cx).1).0 ≡ ready (some item)

  module _ (p : Task S ST C D X Item) (b : TokenBucket ST C) (item : Item)
      (f : Fetches p b item) where
    -- The task when it comes to pay.
    abbrev pub fetched : Task S ST C D X Item
    fetched =
        let (_, (s, cx)) = i.poll_next p.this.stream (r.poll_proceed p.cx).1 in
        record {
          this = record p.this { stream = s; bucket = some b; delay = none; pending_item = none };
          env = p.env;
          cx = cx;
        }

    poll_next-fetched : poll_next p ≡ pay b item fetched
    unfolding poll_next fetch
    poll_next-fetched =
        rw (f.proceeds, poll_next)
          (rw (f.has_bucket, poll_next)
            (rw (f.no_item, f.no_delay, poll_next)
              (rw (f.gives, fetch) (rw (f.has_bucket, f.no_item)))))

    -- A task whose inner stream gives an item that weighs more than the burst of its bucket panics
    -- when it is polled.
    pub poll_next-panics :
        lt b.limit.burst (of_int (p.this.weight_fn item)) ≡ true → poll_next p ≡ none
    unfolding pay
    poll_next-panics h = poll_next-fetched ∙ rw (over_burst b p.env (p.this.weight_fn item) h, pay)

    module _ (nanos : Nanos) (w : World (TokenBucket ST C)) (duration : Duration)
        (owes : Bucket.consume_with_borrow
            (p.this.weight_fn item)
            (record { cell = b; env = p.env })
          ≡ some (ok (some nanos), w))
        (long : to_duration nanos ≡ some duration) where
      -- The task that waits for its delay.
      abbrev pub waiting : Task S ST C D X Item
      waiting = record {
        this = record fetched.this {
          bucket = some w.cell;
          delay = some (r.sleep duration fetched.cx);
          pending_item = some item;
        };
        env = w.env;
        cx = r.made_progress (r.wake_by_ref fetched.cx);
      }
