-- ===== src/Stream/Runs.antt =====
-- src/futures/stream.rs: runs of a stream, its polls and what happens to its bucket between them.
use gardal.Prelude.{ℕ, ◌≡◌, Option, none, some, List, [], ◌++◌}
use gardal.Clock.Source.{Clock}
use gardal.Storage.Interface.{TimeStorage, Interference}
use gardal.Bucket.{TokenBucket}
use gardal.Stream
use gardal.Stream.{Poll, InnerStream, Runtime, Task, poll_next}
use gardal.Stream.Order.{History, Tracks, Tidy, held, pulled, poll_next-Tracks}

-- The clock goes on and other tasks use the bucket, which stays if there is one.
abbrev pub others : {B : Type 0} → (B → B) → Option B → Option B
others g none = none
others g (some b) = some (g b)

abbrev pub meanwhile :
    {S ST C D X Item : Type 0}
    → (TokenBucket ST C → TokenBucket ST C)
    → List Interference
    → X
    → Task S ST C D X Item
    → Task S ST C D X Item
meanwhile g env cx p = record {
  this = record p.this { bucket = others g p.this.bucket };
  env = env;
  cx = cx;
}

pub data Run {S ST C D X Item : Type 0} ⦃t : TimeStorage ST⦄ ⦃k : Clock C⦄
    ⦃i : InnerStream S Item X⦄ ⦃r : Runtime X D⦄ (p : Task S ST C D X Item)
    : List Item → Task S ST C D X Item → Type 0 where
  start : Run p [] p
  polled :
      {given : List Item} {q q' : Task S ST C D X Item} {x : Poll (Option Item)}
      → Run p given q
      → poll_next q ≡ some (x, q')
      → Run p (given ++ pulled x) q'
  between :
      {given : List Item} {q : Task S ST C D X Item}
      → Run p given q
      → (g : TokenBucket ST C → TokenBucket ST C) (env : List Interference) (cx : X)
      → Run p given (meanwhile g env cx q)

others-Tidy :
    {B D Item : Type 0} (g : B → B) (b : Option B) (d : Option D) (x : Option Item)
    → Tidy b d x
    → Tidy (others g b) d x
others-Tidy g none none none h = tt
others-Tidy g (some b) none none h = tt
others-Tidy g (some b) (some d) (some x) h = tt
others-Tidy g none none (some x) h = elim h [ ]
others-Tidy g none (some d) x h = elim h [ ]
others-Tidy g (some b) none (some x) h = elim h [ ]
others-Tidy g (some b) (some d) none h = elim h [ ]

module _ {S ST C D X Item : Type 0} ⦃t : TimeStorage ST⦄ ⦃k : Clock C⦄ ⦃i : InnerStream S Item X⦄
    ⦃r : Runtime X D⦄ (h : History S Item X) where
  Run-Tracks :
      {p q : Task S ST C D X Item} {given : List Item}
      → Tracks h [] p
      → Run p given q
      → Tracks h given q
  Run-Tracks w start = w
  Run-Tracks w (polled {given} {q} {q'} {x} run e) =
      rw e at (poll_next-Tracks h given q (Run-Tracks w run))
  Run-Tracks w (between {given} {q} run g env cx) =
      let (same, tidy) = Run-Tracks w run in
      (same, others-Tidy g q.this.bucket q.this.delay q.this.pending_item tidy)

  -- A new stream, over an inner stream that keeps a history and has given nothing yet, delivers the
  -- items of the inner stream, each once and in order: after any number of polls that answer, with
  -- any changes of the time, the bucket and the task between them, the items delivered and then the
  -- one that is pending, if there is one, are those that the inner stream has given.
  pub Run-order :
      (s : S) (bucket : Option (TokenBucket ST C)) (weight_fn : Item → ℕ) (env : List Interference)
      (cx : X) {given : List Item} {q : Task S ST C D X Item}
      → h.log s ≡ []
      → Run (record { this = Stream.new s bucket weight_fn; env = env; cx = cx }) given q
      → h.log q.this.stream ≡ given ++ held q.this.pending_item
  Run-order s bucket weight_fn env cx e run = (Run-Tracks (e, tidy bucket) run).0
    where
      tidy : (b : Option (TokenBucket ST C)) → Tidy {D = D} {Item = Item} b none none
      tidy none = tt
      tidy (some b) = tt
