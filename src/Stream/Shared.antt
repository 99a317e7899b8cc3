-- ===== src/Stream/Shared.antt =====
-- src/futures/stream.rs: streams that share one bucket, as clones of a `SharedTokenBucket` let them, where no
-- step rounds. Their polls do not overlap, as on a runtime of one thread.
pub mod Bound
use gardal.Prelude.{
  ℕ, suc, ◌+◌, ◌-◌, ◌*◌, ◌^◌, ◌≤◌, ◌<◌, ◌≡◌, refl, sym, ap, ◌∙◌, arith, inl, inr, Bool-cases, ◌==◌,
  if◌then◌else◌, Option, none, some, List, [], ◌∷◌, ◌++◌,
}
use Prim.Native.Nat.{max}
use mathlib.Core.Path.{subst}
use gardal.Clock.Source.{Clock}
use gardal.Limit.{Limit}
use gardal.Ideal.Ledger.{Owed, Move, Move-le, put, Ledger, Move-Ledger, start-Ledger, out_bounded}
use gardal.Storage.Interface.{TimeStorage}
use gardal.RawBucket.Held.{Holds}
use gardal.Bucket.{TokenBucket}
use gardal.Stream
use gardal.Stream.{Poll, InnerStream, Runtime, WeightedStream, Task, poll_next}
use gardal.Stream.Order.{pulled}
use gardal.Stream.Runs.{meanwhile}
use gardal.Stream.Pace.{Setting, IsTimed}
use gardal.Stream.Weigh.{weigh, weigh-append}
use gardal.Stream.Client.{Shares, HoldsIn, Moved, polling}
use gardal.Stream.Moves.{poll-Moved}

-- The storage that a polled stream leaves in the bucket that all share.
abbrev pub stored_in : {ST C : Type 0} → ST → Option (TokenBucket ST C) → ST
stored_in s none = s
stored_in s (some b) = b.bucket

abbrev pub replace : {W : Type 0} → ℕ → W → (ℕ → W) → ℕ → W
replace i w streams j = if j == i then w else streams j

-- A stream as a poll at `now` finds it, with the storage that all share.
abbrev pub found :
    {S ST C D X Item : Type 0}
    → (ℕ → C)
    → ST
    → ℕ
    → X
    → WeightedStream S ST C D Item
    → Task S ST C D X Item
found clock s now cx w =
    meanwhile (λ b. record b { bucket = s; clock = clock now }) [] cx
      (record { this = w; env = []; cx = cx })

-- So many polls of the first `n` streams, in any order, each at a time that is not before the last one: a
-- poll finds the shared storage as the last poll left it. The items are those that all the streams
-- have delivered until `last`.
pub data SharedRun {S ST C D X Item : Type 0} ⦃t : TimeStorage ST⦄ ⦃k : Clock C⦄
    ⦃i : InnerStream S Item X⦄ ⦃r : Runtime X D⦄ (clock : ℕ → C) (timed : IsTimed X D)
    (per_unit n first : ℕ) (s₀ : ST) (streams₀ : ℕ → WeightedStream S ST C D Item)
    : ℕ → List Item → ℕ → ST → (ℕ → WeightedStream S ST C D Item) → Type 0 where
  start : SharedRun clock timed per_unit n first s₀ streams₀ 0 [] first s₀ streams₀
  polled :
      {polls : ℕ} {given : List Item} {last : ℕ} {s : ST}
      {streams : ℕ → WeightedStream S ST C D Item} {a : Poll (Option Item)}
      {q : Task S ST C D X Item}
      → SharedRun clock timed per_unit n first s₀ streams₀ polls given last s streams
      → (j now : ℕ) (cx : X) → j < n
      → last ≤ now
      → timed.nanos_at cx ≡ now * per_unit
      → poll_next (found clock s now cx (streams j)) ≡ some (a, q)
      → SharedRun clock timed per_unit n first s₀ streams₀
          (suc polls)
          (given ++ pulled a)
          now
          (stored_in s q.this.bucket)
          (replace j q.this streams)

module _ {S ST C D X Item : Type 0} ⦃t : TimeStorage ST⦄ ⦃k : Clock C⦄ ⦃i : InnerStream S Item X⦄
    ⦃r : Runtime X D⦄ (o : Setting S ST C D X Item) where
  open o use {l, limit, g, clock, clock_at, timed, per_unit, f}

  own_limit :
      (owed : Owed) (b : TokenBucket ST C) (d : Option D) (x : Option Item)
      → Shares o owed (some b) d x
      → b.limit ≡ limit
  own_limit none b none none h = h
  own_limit (some (u, y)) b (some d) (some x) h = h.0
  own_limit none b (some d) x h = elim h [ ]
  own_limit none b none (some x) h = elim h [ ]
  own_limit (some (u, y)) b none x h = elim h [ ]
  own_limit (some (u, y)) b (some d) none h = elim h [ ]

  other_bucket :
      (owed : Owed) (b b' : TokenBucket ST C) (d : Option D) (x : Option Item)
      → b'.limit ≡ limit
      → Shares o owed (some b) d x
      → Shares o owed (some b') d x
  other_bucket none b b' none none e h = e
  other_bucket (some (u, y)) b b' (some d) (some x) e (_, u_eq, waits) = (e, u_eq, waits)
  other_bucket none b b' (some d) x e h = elim h [ ]
  other_bucket none b b' none (some x) e h = elim h [ ]
  other_bucket (some (u, y)) b b' none x e h = elim h [ ]
  other_bucket (some (u, y)) b b' (some d) none e h = elim h [ ]

  no_bucket :
      (owed : Owed) (d : Option D) (x : Option Item) {P : Type 0} → Shares o owed none d x → P
  no_bucket none d x h = elim h [ ]
  no_bucket (some (u, y)) d x h = elim h [ ]

  module _ (now : ℕ) (now_top : now + g.cap ≤ 2 ^ 53) (s : ST) (z : ℕ)
      (v : Holds l limit g clock clock_at s z) (owed : Owed)
      (z_top : owed ≡ none → z + g.cap ≤ 2 ^ 53) where
    pub stream-Moved :
        (str : S) (b : Option (TokenBucket ST C)) (own : Item → ℕ) (d : Option D) (x : Option Item)
        (cx : X)
        → timed.nanos_at cx ≡ now * per_unit
        → own ≡ f
        → Shares o owed b d x
        → Moved o now z owed (
            poll_next (
              found clock s now cx (record {
                stream = str;
                bucket = b;
                weight_fn = own;
                delay = d;
                pending_item = x;
              })))
    stream-Moved str none own d x cx time_eq own_eq h = no_bucket owed d x h
    stream-Moved str (some b) own d x cx time_eq own_eq h =
        let here : TokenBucket ST C = record { bucket = s; clock = clock now; limit = limit } in
        let done =
          poll-Moved o now now_top s z v owed z_top str d x cx time_eq
            (other_bucket owed b here d x refl h) in
        let limited =
          subst
            (λ lim. Moved o now z owed (
              poll_next (
                found clock s now cx (record {
                  stream = str;
                  bucket = some (record { bucket = s; clock = clock now; limit = lim });
                  weight_fn = f;
                  delay = d;
                  pending_item = x;
                }))))
            (sym (own_limit owed b d x h)) done in
        subst
          (λ w. Moved o now z owed (
            poll_next (
              found clock s now cx (record {
                stream = str;
                bucket = some b;
                weight_fn = w;
                delay = d;
                pending_item = x;
              }))))
          (sym own_eq) limited
