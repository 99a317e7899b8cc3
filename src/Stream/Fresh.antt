-- ===== src/Stream/Fresh.antt =====
-- src/futures/stream.rs with a bucket made by `with_datum` of src/bucket.rs, as the tests make theirs.
use gardal.Prelude.{ℕ, ◌+◌, ◌*◌, ◌^◌, ◌≤◌, ◌<◌, ◌≡◌, ap, ◌∙◌, arith, some, length}
use gardal.Float.Value.{IsF64}
use gardal.Clock.Source.{Clock}
use gardal.Ideal.Timetable.{running_totals, timetable-eq-running_totals}
use gardal.Storage.Interface.{TimeStorage}
use gardal.RawBucket
use gardal.RawBucket.Exact.{time, time-IsF64}
use gardal.RawBucket.Held.{Holds}
use gardal.Bucket.{with_datum}
use gardal.Stream.{InnerStream, Runtime}
use gardal.Stream.Pace.{Setting}
use gardal.Stream.Weigh.{weight, weigh}
use gardal.Stream.Executor.{IsPunctual, run, executor}
use gardal.Stream.OnTime.{AllWithin, started, run_exact}

module _ {S ST C D X Item : Type 0} ⦃t : TimeStorage ST⦄ ⦃k : Clock C⦄ ⦃i : InnerStream S Item X⦄
    ⦃r : Runtime X D⦄ (o : Setting S ST C D X Item) (e : IsPunctual o) where
  open o use {l, limit, g, clock, clock_at}

  -- In a `Setting` with a punctual executor, for a new stream over a list's items with a bucket that
  -- `with_datum` makes, started at the datum of its clock, where no item weighs more than the burst and
  -- the start with the weights added is within 2^53 units: the loop over the stream ends, and has each
  -- item exactly when its weight and those of the items before it have come in since the start. So not
  -- even the first item is there at once, whatever the burst.
  pub run_fresh :
      (fuel now : ℕ) (str : S) (c : C) (cx : X)
      → k.datum c ≡ time limit g now
      → AllWithin o e (e.left str)
      → now + weigh o (e.left str) ≤ 2 ^ 53
      → 3 * length (e.left str) < fuel
      → run (executor o e) fuel now (started o e str (with_datum limit c) cx)
        ≡ some (running_totals (weight o) now (e.left str))
  unfolding with_datum RawBucket.new
  run_fresh fuel now str c cx datum_eq fits top enough =
      let small : now ≤ 2 ^ 53 = omega (arith, top) in
      let zero_fits : IsF64 (k.datum c) = rw datum_eq (time-IsF64 limit g now small) in
      let empty : Holds l limit g clock clock_at (t.new (k.datum c)) now = record {
        load_eq = l.load-new (k.datum c) zero_fits ∙ datum_eq;
        valid = l.new-IsValid (k.datum c) zero_fits;
        small = small;
      } in
      run_exact o e fuel now now str (t.new (k.datum c)) c cx empty fits (omega (arith, top)) enough
      ∙ ap some (timetable-eq-running_totals (weight o) g.cap now now (e.left str) (omega arith))
