-- ===== src/Stream/Moves.antt =====
-- src/futures/stream.rs: one poll of a stream as a move of a client of the ideal bucket, where no step rounds.
use gardal.Prelude.{ℕ, ◌+◌, ◌*◌, ◌^◌, ◌≤◌, ◌≡◌, refl, ◌∙◌, arith, Option, none, some}
use native.Mathlib.Nat.{mul-lt-mul_of_pos_right}
use native.Mathlib.Decide.{dec_le}
use gardal.Clock.Source.{Clock}
use gardal.Ideal.Ledger.{Owed, rests, redeems}
use gardal.Storage.Interface.{TimeStorage}
use gardal.RawBucket.Held.{Holds}
use gardal.Stream.{
  Poll, ready, pending, InnerStream, Runtime, leave, take_pending, deliver, fetch, poll_next,
}
use gardal.Stream.Pace.{Setting}
use gardal.Stream.Weigh.{weight}
use gardal.Stream.Client.{Shares, Moved, polling}
use gardal.Stream.Pays.{pay-Moved}

module _ {S ST C D X Item : Type 0} ⦃t : TimeStorage ST⦄ ⦃k : Clock C⦄ ⦃i : InnerStream S Item X⦄
    ⦃r : Runtime X D⦄ (o : Setting S ST C D X Item) where
  open o use {
    l, limit, g, clock, clock_at, timed, inner_at, per_unit, per_unit_pos, whole, f, f-IsNonZeroU32,
  }

  module _ (now : ℕ) (now_top : now + g.cap ≤ 2 ^ 53) (s : ST) (z : ℕ)
      (v : Holds l limit g clock clock_at s z) where
    deliver-Moved :
        (before : X) (str : S) (d : D) (x : Item) (cx : X) (u y : ℕ)
        → timed.nanos_at cx ≡ now * per_unit
        → u ≡ weight o x
        → y * per_unit ≤ timed.due d
        → Moved o now z (some (u, y)) (deliver before (polling o str s now (some d) (some x) cx))
    unfolding deliver take_pending leave
    deliver-Moved before str d x cx u y time_eq u_eq waits = go (r.poll d cx).0 refl
      where
        go :
            (a : Poll (Unit {0}))
            → (r.poll d cx).0 ≡ a
            → Moved o now z
                (some (u, y))
                (deliver before (polling o str s now (some d) (some x) cx))
        go (ready _) e =
            let over : y ≤ now = elim (dec_le y now) [
              | yes h ↦ h
              | no long ↦ absurd (
                  omega (
                    arith,
                    mul-lt-mul_of_pos_right {m = now} {n = y} (omega (arith, long)) per_unit_pos,
                    timed.poll_due d cx e,
                    time_eq,
                    waits,
                  ))
            ] in
            rw (e, deliver)
              (refl, none, z, redeems u y refl over (omega (arith, u_eq)) refl refl, refl, v)
        go pending e =
            rw (e, deliver)
              (
                refl,
                some (u, y),
                z,
                rests refl refl refl,
                (refl, u_eq, rw (timed.poll_keeps d cx) waits),
                v,
              )

    fetch-Moved :
        (before : X) (str : S) (cx : X)
        → timed.nanos_at cx ≡ now * per_unit
        → z + g.cap ≤ 2 ^ 53
        → Moved o now z none (
            fetch before
              (record { bucket = s; clock = clock now; limit = limit })
              (polling o str s now none none cx))
    unfolding fetch leave
    fetch-Moved before str cx time_eq z_top = go (i.poll_next str cx).0 refl
      where
        go :
            (a : Poll (Option Item))
            → (i.poll_next str cx).0 ≡ a
            → Moved o now z none (
                fetch before
                  (record { bucket = s; clock = clock now; limit = limit })
                  (polling o str s now none none cx))
        go pending e = rw (e, fetch) (refl, none, z, rests refl refl refl, refl, v)
        go (ready none) e = rw (e, fetch) (refl, none, z, rests refl refl refl, refl, v)
        go (ready (some x)) e =
            rw (e, fetch)
              (pay-Moved o now now_top s z v (i.poll_next str cx).1.0 x (i.poll_next str cx).1.1
                (omega (arith, inner_at str cx, time_eq)) z_top)

    -- With budget or without.
    resting-Moved :
        (str : S) (cx : X)
        → timed.nanos_at cx ≡ now * per_unit
        → z + g.cap ≤ 2 ^ 53
        → Moved o now z none (poll_next (polling o str s now none none cx))
    unfolding poll_next
    resting-Moved str cx time_eq z_top = go (r.poll_proceed cx).0 refl
      where
        go :
            (a : Poll (Unit {0}))
            → (r.poll_proceed cx).0 ≡ a
            → Moved o now z none (poll_next (polling o str s now none none cx))
        go pending e = rw (e, poll_next) (refl, none, z, rests refl refl refl, refl, v)
        go (ready _) e =
            rw (e, poll_next)
              (fetch-Moved cx str (r.poll_proceed cx).1 (timed.proceed_at cx ∙ time_eq) z_top)

    waiting-Moved :
        (str : S) (d : D) (x : Item) (cx : X) (u y : ℕ)
        → timed.nanos_at cx ≡ now * per_unit
        → u ≡ weight o x
        → y * per_unit ≤ timed.due d
        → Moved o now z (some (u, y)) (poll_next (polling o str s now (some d) (some x) cx))
    unfolding poll_next
    waiting-Moved str d x cx u y time_eq u_eq waits = go (r.poll_proceed cx).0 refl
      where
        go :
            (a : Poll (Unit {0}))
            → (r.poll_proceed cx).0 ≡ a
            → Moved o now z (some (u, y)) (poll_next (polling o str s now (some d) (some x) cx))
        go pending e =
            rw (e, poll_next) (refl, some (u, y), z, rests refl refl refl, (refl, u_eq, waits), v)
        go (ready _) e =
            rw (e, poll_next)
              (deliver-Moved cx str d x (r.poll_proceed cx).1 u y (timed.proceed_at cx ∙ time_eq)
                u_eq waits)

  -- One poll of a stream that shares its bucket.
  pub poll-Moved :
      (now : ℕ)
      → now + g.cap ≤ 2 ^ 53
      → (s : ST) (z : ℕ) → Holds l limit g clock clock_at s z
      → (owed : Owed) → (owed ≡ none → z + g.cap ≤ 2 ^ 53)
      → (str : S) (d : Option D) (x : Option Item) (cx : X) → timed.nanos_at cx ≡ now * per_unit
      → Shares o owed (some (record { bucket = s; clock = clock now; limit = limit })) d x
      → Moved o now z owed (poll_next (polling o str s now d x cx))
  poll-Moved now now_top s z v none z_top str none none cx time_eq h =
      resting-Moved now now_top s z v str cx time_eq (z_top refl)
  poll-Moved now now_top s z v (some (u, y)) z_top str (some d) (some x) cx time_eq
        (_, u_eq, waits) =
      waiting-Moved now now_top s z v str d x cx u y time_eq u_eq waits
  poll-Moved now now_top s z v none z_top str (some d) x cx time_eq h = elim h [ ]
  poll-Moved now now_top s z v none z_top str none (some x) cx time_eq h = elim h [ ]
  poll-Moved now now_top s z v (some (u, y)) z_top str none x cx time_eq h = elim h [ ]
  poll-Moved now now_top s z v (some (u, y)) z_top str (some d) none cx time_eq h = elim h [ ]
