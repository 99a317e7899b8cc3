-- ===== src/RawBucket/Shared.antt =====
-- src/raw_bucket.rs: the calls of a raw bucket that threads share.
use gardal.Prelude.{ℕ}
use gardal.Float.Value.{F64, of_int}
use gardal.Clock.Source.{Clock}
use gardal.Tokens
use gardal.Limit.{Limit}
use gardal.Storage.Interface.{TimeStorage, World, IsAtomic}
use gardal.Storage.Linear.{IsBenign}
use gardal.Storage.Shared.{RunsAsAlone, update-RunsAsAlone, bind-RunsAsAlone}
use gardal.Storage.Bucket
use gardal.Storage.Bucket.{consume_turn, consume2_turn, return_turn}
use gardal.RawBucket
use gardal.RawBucket.{all_or_nothing, up_to, or_retry}

module _ {S C : Type 0} ⦃t : TimeStorage S⦄ ⦃k : Clock C⦄ (l : IsAtomic S) (clock : C)
    (limit : Limit) where
  -- Over an atomic storage in a valid state, with any interference by other threads that write values
  -- of the format, `consume`, `try_consume`, `saturating_consume` and `add_tokens` return; and the
  -- result of each, and the storage that it leaves, are those of the same call undisturbed, on the
  -- storage as it is between two interferences.
  pub calls-RunsAsAlone :
      (n : ℕ) (tokens : F64) (w : World S)
      → IsBenign w.env
      → l.IsValid w.cell
      → RunsAsAlone (RawBucket.consume n clock limit) w
        × RunsAsAlone (RawBucket.try_consume n clock limit) w
        × RunsAsAlone (RawBucket.saturating_consume n clock limit) w
        × RunsAsAlone (RawBucket.add_tokens tokens limit) w
  unfolding RawBucket.consume RawBucket.try_consume RawBucket.saturating_consume
      RawBucket.add_tokens RawBucket.saturating_consume_inner Bucket.consume Bucket.consume2
      Bucket.return_tokens
  calls-RunsAsAlone n tokens w b v =
      let now = k.now clock in
      let m = of_int n in
      let all =
        update-RunsAsAlone (consume_turn limit.rate limit.burst now (all_or_nothing m)) l w b v in
      let tried =
        update-RunsAsAlone (consume2_turn limit.rate limit.burst now (all_or_nothing m)) l w b v in
      let part = update-RunsAsAlone (consume_turn limit.rate limit.burst now (up_to m)) l w b v in
      let returned = update-RunsAsAlone (return_turn tokens limit.rate) l w b v in
      (
        bind-RunsAsAlone (Bucket.consume limit.rate limit.burst now (all_or_nothing m))
            Tokens.new_checked w all,
        bind-RunsAsAlone _ (or_retry now m limit.rate) w tried,
        bind-RunsAsAlone _ Tokens.new_checked w part,
        bind-RunsAsAlone _ (λ _. tt) w returned,
      )
