-- ===== src/RawBucket/Refines.antt =====
-- src/raw_bucket.rs against the ideal bucket, where no step rounds.
use gardal.Prelude.{
  ℕ, ◌+◌, ◌^◌, ◌≤◌, ◌≡◌, ◌∙◌, arith, leb, Option, none, some, inl, inr, Bool-cases,
}
use gardal.Clock.Source.{Clock}
use gardal.Tokens
use gardal.Tokens.{Tokens}
use gardal.Limit.{Limit}
use gardal.Ideal.{caught_up, take}
use gardal.Storage.Interface.{TimeStorage, World, IsStorage}
use gardal.Storage.Alone.{alone}
use gardal.RawBucket
use gardal.RawBucket.Outcome.{IsNonZeroU32, consume-after}
use gardal.RawBucket.Exact.{IsScale, units, time, covered, lacking}

module _ {S C : Type 0} ⦃t : TimeStorage S⦄ ⦃k : Clock C⦄ (l : IsStorage S) (s : S)
    (v : l.IsValid s) (clock : C) (limit : Limit) (g : IsScale limit) (now z : ℕ)
    (now_eq : k.now clock ≡ time limit g now) (now_top : now ≤ 2 ^ 53)
    (zero_eq : t.load s ≡ time limit g z) (zero_top : z ≤ 2 ^ 53) where
  -- The answer and the bucket after it, given the ideal bucket's.
  abbrev pub as_ideal : ℕ → Option ℕ → Option (Option Tokens × World S)
  as_ideal n none = some (none, alone s)
  as_ideal n (some z') = some (some (Tokens.new n), alone (t.store s (time limit g z')))

  -- On a valid storage that no other thread touches, with a rate that is a power of two, and times, a
  -- zero time and a burst of at most 2^53 units each, `consume` for `n` tokens (1 to 2^32 - 1) does
  -- what the ideal bucket does: it gives the tokens where that one does, and moves the zero time where
  -- that one moves it.
  pub consume-refines :
      (n : ℕ)
      → IsNonZeroU32 n
      → RawBucket.consume n clock limit (alone s) ≡ as_ideal n (take g.cap (units limit g n) now z)
  unfolding take
  consume-refines n h =
      let few : n ≤ 2 ^ 53 = omega (arith, h.1) in
      consume-after l s v clock limit n h
      ∙ elim (Bool-cases (leb (caught_up g.cap now z + units limit g n) now)) [
        | inl yes_given ↦
            let (enough, moved) = covered limit g now z n few now_top (ground arith) in
            rw (now_eq, zero_eq, yes_given, enough, moved)
        | inr refused ↦ rw (
          now_eq,
          zero_eq,
          refused,
          lacking limit g now z n few now_top (ground arith) h.0 zero_top,
        )
      ]
