-- ===== src/Stream/Weigh.antt =====
-- src/futures/stream.rs: what the items of a stream weigh, in units of tokens.
use gardal.Prelude.{ℕ, ◌+◌, ◌≡◌, arith, List, [], ◌∷◌, ◌++◌}
use gardal.Clock.Source.{Clock}
use gardal.Storage.Interface.{TimeStorage}
use gardal.RawBucket.Exact.{units}
use gardal.Stream.{InnerStream, Runtime}
use gardal.Stream.Pace.{Setting}

module _ {S ST C D X Item : Type 0} ⦃t : TimeStorage ST⦄ ⦃k : Clock C⦄ ⦃i : InnerStream S Item X⦄
    ⦃r : Runtime X D⦄ (o : Setting S ST C D X Item) where
  abbrev pub weight : Item → ℕ
  weight x = units o.limit o.g (o.f x)

  abbrev pub weigh : List Item → ℕ
  weigh [] = 0
  weigh (x ∷ xs) = weight x + weigh xs

  pub weigh-append : (xs ys : List Item) → weigh (xs ++ ys) ≡ weigh xs + weigh ys
  weigh-append [] ys = omega arith
  weigh-append (x ∷ xs) ys = omega (arith, weigh-append xs ys)
