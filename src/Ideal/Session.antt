-- ===== src/Ideal/Session.antt =====
-- A run of calls on the abstract bucket of whole units: what a client of a token bucket is promised.
use gardal.Prelude.{
  ℕ, ◌+◌, ◌-◌, ◌*◌, ◌^◌, ◌≤◌, ◌<◌, ◌==◌, Option, none, some, List, [], ◌∷◌, Result, ok, err,
  if◌then◌else◌,
}
use Prim.Native.Nat.{min}
use gardal.Ideal.{caught_up, take, lend, level}

-- A call asks for a number of tokens, or brings a number of units.
pub data Call : Type 0 where
  consume : ℕ → Call
  try_consume : ℕ → Call
  saturating_consume : ℕ → Call
  consume_with_borrow : ℕ → Call
  saturating_consume_with_borrow : ℕ → Call
  add_tokens : ℕ → Call
  available : Call

pub record Timed : Type 0 where
  pub now : ℕ
  pub call : Call

-- What is given, in units; the time to wait where a try fails; the nap after a loan, none for a request
-- above the burst; what a request that is cut at the burst is lent, and its nap; what is there.
pub data Reply : Type 0 where
  taken : Option ℕ → Reply
  tried : Result ℕ ℕ → Reply
  lent : Option ℕ → Reply
  lent_part : ℕ → ℕ → Reply
  added : Reply
  level_is : ℕ → Reply

abbrev pub on_take : ℕ → ℕ → Option ℕ → Reply × ℕ
on_take u z none = (taken none, z)
on_take u z (some z') = (taken (some u), z')

abbrev pub on_try : ℕ → ℕ → ℕ → Option ℕ → Reply × ℕ
on_try u now z none = (tried (err (z + u - now)), z)
on_try u now z (some z') = (tried (ok u), z')

abbrev pub on_lend : ℕ → Option (ℕ × ℕ) → Reply × ℕ
on_lend z none = (lent none, z)
on_lend z (some (z', nap)) = (lent (some nap), z')

abbrev pub on_lend_part : ℕ → ℕ → Option (ℕ × ℕ) → Reply × ℕ
on_lend_part u z none = (lent none, z)
on_lend_part u z (some (z', nap)) = (lent_part u nap, z')

-- `cap` is the burst, and a token has `per_token` units.
module _ (cap per_token : ℕ) where
  abbrev pub on_part : ℕ → ℕ → ℕ → Reply × ℕ
  on_part now z a = if a == 0 then (taken none, z) else (taken (some a), caught_up cap now z + a)

  -- The reply to a call, and the zero time after it.
  abbrev pub serve : ℕ → Call → ℕ → Reply × ℕ
  serve now (consume n) z = on_take (n * per_token) z (take cap (n * per_token) now z)
  serve now (try_consume n) z = on_try (n * per_token) now z (take cap (n * per_token) now z)
  serve now (saturating_consume n) z = on_part now z (min (level cap now z) (n * per_token))
  serve now (consume_with_borrow n) z = on_lend z (lend cap (n * per_token) now z)
  serve now (saturating_consume_with_borrow n) z =
      let u = min (n * per_token) cap in on_lend_part u z (lend cap u now z)
  serve now (add_tokens m) z = (added, z - m)
  serve now available z = (level_is (level cap now z), z)

  abbrev pub serve_all : List Timed → ℕ → List Reply × ℕ
  serve_all [] z = ([], z)
  serve_all (c ∷ cs) z =
      let (r, z₁) = serve c.now c.call z in let (rs, z₂) = serve_all cs z₁ in (r ∷ rs, z₂)

abbrev IsRequest : ℕ → ℕ → ℕ → ℕ → Type 0
IsRequest per_token now n z =
    (0 < n) × (n < 2 ^ 32) × (now + n * per_token ≤ 2 ^ 53) × (z + n * per_token ≤ 2 ^ 53)

-- `HasDuration` says of a nap that it can be told.
module _ (cap per_token : ℕ) (HasDuration : ℕ → Type 0) where
  -- The numbers of a call stay small, it tries for no more than the burst, it brings back no more
  -- than there was from the start of time on, and if it cuts its request there is a burst to cut at
  -- and its nap can be told.
  abbrev pub IsSmall : ℕ → Call → ℕ → Type 0
  IsSmall now (consume n) z = IsRequest per_token now n z
  IsSmall now (try_consume n) z = IsRequest per_token now n z × (n * per_token ≤ cap)
  IsSmall now (saturating_consume n) z = IsRequest per_token now n z
  IsSmall now (consume_with_borrow n) z = IsRequest per_token now n z
  IsSmall now (saturating_consume_with_borrow n) z =
      IsRequest per_token now n z
      × (0 < cap)
      × HasDuration (caught_up cap now z + min (n * per_token) cap - now)
  IsSmall now (add_tokens m) z = (now ≤ 2 ^ 53) × (m ≤ z)
  IsSmall now available z = now ≤ 2 ^ 53

  abbrev pub AllSmall : List Timed → ℕ → Type 0
  AllSmall [] z = Unit
  AllSmall (c ∷ cs) z = IsSmall c.now c.call z × AllSmall cs (serve cap per_token c.now c.call z).1
