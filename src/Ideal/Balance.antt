-- ===== src/Ideal/Balance.antt =====
-- The abstract bucket of whole units: what comes out of it in a run of calls, and what goes in.
use gardal.Prelude.{
  ℕ, ◌+◌, ◌-◌, ◌*◌, ◌≤◌, arith, leb, ltb, ◌==◌, none, some, List, [], ◌∷◌, ok, err, inl, inr,
  Bool-cases,
}
use Prim.Native.Nat.{min, max}
use gardal.Ideal.{caught_up, take, lend, level}
use gardal.Ideal.Session.{
  Call, consume, try_consume, saturating_consume, consume_with_borrow,
  saturating_consume_with_borrow, add_tokens, available, Timed, Reply, taken, tried, lent,
  lent_part, added, level_is, serve, serve_all,
}

-- The units that a reply hands out, for a request for `u` units.
abbrev pub handed_out : ℕ → Reply → ℕ
handed_out u (taken none) = 0
handed_out u (taken (some a)) = a
handed_out u (tried (ok a)) = a
handed_out u (tried (err w)) = 0
handed_out u (lent none) = 0
handed_out u (lent (some nap)) = u
handed_out u (lent_part a nap) = a
handed_out u added = 0
handed_out u (level_is a) = 0

module _ (cap per_token : ℕ) where
  abbrev asked : Call → ℕ
  asked (consume n) = n * per_token
  asked (try_consume n) = n * per_token
  asked (saturating_consume n) = n * per_token
  asked (consume_with_borrow n) = n * per_token
  asked (saturating_consume_with_borrow n) = n * per_token
  asked (add_tokens m) = 0
  asked available = 0

  abbrev brought : Call → ℕ
  brought (consume n) = 0
  brought (try_consume n) = 0
  brought (saturating_consume n) = 0
  brought (consume_with_borrow n) = 0
  brought (saturating_consume_with_borrow n) = 0
  brought (add_tokens m) = m
  brought available = 0

  -- All that a run of calls hands out, loans included, and all that it brings.
  abbrev pub out_of : List Timed → ℕ → ℕ
  out_of [] z = 0
  out_of (c ∷ cs) z =
      let (r, z₁) = serve cap per_token c.now c.call z in handed_out (asked c.call) r + out_of cs z₁

  abbrev pub into : List Timed → ℕ
  into [] = 0
  into (c ∷ cs) = brought c.call + into cs

  abbrev pub AllFrom : ℕ → List Timed → Type 0
  AllFrom first [] = Unit
  AllFrom first (c ∷ cs) = (first ≤ c.now) × AllFrom first cs

  module _ (first now : ℕ) (from : first ≤ now) (z : ℕ) where
    -- The zero time moves ahead by what a call hands out, and back by what it brings.
    abbrev Keeps : Call → Type 0
    Keeps c =
        let (r, z₁) = serve cap per_token now c z in
        max z (first - cap) + handed_out (asked c) r ≤ max z₁ (first - cap) + brought c

    moves_on : (a : ℕ) → max z (first - cap) + a ≤ max (caught_up cap now z + a) (first - cap) + 0
    unfolding caught_up
    moves_on a = omega (arith, from)

    stays : max z (first - cap) + 0 ≤ max z (first - cap) + 0
    stays = omega arith

    call-Keeps : (c : Call) → Keeps c
    unfolding take lend
    call-Keeps (consume n) = elim (Bool-cases (leb (caught_up cap now z + n * per_token) now)) [
      | inl e ↦ rw e (moves_on (n * per_token))
      | inr e ↦ rw e stays
    ]
    call-Keeps (try_consume n) = elim (Bool-cases (leb (caught_up cap now z + n * per_token) now)) [
      | inl e ↦ rw e (moves_on (n * per_token))
      | inr e ↦ rw e stays
    ]
    call-Keeps (saturating_consume n) =
        let a = min (level cap now z) (n * per_token) in
        elim (Bool-cases (a == 0)) [ inl e ↦ rw e stays | inr e ↦ rw e (moves_on a) ]
    call-Keeps (consume_with_borrow n) = elim (Bool-cases (ltb cap (n * per_token))) [
      | inl e ↦ rw e stays
      | inr e ↦ rw e (moves_on (n * per_token))
    ]
    call-Keeps (saturating_consume_with_borrow n) =
        let u = min (n * per_token) cap in
        elim (Bool-cases (ltb cap u)) [ inl e ↦ rw e stays | inr e ↦ rw e (moves_on u) ]
    call-Keeps (add_tokens m) = omega arith
    call-Keeps available = stays

  pub serve_all-keeps :
      (first : ℕ) (calls : List Timed) (z : ℕ)
      → AllFrom first calls
      → max z (first - cap) + out_of calls z
        ≤ max (serve_all cap per_token calls z).1 (first - cap) + into calls
  serve_all-keeps first [] z from = omega arith
  serve_all-keeps first (c ∷ cs) z (h, from) = omega (
    arith,
    call-Keeps first c.now h z c.call,
    serve_all-keeps first cs (serve cap per_token c.now c.call z).1 from,
  )
