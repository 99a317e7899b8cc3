-- ===== src/Bucket/OneByOne.antt =====
-- The calls of the tests `concurrent_consume` and `concurrent_consume_owned` of src/bucket.rs, one by one.
use gardal.Prelude.{
  ℕ, zero, suc, ◌+◌, ◌==◌, Bool, true, false, ◌≡◌, refl, arith, if◌then◌else◌, Option, none, some,
  inl, inr, Bool-cases,
}
use mathlib.Core.Bool.{false≢true}
use mathlib.Core.Option.{some-injective, none-ne-some}
use gardal.Float.Value.{F64, fin, inf, nan, zero_f64, of_int, sub, max, lt, running}
use gardal.Float.Bits.{to_bits, from_bits}
use gardal.Clock.Manual
use gardal.Clock.Manual.{ManualClock, manual_clock}
use gardal.Tokens
use gardal.Tokens.{as_u64}
use gardal.Limit as Limits
use gardal.Limit.{Limit}
use gardal.Storage.Interface.{TimeStorage}
use gardal.Storage.Loop.{Turn, stop, swap}
use gardal.Storage.Bucket.{balance_of, zero_time_new, consume_turn}
use gardal.RawBucket.{all_or_nothing}
use gardal.Bucket.{with_clock}

abbrev pub thousand : Limit
thousand = Limits.per_second_and_burst 1_000 10_000

-- The bucket's word, made where the clock is at 0.
abbrev pub new_word : (S : Type 0) → ⦃t : TimeStorage S⦄ → S
new_word S ⦃t = t⦄ = (with_clock {S = S} ⦃t = t⦄ thousand Manual.default).bucket

-- `tb.consume(nonzero!(1u32))` where the clock is at 10.
abbrev pub one_more : Unit {0} → F64 → Turn F64
one_more _ = consume_turn thousand.rate thousand.burst (of_int 10) (all_or_nothing (of_int 1))

-- `assert_eq!(1, … .unwrap().as_u64())`
abbrev pub is_one : F64 → Bool
is_one consumed = elim (Tokens.new_checked consumed) [ none ↦ false | some t ↦ as_u64 t == 1 ]

abbrev abs : F64 → F64
abs (fin s a) = fin false a
abs (inf s) = inf false
abs nan = nan

-- `(remaining - 2000.0).abs() < 1e-9`
abbrev near_2000 : F64 → Bool
near_2000 remaining = lt (abs (sub remaining (of_int 2_000))) (from_bits 4_472_406_533_629_990_549)

-- So many calls more, one by one, and then the test's last assertion.
unfoldable pub one_by_one : ℕ → F64 → Bool
one_by_one zero z = near_2000 (max (balance_of thousand.rate thousand.burst (of_int 10) z) zero_f64)
one_by_one (suc n) z = elim (one_more tt z) [
  | stop r ↦ false
  | swap r z' ↦ if is_one r then one_by_one n z' else false
]

-- The zero time after so many calls that each get a token.
unfoldable ones : ℕ → F64 → Option F64
ones zero z = some z
ones (suc n) z = elim (one_more tt z) [
  | stop r ↦ none
  | swap r z' ↦ if is_one r then ones n z' else none
]

-- A call at the zero time `z` that gets a token.
pub record One (z : F64) : Type 0 where
  pub result : F64
  pub next : F64
  pub given : one_more tt z ≡ swap result next
  pub one : is_one result ≡ true

ones-One : (m : ℕ) (z z' : F64) → ones (suc m) z ≡ some z' → (q : One z) × (ones m q.next ≡ some z')
unfolding ones
ones-One m z z' e = go (one_more tt z) refl
  where
    go : (a : Turn F64) → one_more tt z ≡ a → (q : One z) × (ones m q.next ≡ some z')
    go (stop r) given = absurd (none-ne-some z' (rw (given, ones) at e))
    go (swap r y) given = elim (Bool-cases (is_one r)) [
      | inl one ↦
          (record { result = r; next = y; given = given; one = one }, rw (given, one, ones) at e)
      | inr other ↦ absurd (none-ne-some z' (rw (given, other, ones) at e))
    ]

pub one_by_one-One :
    (n : ℕ) (z : F64) → one_by_one (suc n) z ≡ true → (q : One z) × (one_by_one n q.next ≡ true)
unfolding one_by_one
one_by_one-One n z e = go (one_more tt z) refl
  where
    go : (a : Turn F64) → one_more tt z ≡ a → (q : One z) × (one_by_one n q.next ≡ true)
    go (stop r) given = absurd (false≢true (rw (given, one_by_one) at e))
    go (swap r y) given = elim (Bool-cases (is_one r)) [
      | inl one ↦ (
        record { result = r; next = y; given = given; one = one },
        rw (given, one, one_by_one) at e,
      )
      | inr other ↦ absurd (false≢true (rw (given, other, one_by_one) at e))
    ]

after_ones :
    (m n k : ℕ) (z z' : F64)
    → k ≡ m + n
    → ones m z ≡ some z'
    → one_by_one n z' ≡ true
    → one_by_one k z ≡ true
unfolding ones one_by_one
after_ones zero n k z z' count e h =
    let same : k ≡ n = omega (arith, count) in rw (some-injective z z' e, same) h
after_ones (suc m) n zero z z' count e h = absurd (omega (arith, count))
after_ones (suc m) n (suc k) z z' count e h =
    let (q, rest) = ones-One m z z' e in
    rw (q.given, q.one, one_by_one) (after_ones m n k q.next z' (omega (arith, count)) rest h)

to_1000 : ones 1_000 zero_f64 ≡ some (from_bits 4_607_182_418_800_017_408)
unfolding ones running consume_turn balance_of zero_time_new all_or_nothing from_bits to_bits
    Tokens.new_checked Tokens.new_unchecked as_u64 Limits.per_second_and_burst
to_1000 = refl

to_2000 :
    ones 1_000 (from_bits 4_607_182_418_800_017_408) ≡ some (from_bits 4_611_686_018_427_387_632)
unfolding ones running consume_turn balance_of zero_time_new all_or_nothing from_bits to_bits
    Tokens.new_checked Tokens.new_unchecked as_u64 Limits.per_second_and_burst
to_2000 = refl

to_3000 :
    ones 1_000 (from_bits 4_611_686_018_427_387_632) ≡ some (from_bits 4_613_937_818_241_073_016)
unfolding ones running consume_turn balance_of zero_time_new all_or_nothing from_bits to_bits
    Tokens.new_checked Tokens.new_unchecked as_u64 Limits.per_second_and_burst
to_3000 = refl

to_4000 :
    ones 1_000 (from_bits 4_613_937_818_241_073_016) ≡ some (from_bits 4_616_189_618_054_758_264)
unfolding ones running consume_turn balance_of zero_time_new all_or_nothing from_bits to_bits
    Tokens.new_checked Tokens.new_unchecked as_u64 Limits.per_second_and_burst
to_4000 = refl

to_5000 :
    ones 1_000 (from_bits 4_616_189_618_054_758_264) ≡ some (from_bits 4_617_315_517_961_600_956)
unfolding ones running consume_turn balance_of zero_time_new all_or_nothing from_bits to_bits
    Tokens.new_checked Tokens.new_unchecked as_u64 Limits.per_second_and_burst
to_5000 = refl

to_6000 :
    ones 1_000 (from_bits 4_617_315_517_961_600_956) ≡ some (from_bits 4_618_441_417_868_443_592)
unfolding ones running consume_turn balance_of zero_time_new all_or_nothing from_bits to_bits
    Tokens.new_checked Tokens.new_unchecked as_u64 Limits.per_second_and_burst
to_6000 = refl

to_7000 :
    ones 1_000 (from_bits 4_618_441_417_868_443_592) ≡ some (from_bits 4_619_567_317_775_286_076)
unfolding ones running consume_turn balance_of zero_time_new all_or_nothing from_bits to_bits
    Tokens.new_checked Tokens.new_unchecked as_u64 Limits.per_second_and_burst
to_7000 = refl

to_8000 :
    ones 1_000 (from_bits 4_619_567_317_775_286_076) ≡ some (from_bits 4_620_693_217_682_128_540)
unfolding ones running consume_turn balance_of zero_time_new all_or_nothing from_bits to_bits
    Tokens.new_checked Tokens.new_unchecked as_u64 Limits.per_second_and_burst
to_8000 = refl

-- What the test ends with.
ends : one_by_one 0 (from_bits 4_620_693_217_682_128_540) ≡ true
unfolding one_by_one running balance_of from_bits Limits.per_second_and_burst
ends = refl

-- One thread's test: 8000 calls on an empty bucket of time 0.
pub alone_passes : one_by_one 8_000 zero_f64 ≡ true
alone_passes =
    (after_ones 1_000 7000 8000 zero_f64 (from_bits 4_607_182_418_800_017_408) (omega arith) to_1000
      (after_ones 1_000 6000 7000 (from_bits 4_607_182_418_800_017_408)
        (from_bits 4_611_686_018_427_387_632) (omega arith) to_2000
        (after_ones 1_000 5000 6000 (from_bits 4_611_686_018_427_387_632)
          (from_bits 4_613_937_818_241_073_016) (omega arith) to_3000
          (after_ones 1_000 4000 5000 (from_bits 4_613_937_818_241_073_016)
            (from_bits 4_616_189_618_054_758_264) (omega arith) to_4000
            (after_ones 1_000 3000 4000 (from_bits 4_616_189_618_054_758_264)
              (from_bits 4_617_315_517_961_600_956) (omega arith) to_5000
              (after_ones 1_000 2000 3000 (from_bits 4_617_315_517_961_600_956)
                (from_bits 4_618_441_417_868_443_592) (omega arith) to_6000
                (after_ones 1_000 1000 2000 (from_bits 4_618_441_417_868_443_592)
                  (from_bits 4_619_567_317_775_286_076) (omega arith) to_7000
                  (after_ones 1_000 0 1000 (from_bits 4_619_567_317_775_286_076)
                    (from_bits 4_620_693_217_682_128_540) (omega arith) to_8000 ends))))))))
