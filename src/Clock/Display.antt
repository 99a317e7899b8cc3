-- ===== src/Clock/Display.antt =====
-- The impls of `Debug` and `Display` for `Nanos` of src/clock.rs, which print a `Duration` as the standard
-- library does. A text is the list of its code points.
use gardal.Prelude.{
  ℕ, zero, suc, ◌+◌, ◌/◌, ◌%◌, ◌==◌, leb, ltb, if◌then◌else◌, Option, none, some, List, [], ◌∷◌,
  ◌++◌,
}
use Prim.Native.String.{String}
use Prim.Native.Char.{code}
use gardal.Float.Duration.{Duration, from_secs_f64, nanos_per_sec}
use gardal.Clock.Nanos.{Nanos, as_secs_f64}

abbrev pub codes : String → List ℕ
codes String.[] = []
codes (String.◌∷◌ c s) = code c ∷ codes s

-- The digits of a number before those that are there; a number below 2^64 has at most 20.
unfoldable pub digits : ℕ → ℕ → List ℕ → List ℕ
digits zero n after = after
digits (suc fuel) n after =
    let longer = digits fuel (n / 10) ((b'0' + n % 10) ∷ after) in
    if ltb n 10 then (b'0' + n) ∷ after else longer

abbrev decimal : ℕ → List ℕ
decimal n = digits 20 n []

-- The digits of a fraction, up to the last one that is not 0.
unfoldable pub fraction : ℕ → ℕ → ℕ → List ℕ
fraction zero part divisor = []
fraction (suc fuel) part divisor =
    let rest = fraction fuel (part % divisor) (divisor / 10) in
    if part == 0 then [] else (b'0' + part / divisor) ∷ rest

unfoldable pub fmt_decimal : ℕ → ℕ → ℕ → String → List ℕ
unfolding digits fraction
fmt_decimal integer part divisor unit =
    decimal integer ++ ((if part == 0 then [] else b'.' ∷ fraction 9 part divisor) ++ codes unit)

-- `Debug` for `Duration`: in the largest unit of which there is one.
unfoldable pub fmt_duration : Duration → List ℕ
unfolding fmt_decimal
fmt_duration d =
    let secs = d.nanos / nanos_per_sec in
    let nanos = d.nanos % nanos_per_sec in
    if ltb 0 secs
    then fmt_decimal secs nanos 100_000_000 "s"
    else if leb 1_000_000 nanos
    then fmt_decimal (nanos / 1_000_000) (nanos % 1_000_000) 100_000 "ms"
    else if leb 1_000 nanos
    then fmt_decimal (nanos / 1_000) (nanos % 1_000) 100 "µs"
    else fmt_decimal nanos 0 1 "ns"

-- `Debug` and `Display`; `none` is the panic of `Duration::from_secs_f64`.
unfoldable pub fmt : Nanos → Option (List ℕ)
fmt n = elim (from_secs_f64 (as_secs_f64 n)) [ none ↦ none | some d ↦ some (fmt_duration d) ]
