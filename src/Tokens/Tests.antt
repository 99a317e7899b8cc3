-- ===== src/Tokens/Tests.antt =====
-- Tokens at concrete numbers.
use gardal.Prelude.{◌≡◌, arith}
use gardal.Tokens
use gardal.Tokens.{as_u64}
use gardal.Tokens.RoundTrip.{as_u64-new}

as_u64-new_example : as_u64 (Tokens.new 4_294_967_295) ≡ 4_294_967_295
as_u64-new_example = as_u64-new 4_294_967_295 (omega arith)
