-- ===== src/Base/Bytes.antt =====
-- Facts about the bits of a byte, each checked at every value of the byte.
use Prim.Native.Nat.{ℕ, zero, suc, ◌+◌, ◌%◌, ◌<◌, bit_and, bit_or}
use mathlib.Core.Path.{◌≡◌, refl}
use mathlib.Core.Bool.{Bool, true, ◌&&◌}
use native.Mathlib.Omega.{arith}
use nabto_embedded_sdk.Base.Tests.{◌==◌, ==_iff}

-- The test passes at every number below the bound.
pub passes : (ℕ → Bool) → ℕ → Bool
passes test zero = true
passes test (suc bound) = passes test bound && test bound

passes_at : (test : ℕ → Bool) (bound x : ℕ) → x < bound → passes test bound ≡ true → test x ≡ true
unfolding passes
passes_at test zero x h e = absurd (omega arith)
passes_at test (suc bound) x h e = ground (arith, passes_at test bound x)

low_six_table : passes (λ x. bit_and x 0x3F == x % 64) 256 ≡ true
unfolding passes
low_six_table = refl

-- `x & 0x3F` is the remainder by 64.
pub bit_and_low_six : (x : ℕ) → x < 256 → bit_and x 0x3F ≡ x % 64
bit_and_low_six x h = (==_iff _ _).0 (passes_at _ 256 x h low_six_table)

or_64_table : passes (λ x. bit_or x 64 == x + 64) 64 ≡ true
unfolding passes
or_64_table = refl

or_128_table : passes (λ x. bit_or x 128 == x + 128) 64 ≡ true
unfolding passes
or_128_table = refl

or_192_table : passes (λ x. bit_or x 192 == x % 64 + 192) 256 ≡ true
unfolding passes
or_192_table = refl

-- A length prefix is joined to six bits by an addition.
pub bit_or_64 : (x : ℕ) → x < 64 → bit_or x 64 ≡ x + 64
bit_or_64 x h = (==_iff _ _).0 (passes_at _ 64 x h or_64_table)

pub bit_or_128 : (x : ℕ) → x < 64 → bit_or x 128 ≡ x + 128
bit_or_128 x h = (==_iff _ _).0 (passes_at _ 64 x h or_128_table)

-- The prefix of two ones covers the two highest bits of the byte.
pub bit_or_192 : (x : ℕ) → x < 256 → bit_or x 192 ≡ x % 64 + 192
bit_or_192 x h = (==_iff _ _).0 (passes_at _ 256 x h or_192_table)
