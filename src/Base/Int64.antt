-- ===== src/Base/Int64.antt =====
-- Go's signed 64-bit integers, as bit patterns below 2 ^ 64: `time.Duration` and `int64`.
use Prim.Native.Nat.{ℕ, ◌+◌, ◌-◌, ◌*◌, ◌/◌, ◌%◌, ◌^◌, ◌<◌}
use mathlib.Core.Path.{◌≡◌}
use mathlib.Core.Bool.{Bool}
use native.Mathlib.Omega.{arith}
use package.ams_push_server.Base.Tests.{ltb, if◌then◌else◌}

-- Two's complement: a pattern from 2 ^ 63 on is negative.
abbrev pub sign_bit : ℕ
sign_bit = 2 ^ 63

abbrev pub modulus : ℕ
modulus = 2 ^ 64

-- a * b, with the wrap-around
unfoldable pub mul : ℕ → ℕ → ℕ
mul a b = (a * b) % modulus

-- a / 2, which rounds towards zero
unfoldable pub half : ℕ → ℕ
half a = if ltb a sign_bit then a / 2 else (modulus - (modulus - a) / 2) % modulus

-- a < b as signed numbers
unfoldable pub slt : ℕ → ℕ → Bool
slt a b = ltb ((a + sign_bit) % modulus) ((b + sign_bit) % modulus)

pub mul-exact : (a b : ℕ) → a * b < modulus → mul a b ≡ a * b
unfolding mul
mul-exact a b h = omega arith

pub half-exact : (a : ℕ) → a < sign_bit → half a ≡ a / 2
unfolding half
half-exact a h = ground arith

-- On numbers that are not negative the signed test is the test on naturals.
pub slt-exact : (a b : ℕ) → a < sign_bit → b < sign_bit → slt a b ≡ ltb a b
unfolding slt
slt-exact a b p q = ground arith
