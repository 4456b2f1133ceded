-- ===== src/Base/Words.antt =====
-- Unsigned words: `unsigned long` and `u64` are 64 bits wide, an `int` is a pattern of 32 bits.
use Prim.Native.Nat.{ℕ, ◌+◌, ◌-◌, ◌%◌, ◌^◌, ◌<◌}
use mathlib.Core.Path.{◌≡◌}
use mathlib.Core.Bool.{Bool}
use native.Mathlib.Omega.{arith}
use cmsc421prj.Base.Tests.{ltb}

abbrev pub word : ℕ
word = 2 ^ 64

abbrev pub int_mod : ℕ
int_mod = 2 ^ 32

abbrev pub add64 : ℕ → ℕ → ℕ
add64 a b = (a + b) % word

abbrev pub sub64 : ℕ → ℕ → ℕ
sub64 a b = (a + word - b) % word

-- `(s64)x < 0`
abbrev pub neg64 : ℕ → Bool
neg64 x = ltb (2 ^ 63 - 1) x

abbrev pub inc32 : ℕ → ℕ
inc32 a = (a + 1) % int_mod

abbrev pub dec32 : ℕ → ℕ
dec32 a = (a + (int_mod - 1)) % int_mod

pub dec32-inc32 : (a : ℕ) → a < int_mod → dec32 (inc32 a) ≡ a
dec32-inc32 a h = omega arith
