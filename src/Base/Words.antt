-- ===== src/Base/Words.antt =====
-- Machine words. A `uint32_t`, and an `int` of 32 bits, is its bit pattern, a number below 2 ^ 32;
-- a `uint64_t` or a `size_t` is a number below 2 ^ 64.
use Prim.Native.Nat.{ℕ, ◌+◌, ◌-◌, ◌*◌, ◌%◌, ◌^◌}
use mathlib.Core.Bool.{Bool}
use leak_detector.Base.Tests.{ltb}

abbrev pub u32_mod : ℕ
u32_mod = 2 ^ 32

abbrev pub u64_mod : ℕ
u64_mod = 2 ^ 64

abbrev pub add32 : ℕ → ℕ → ℕ
add32 a b = (a + b) % u32_mod

-- `-` on ℕ is truncated, so the modulus is added first.
abbrev pub sub32 : ℕ → ℕ → ℕ
sub32 a b = (a + u32_mod - b) % u32_mod

abbrev pub mul32 : ℕ → ℕ → ℕ
mul32 a b = (a * b) % u32_mod

abbrev pub add64 : ℕ → ℕ → ℕ
add64 a b = (a + b) % u64_mod

abbrev pub sub64 : ℕ → ℕ → ℕ
sub64 a b = (a + u64_mod - b) % u64_mod

-- The signed order of two patterns is the order of the patterns shifted by 2 ^ 31.
abbrev pub signed_rank : ℕ → ℕ
signed_rank w = (w + 2 ^ 31) % u32_mod

-- `a < b` at type `int`.
abbrev pub int_lt : ℕ → ℕ → Bool
int_lt a b = ltb (signed_rank a) (signed_rank b)
