-- ===== src/Base/Words.antt =====
-- Unsigned machine words of the program, uint32_t and uint64_t, with their wrap-around.
use Prim.Native.Nat.{ℕ, ◌+◌, ◌-◌, ◌*◌, ◌%◌, ◌^◌, ◌<◌, ◌≤◌}
use mathlib.Core.Path.{◌≡◌}
use native.Mathlib.Omega.{arith}

abbrev pub u32_mod : ℕ
u32_mod = 2 ^ 32

abbrev pub u64_mod : ℕ
u64_mod = 2 ^ 64

abbrev pub add64 : ℕ → ℕ → ℕ
add64 a b = (a + b) % u64_mod

-- `-` on the naturals stops at 0, so the modulus is added first.
abbrev pub sub64 : ℕ → ℕ → ℕ
sub64 a b = (a + u64_mod - b) % u64_mod

abbrev pub mul64 : ℕ → ℕ → ℕ
mul64 a b = a * b % u64_mod

abbrev pub mul32 : ℕ → ℕ → ℕ
mul32 a b = a * b % u32_mod

abbrev pub sub32 : ℕ → ℕ → ℕ
sub32 a b = (a + u32_mod - b) % u32_mod

abbrev pub add32 : ℕ → ℕ → ℕ
add32 a b = (a + b) % u32_mod

pub add32_lem : (a b : ℕ) → a + b < u32_mod → add32 a b ≡ a + b
add32_lem a b h = omega arith

pub add64_lem : (a b : ℕ) → a + b < u64_mod → add64 a b ≡ a + b
add64_lem a b h = omega arith

pub sub64_lem : (a b : ℕ) → b ≤ a → a < u64_mod → sub64 a b ≡ a - b
sub64_lem a b h k = omega arith

pub mul64_lem : (a b : ℕ) → a * b < u64_mod → mul64 a b ≡ a * b
mul64_lem a b h = omega arith

pub mul32_lem : (a b : ℕ) → a * b < u32_mod → mul32 a b ≡ a * b
mul32_lem a b h = omega arith
