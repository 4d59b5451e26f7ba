-- ===== src/Common/Words.antt =====
-- Machine words as numbers: the moduli, truncating casts and saturating addition.
-- `saturating_sub` is the truncated `-` of ℕ.
use Prim.Native.Nat.{ℕ, ◌+◌, ◌-◌, ◌%◌, ◌/◌, ◌<◌, ◌≤◌}
use mathlib.Core.Path.{◌≡◌}
use native.Mathlib.Omega.{arith}
use truetop.Common.Tests.{ltb, if◌then◌else◌}

abbrev pub u32_mod : ℕ
u32_mod = 4294967296

abbrev pub u64_mod : ℕ
u64_mod = 18446744073709551616

abbrev pub u32_max : ℕ
u32_max = 4294967295

-- `x as u32`, and the upper half of a 64-bit word.
abbrev pub low_u32 : ℕ → ℕ
low_u32 x = x % 4294967296

abbrev pub high_u32 : ℕ → ℕ
high_u32 x = x / 4294967296

unfoldable pub saturating_add : ℕ → ℕ → ℕ
saturating_add a b = if ltb (a + b) u64_mod then a + b else u64_mod - 1

pub saturating_add_exact : (a b : ℕ) → a + b < u64_mod → saturating_add a b ≡ a + b
unfolding saturating_add
saturating_add_exact a b h = ground arith

pub saturating_add-le : (a b : ℕ) → saturating_add a b ≤ a + b
unfolding saturating_add
saturating_add-le a b = ground arith
