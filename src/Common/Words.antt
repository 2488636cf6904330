-- ===== src/Common/Words.antt =====
-- Unsigned machine words: every addition and subtraction wraps at the width that the source names.
use Prim.Native.Nat.{ℕ, ◌+◌, ◌-◌, ◌%◌, ◌^◌, ◌<◌}
use mathlib.Core.Path.{◌≡◌}
use mathlib.Core.Logic.{◌≢◌}
use native.Mathlib.Omega.{arith}

abbrev pub u32_mod : ℕ
u32_mod = 2 ^ 32

abbrev pub u64_mod : ℕ
u64_mod = 2 ^ 64

abbrev pub add64 : ℕ → ℕ → ℕ
add64 a b = (a + b) % u64_mod

abbrev pub sub64 : ℕ → ℕ → ℕ
sub64 a b = (a + u64_mod - b) % u64_mod

abbrev pub add32 : ℕ → ℕ → ℕ
add32 a b = (a + b) % u32_mod

abbrev pub sub32 : ℕ → ℕ → ℕ
sub32 a b = (a + u32_mod - b) % u32_mod

-- Two positions less than a lap apart fall on different slots of a ring.
pub mod-ne-mod : (a b n : ℕ) → a < b → b - a < n → a % n ≢ b % n
mod-ne-mod a b n h k = grind (arith)

-- A whole lap does not change the slot.
pub mod_lap : (a n : ℕ) → (a + n) % n ≡ a % n
mod_lap a n = grind (arith)
