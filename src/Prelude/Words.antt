-- ===== src/Prelude/Words.antt =====
-- Sums and differences of 32-bit unsigned numbers, as the `unsigned int` of the source.
use librxvm.Prelude.{ℕ, ◌+◌, ◌-◌, ◌%◌, ◌^◌, ◌≤◌, ◌<◌, ◌≡◌, arith}

unfoldable pub add32 : ℕ → ℕ → ℕ
add32 a b = (a + b) % 2 ^ 32

unfoldable pub sub32 : ℕ → ℕ → ℕ
sub32 a b = (a + 2 ^ 32 - b) % 2 ^ 32

pub add32-fits : (a b : ℕ) → a + b < 2 ^ 32 → add32 a b ≡ a + b
unfolding add32
add32-fits a b h = omega arith

pub sub32-fits : (a b : ℕ) → b ≤ a → a < 2 ^ 32 → sub32 a b ≡ a - b
unfolding sub32
sub32-fits a b le h = omega arith

pub sub32-zero : sub32 0 1 ≡ 2 ^ 32 - 1
unfolding sub32
sub32-zero = omega arith
