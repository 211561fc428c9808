-- ===== src/Vm/Case.antt =====
-- Comparing characters without regard to case.
use librxvm.Prelude.{ℕ, ◌+◌, ◌≤◌, ◌<◌, ◌≡◌, ◌⊎◌, ◌↔◌, true, arith}
use librxvm.Vm.{tolower, char_match}

-- The second character is 32 places behind the first, which is at most 'Z', and is itself behind 'Z'.
abbrev pub Shifted : ℕ → ℕ → Type 0
Shifted a b = (a ≤ b'Z') × (b ≡ a + 32) × (b'Z' < b)

-- Without regard to case two characters match exactly when they are equal or one of them, at most
-- 'Z', is 32 places before the other, which is behind 'Z'.
pub char_match-icase :
    (a b : ℕ) → (char_match true a b ≡ true) ↔ ((a ≡ b) ⊎ (Shifted a b ⊎ Shifted b a))
unfolding char_match tolower
char_match-icase a b = ground arith
