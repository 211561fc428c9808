-- ===== src/Samples/Strings.antt =====
-- The string builder, the fixed substring and the comparison of characters at concrete inputs.
use librxvm.Prelude.{
  ◌≡◌, refl, ◌+◌, ◌≤◌, ◌↔◌, ◌⊎◌, true, false, [], ◌∷◌, ◌++◌, some, done, List, ℕ, arith, length,
}
use Prim.Native.Nat.{max}
use librxvm.Strb.{Strb, my_utoa}
use librxvm.Strb.Decimal.{value, my_utoa-value}
use librxvm.Lfix.{Lfix, lfix_longest, lfix_current, lfix_to_str}
use librxvm.Lfix.Longest.{IsRange, Event, track, track-IsRange}
use librxvm.Lfix.Longest
use librxvm.Lfix.Text.{Literal, written, meant, lfix_to_str-written}
use librxvm.Vm.{char_match}
use librxvm.Vm.Case.{Shifted, char_match-icase}

-- A builder whose one block is full.
abbrev full : Strb
full = record { size = 2; space = 2; buf = b'a' ∷ b'b' ∷ []; block_size = 2 }

my_utoa-value_example :
    (text : List ℕ) × (my_utoa 4096 20 ≡ some (text, length text))
    × (value 0 text ≡ 4096)
    × (length text ≤ 10)
my_utoa-value_example = my_utoa-value 4096 (omega arith)

-- Three literals have been read, and the longest substring so far has two.
abbrev tracked : Lfix
tracked = record { ltemp0 = 4; ltempn = 6; lfix0 = 0; lfixn = 1; lfixs = true }

tracked-IsRange : IsRange tracked
tracked-IsRange = record {
  temp = omega arith;
  fix = omega arith;
  temp_max = omega arith;
  fix_max = omega arith;
}

track-IsRange_example :
    IsRange (track tracked Longest.break)
    × (lfix_longest tracked ≤ lfix_longest (track tracked Longest.break))
    × (lfix_longest (track tracked Longest.break)
        ≡ max (lfix_longest tracked) (lfix_current tracked))
track-IsRange_example = track-IsRange tracked Longest.break tracked-IsRange (omega arith)

-- a\+ behind x*
abbrev literals : List Literal
literals = (false, b'a') ∷ (true, b'+') ∷ []

lfix_to_str-written_example :
    lfix_to_str ((b'x' ∷ b'*' ∷ []) ++ (written literals ++ [])) 2 (2 + 1) ≡ done (meant literals)
lfix_to_str-written_example =
    lfix_to_str-written (b'x' ∷ b'*' ∷ []) literals [] 1 (omega arith, (omega arith, tt)) refl

abbrev semicolon : ℕ
semicolon = b';'

abbrev bracket : ℕ
bracket = b'['

char_match-icase_example :
    (char_match true semicolon bracket ≡ true)
    ↔ ((semicolon ≡ bracket) ⊎ (Shifted semicolon bracket ⊎ Shifted bracket semicolon))
char_match-icase_example = char_match-icase semicolon bracket
