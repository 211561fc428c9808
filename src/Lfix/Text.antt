-- ===== src/Lfix/Text.antt =====
-- Reading a fixed substring back out of an expression with escapes.
use librxvm.Prelude.{
  ℕ, suc, ◌+◌, ◌-◌, drop, ◌≡◌, ◌≢◌, refl, Bool, true, false, List, [], ◌∷◌, ◌++◌, done, arith,
  length, append_assoc,
}
use librxvm.Lfix.{copy_fixed, lfix_to_str}

-- A literal of an expression: a character, and whether a backslash stands before it.
abbrev pub Literal : Type 0
Literal = Bool × ℕ

-- The expression that the literals make up.
abbrev pub written : List Literal → List ℕ
written [] = []
written ((true, c) ∷ ls) = b'\\' ∷ c ∷ written ls
written ((false, c) ∷ ls) = c ∷ written ls

abbrev pub meant : List Literal → List ℕ
meant [] = []
meant ((e, c) ∷ ls) = c ∷ meant ls

abbrev pub NoBackslash : List Literal → Type 0
NoBackslash [] = Unit {0}
NoBackslash ((e, c) ∷ ls) = (c ≢ b'\\') × NoBackslash ls

copy_fixed-written :
    (ls : List Literal) (rest : List ℕ)
    → NoBackslash ls
    → copy_fixed (written ls ++ rest) (length ls) ≡ done (meant ls)
unfolding copy_fixed
copy_fixed-written [] rest h = refl
copy_fixed-written ((true, c) ∷ ls) rest h = ground (arith, copy_fixed-written ls rest h.1)
copy_fixed-written ((false, c) ∷ ls) rest h = ground (arith, copy_fixed-written ls rest h.1)

drop-append : (pre l : List ℕ) → drop (length pre) (pre ++ l) ≡ l
drop-append [] l = refl
drop-append (x ∷ pre) l = drop-append pre l

-- At literals none of which is a backslash itself the text written is what they mean, whatever
-- stands before and behind them in the expression; `lfixn` is the index of the last literal, with
-- escapes not counted.
pub lfix_to_str-written :
    (pre : List ℕ) (ls : List Literal) (rest : List ℕ) (n : ℕ)
    → NoBackslash ls
    → length ls ≡ suc n
    → lfix_to_str (pre ++ (written ls ++ rest)) (length pre) (length pre + n) ≡ done (meant ls)
unfolding lfix_to_str
lfix_to_str-written pre ls rest n h e =
    let rounds : length pre + n + 1 - length pre ≡ length ls = omega arith in
    rw
      (
        append_assoc pre (written ls ++ rest) (0 ∷ []),
        drop-append pre ((written ls ++ rest) ++ 0 ∷ []),
        append_assoc (written ls) rest (0 ∷ []),
        rounds,
      )
      (copy_fixed-written ls (rest ++ 0 ∷ []) h)

-- An escaped backslash is lost: it is taken for an escape.
pub copy_fixed-backslash :
    (rest : List ℕ) (n : ℕ)
    → copy_fixed (written ((true, b'\\') ∷ []) ++ rest) (suc n) ≡ copy_fixed rest (suc n)
unfolding copy_fixed
copy_fixed-backslash rest n = refl
