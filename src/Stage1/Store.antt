-- ===== src/Stage1/Store.antt =====
-- The invariant of the lists of the first stage, and what writing one of them keeps.
use librxvm.Prelude.{
  ℕ, zero, suc, ◌+◌, ◌≤◌, ◌<◌, ◌≡◌, ◌≢◌, refl, ap, ◌⊎◌, true, List, [], ◌∷◌, ◌++◌, none, some,
  Option, arith, length, get_or, set,
}
use librxvm.Stack.{IrStack, create_stack}
use librxvm.Token.{Token}
use librxvm.Vmcode.Keeps.{IsCode}
use librxvm.Stage1.Context.{group, base, parens_head, free_head, is_rparen}
use librxvm.Stage1.Plain.{IsPlain}

abbrev pub at : List IrStack → ℕ → IrStack
at store i = get_or store i create_stack

-- A property of the list at `j` after a write at `i`.
pub at-set :
    (P : IrStack → Type 0) (store : List IrStack) (i : ℕ) (s : IrStack) (j : ℕ)
    → (i ≡ j → P s)
    → P (at store j)
    → P (at (set store i s) j)
at-set P [] i s j h g = g
at-set P (x ∷ store) zero s zero h g = h refl
at-set P (x ∷ store) zero s (suc j) h g = g
at-set P (x ∷ store) (suc i) s zero h g = g
at-set P (x ∷ store) (suc i) s (suc j) h g = at-set P store i s j (λ e. h (ap suc e)) g

pub at-set-same :
    (store : List IrStack) (i : ℕ) (s : IrStack) → i < length store → at (set store i s) i ≡ s
at-set-same [] i s lt = absurd (omega arith)
at-set-same (x ∷ store) zero s lt = refl
at-set-same (x ∷ store) (suc i) s lt = at-set-same store i s (omega arith)

-- A fresh list is what stands at an index that is not in use.
pub at-append : (store : List IrStack) (j : ℕ) → at (store ++ create_stack ∷ []) j ≡ at store j
at-append [] zero = refl
at-append [] (suc j) = refl
at-append (x ∷ store) zero = refl
at-append (x ∷ store) (suc j) = at-append store j

-- The open parentheses are the shared buffer's with lists made later and later in front of it.
abbrev pub IsParens : ℕ → List ℕ → Type 0
IsParens n [] = ⊥
IsParens n (g ∷ []) = (g ≡ base) × (g < n)
IsParens n (g ∷ h ∷ rest) = (g < n) × IsParens g (h ∷ rest)

pub group-base : (parens : List ℕ) → group parens ≢ base
group-base [] = λ e. omega arith
group-base (g ∷ rest) = ground arith

pub IsParens-le : (n m : ℕ) (parens : List ℕ) → n ≤ m → IsParens n parens → IsParens m parens
IsParens-le n m [] le h = h
IsParens-le n m (g ∷ []) le h = (h.0, omega arith)
IsParens-le n m (g ∷ k ∷ rest) le h = (omega arith, h.1)

pub IsParens-below : (n : ℕ) (parens : List ℕ) → IsParens n parens → parens_head parens < n
IsParens-below n [] h = elim h [ ]
IsParens-below n (g ∷ []) h = h.1
IsParens-below n (g ∷ k ∷ rest) h = h.0

pub IsParens-base : (n : ℕ) (parens : List ℕ) → IsParens n parens → base ≤ parens_head parens
IsParens-base n [] h = elim h [ ]
IsParens-base n (g ∷ []) h = omega arith
IsParens-base n (g ∷ k ∷ rest) h =
    omega (arith, IsParens-base g (k ∷ rest) h.1, IsParens-below g (k ∷ rest) h.1)

pub IsParens-free :
    (n : ℕ) (parens : List ℕ)
    → base < parens_head parens
    → IsParens n parens
    → IsParens n (free_head parens)
IsParens-free n [] lt h = h
IsParens-free n (g ∷ []) lt h = absurd (omega (arith, h.0))
IsParens-free n (g ∷ k ∷ rest) lt h = IsParens-le g n (k ∷ rest) (omega arith) h.1

-- The list behind the innermost parenthesis was made before it.
pub group-free :
    (n : ℕ) (parens : List ℕ)
    → base < parens_head parens
    → IsParens n parens
    → group (free_head parens) < parens_head parens
group-free n [] lt h = elim h [ ]
group-free n (g ∷ []) lt h = omega arith
group-free n (g ∷ k ∷ rest) lt h = ground (arith, IsParens-below g (k ∷ rest) h.1)

pub IsParens-push : (n : ℕ) (parens : List ℕ) → IsParens n parens → IsParens (n + 1) (n ∷ parens)
IsParens-push n [] h = elim h [ ]
IsParens-push n (g ∷ []) h = (omega arith, h)
IsParens-push n (g ∷ k ∷ rest) h = (omega arith, h)

-- A parenthesis was closed and its list is still at hand: code goes to the list behind it.
pub record IsShut (store : List IrStack) (parens : List ℕ) (target : ℕ) : Type 0 where
  pub deep : base < parens_head parens
  pub behind : target ≡ group (free_head parens)
  pub head_done : (at store (parens_head parens)).dangling_alt ≡ none

-- Every list is closed code, and the buffers have no open jump, so that emptying one loses none.
pub record IsStore (store : List IrStack) (parens : List ℕ) (target buf : ℕ) : Type 0 where
  pub codes : (i : ℕ) → IsCode (at store i)
  pub open_parens : IsParens (length store) parens
  pub base_plain : IsPlain (at store base).items
  pub base_done : (at store base).dangling_alt ≡ none
  pub buf_done : (at store buf).dangling_alt ≡ none
  pub buf_below : buf < length store
  pub apart : buf ≢ target
  pub place : (target ≡ group parens) ⊎ IsShut store parens target

-- What holds behind a token: the operand is all of a parenthesis just closed, or the buffer has no
-- jumps.
pub record IsBehind (tok : Token) (store : List IrStack) (parens : List ℕ) (target buf : ℕ)
    (operand : Option (ℕ × ℕ)) : Type 0 where
  pub shut : is_rparen tok ≡ true → IsShut store parens target × (buf ≡ parens_head parens)
  pub whole : IsPlain (at store buf).items ⊎ ((is_rparen tok ≡ true) × (operand ≡ some (buf, 0)))
