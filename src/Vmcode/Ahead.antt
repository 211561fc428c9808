-- ===== src/Vmcode/Ahead.antt =====
-- Jumps that lead forward, but for the open jump of an alternation.
use librxvm.Prelude.{
  ℕ, zero, suc, ◌≡◌, refl, ◌⊎◌, inl, inr, List, [], ◌∷◌, ◌++◌, Option, none, some, arith, length,
  some_inj,
}
use librxvm.Prelude.Int.{ℤ, pos, negsuc}
use librxvm.Inst.{Op, char, any, class, nclass, branch, jmp, sol, eol, match, Inst}
use librxvm.Vmcode.{set_x}

abbrev pub IsAhead : ℤ → Type 0
IsAhead (pos zero) = ⊥
IsAhead (pos (suc d)) = Unit {0}
IsAhead (negsuc d) = ⊥

abbrev pub AheadOf : Inst → Op → Type 0
AheadOf inst jmp = IsAhead inst.x
AheadOf inst _ = Unit {0}

abbrev pub AllAhead : List Inst → Type 0
AllAhead [] = Unit {0}
AllAhead (inst ∷ l) = AheadOf inst inst.op × AllAhead l

abbrev pub before : Option ℕ → Option ℕ
before none = none
before (some zero) = none
before (some (suc i)) = some i

-- All but the one at the index given.
abbrev pub AheadBut : Option ℕ → List Inst → Type 0
AheadBut o [] = Unit {0}
AheadBut o (inst ∷ l) = ((o ≡ some 0) ⊎ AheadOf inst inst.op) × AheadBut (before o) l

pub AllAhead-But : (o : Option ℕ) (l : List Inst) → AllAhead l → AheadBut o l
AllAhead-But o [] h = tt
AllAhead-But o (inst ∷ l) h = (inr h.0, AllAhead-But (before o) l h.1)

pub But-AllAhead : (l : List Inst) → AheadBut none l → AllAhead l
But-AllAhead [] h = tt
But-AllAhead (inst ∷ l) h =
    (elim h.0 [ inl e ↦ absurd (grind arith) | inr a ↦ a ], But-AllAhead l h.1)

pub AllAhead-append : (l r : List Inst) → AllAhead l → AllAhead r → AllAhead (l ++ r)
AllAhead-append [] r h g = g
AllAhead-append (x ∷ l) r h g = (h.0, AllAhead-append l r h.1 g)

pub AheadBut-append :
    (o : Option ℕ) (l r : List Inst) → AheadBut o l → AllAhead r → AheadBut o (l ++ r)
AheadBut-append o [] r h g = AllAhead-But o r g
AheadBut-append o (x ∷ l) r h g = (h.0, AheadBut-append (before o) l r h.1 g)

-- A new open jump behind code with none.
pub AheadBut-last :
    (l : List Inst) (inst : Inst) → AllAhead l → AheadBut (some (length l)) (l ++ inst ∷ [])
AheadBut-last [] inst h = (inl refl, tt)
AheadBut-last (x ∷ l) inst h = (inr h.0, AheadBut-last l inst h.1)

set-AheadOf : (inst : Inst) (op : Op) (x : ℤ) → IsAhead x → AheadOf (record inst { x = x }) op
set-AheadOf inst jmp x a = a
set-AheadOf inst char x a = tt
set-AheadOf inst any x a = tt
set-AheadOf inst class x a = tt
set-AheadOf inst nclass x a = tt
set-AheadOf inst branch x a = tt
set-AheadOf inst sol x a = tt
set-AheadOf inst eol x a = tt
set-AheadOf inst match x a = tt

-- The open jump is set.
pub set_x-AllAhead :
    (l : List Inst) (i : ℕ) (x : ℤ) → AheadBut (some i) l → IsAhead x → AllAhead (set_x l i x)
set_x-AllAhead [] i x h a = tt
set_x-AllAhead (inst ∷ l) zero x h a = (set-AheadOf inst inst.op x a, But-AllAhead l h.1)
set_x-AllAhead (inst ∷ l) (suc i) x h a = (
  elim h.0 [ inl e ↦ absurd (grind (arith, some_inj e)) | inr b ↦ b ],
  set_x-AllAhead l i x h.1 a,
)
