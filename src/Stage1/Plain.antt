-- ===== src/Stage1/Plain.antt =====
-- Code with no jumps in it, which any part of is closed: what the shared buffer holds.
use librxvm.Prelude.{ℕ, zero, suc, ◌+◌, ◌-◌, ◌≡◌, List, [], ◌∷◌, ◌++◌, arith, length, take, drop}
use librxvm.Inst.{Op, char, any, class, nclass, branch, jmp, sol, eol, match, Inst}
use librxvm.Vm.Spec.{HasClass}
use librxvm.Vmcode.Ahead.{AheadOf, AllAhead}
use librxvm.Vmcode.Closed.{LandsOf, AllLand, IsClosed}

abbrev pub PlainOf : Inst → Op → Type 0
PlainOf inst branch = ⊥
PlainOf inst jmp = ⊥
PlainOf inst match = ⊥
PlainOf inst class = HasClass inst
PlainOf inst nclass = HasClass inst
PlainOf inst _ = Unit {0}

abbrev pub IsPlain : List Inst → Type 0
IsPlain [] = Unit {0}
IsPlain (inst ∷ l) = PlainOf inst inst.op × IsPlain l

PlainOf-LandsOf : (n k : ℕ) (inst : Inst) (op : Op) → PlainOf inst op → LandsOf n k inst op
PlainOf-LandsOf n k inst class h = h
PlainOf-LandsOf n k inst nclass h = h
PlainOf-LandsOf n k inst char h = tt
PlainOf-LandsOf n k inst any h = tt
PlainOf-LandsOf n k inst sol h = tt
PlainOf-LandsOf n k inst eol h = tt
PlainOf-LandsOf n k inst branch h = elim h [ ]
PlainOf-LandsOf n k inst jmp h = elim h [ ]
PlainOf-LandsOf n k inst match h = elim h [ ]

IsPlain-AllLand : (n k : ℕ) (l : List Inst) → IsPlain l → AllLand n k l
IsPlain-AllLand n k [] h = tt
IsPlain-AllLand n k (inst ∷ l) h =
    (PlainOf-LandsOf n k inst inst.op h.0, IsPlain-AllLand n (k + 1) l h.1)

PlainOf-AheadOf : (inst : Inst) (op : Op) → PlainOf inst op → AheadOf inst op
PlainOf-AheadOf inst jmp h = elim h [ ]
PlainOf-AheadOf inst branch h = tt
PlainOf-AheadOf inst match h = tt
PlainOf-AheadOf inst class h = tt
PlainOf-AheadOf inst nclass h = tt
PlainOf-AheadOf inst char h = tt
PlainOf-AheadOf inst any h = tt
PlainOf-AheadOf inst sol h = tt
PlainOf-AheadOf inst eol h = tt

IsPlain-AllAhead : (l : List Inst) → IsPlain l → AllAhead l
IsPlain-AllAhead [] h = tt
IsPlain-AllAhead (inst ∷ l) h = (PlainOf-AheadOf inst inst.op h.0, IsPlain-AllAhead l h.1)

pub IsPlain-IsClosed : (l : List Inst) → IsPlain l → IsClosed l
IsPlain-IsClosed l h = (IsPlain-AllLand (length l) 0 l h, IsPlain-AllAhead l h)

pub IsPlain-append : (l r : List Inst) → IsPlain l → IsPlain r → IsPlain (l ++ r)
IsPlain-append [] r h g = g
IsPlain-append (x ∷ l) r h g = (h.0, IsPlain-append l r h.1 g)

pub IsPlain-take : (k : ℕ) (l : List Inst) → IsPlain l → IsPlain (take k l)
IsPlain-take zero l h = tt
IsPlain-take (suc k) [] h = tt
IsPlain-take (suc k) (x ∷ l) h = (h.0, IsPlain-take k l h.1)

pub IsPlain-drop : (k : ℕ) (l : List Inst) → IsPlain l → IsPlain (drop k l)
IsPlain-drop zero l h = h
IsPlain-drop (suc k) [] h = tt
IsPlain-drop (suc k) (x ∷ l) h = IsPlain-drop k l h.1

pub length-take-drop : (k : ℕ) (l : List Inst) → length l - length (take k l) ≡ length (drop k l)
length-take-drop zero l = omega arith
length-take-drop (suc k) [] = omega arith
length-take-drop (suc k) (x ∷ l) = omega (arith, length-take-drop k l)
