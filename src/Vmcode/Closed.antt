-- ===== src/Vmcode/Closed.antt =====
-- Code that stands by itself: every relative jump lands inside the code or right behind it, and those
-- that do not branch lead forward.
use librxvm.Prelude.{ℕ, ◌+◌, ◌≤◌, ◌≡◌, List, [], ◌∷◌, ◌++◌, arith, length, length-append}
use mathlib.Core.Path.{subst}
use librxvm.Prelude.Int.{ℤ, pos, negsuc}
use librxvm.Inst.{Op, char, any, class, nclass, branch, jmp, sol, eol, match, Inst}
use librxvm.Vm.Spec.{HasClass}
use librxvm.Vmcode.Ahead.{AllAhead, AllAhead-append}

-- From index `k` a jump by `z` lands among `n` instructions, or behind the last.
abbrev pub Lands : ℕ → ℕ → ℤ → Type 0
Lands n k (pos d) = k + d ≤ n
Lands n k (negsuc d) = d + 1 ≤ k

abbrev pub LandsOf : ℕ → ℕ → Inst → Op → Type 0
LandsOf n k inst branch = Lands n k inst.x × Lands n k inst.y
LandsOf n k inst jmp = Lands n k inst.x
LandsOf n k inst class = HasClass inst
LandsOf n k inst nclass = HasClass inst
LandsOf n k inst match = ⊥
LandsOf n k inst _ = Unit {0}

-- The instructions of `l`, from index `k` of a code of `n` instructions on.
abbrev pub AllLand : ℕ → ℕ → List Inst → Type 0
AllLand n k [] = Unit {0}
AllLand n k (inst ∷ l) = LandsOf n k inst inst.op × AllLand n (k + 1) l

abbrev pub IsClosed : List Inst → Type 0
IsClosed l = AllLand (length l) 0 l × AllAhead l

-- The code is put behind `a` instructions, and others follow.
Lands-shift : (n k m j a : ℕ) (z : ℤ) → k + a ≡ j → n + a ≤ m → Lands n k z → Lands m j z
Lands-shift n k m j a (pos d) e le h = omega arith
Lands-shift n k m j a (negsuc d) e le h = omega arith

LandsOf-shift :
    (n k m j a : ℕ) (inst : Inst) (op : Op)
    → k + a ≡ j
    → n + a ≤ m
    → LandsOf n k inst op
    → LandsOf m j inst op
LandsOf-shift n k m j a inst branch e le h =
    (Lands-shift n k m j a inst.x e le h.0, Lands-shift n k m j a inst.y e le h.1)
LandsOf-shift n k m j a inst jmp e le h = Lands-shift n k m j a inst.x e le h
LandsOf-shift n k m j a inst class e le h = h
LandsOf-shift n k m j a inst nclass e le h = h
LandsOf-shift n k m j a inst match e le h = h
LandsOf-shift n k m j a inst char e le h = tt
LandsOf-shift n k m j a inst any e le h = tt
LandsOf-shift n k m j a inst sol e le h = tt
LandsOf-shift n k m j a inst eol e le h = tt

pub AllLand-shift :
    (n k m j a : ℕ) (l : List Inst) → k + a ≡ j → n + a ≤ m → AllLand n k l → AllLand m j l
AllLand-shift n k m j a [] e le h = tt
AllLand-shift n k m j a (inst ∷ l) e le h = (
  LandsOf-shift n k m j a inst inst.op e le h.0,
  AllLand-shift n (k + 1) m (j + 1) a l (omega arith) le h.1,
)

pub AllLand-append :
    (n k j : ℕ) (xs ys : List Inst)
    → k + length xs ≡ j
    → AllLand n k xs
    → AllLand n j ys
    → AllLand n k (xs ++ ys)
AllLand-append n k j [] ys e h g = let e' : j ≡ k = omega arith in subst (λ v. AllLand n v ys) e' g
AllLand-append n k j (x ∷ xs) ys e h g = (h.0, AllLand-append n (k + 1) j xs ys (omega arith) h.1 g)

-- Two codes in a row.
pub lands-append :
    (xs ys : List Inst)
    → AllLand (length xs) 0 xs
    → AllLand (length ys) 0 ys
    → AllLand (length (xs ++ ys)) 0 (xs ++ ys)
lands-append xs ys h g =
    AllLand-append (length (xs ++ ys)) 0 (length xs) xs ys (omega arith)
      (AllLand-shift (length xs) 0 (length (xs ++ ys)) 0 0 xs (omega arith)
        (omega (arith, length-append xs ys)) h)
      (AllLand-shift (length ys) 0 (length (xs ++ ys)) (length xs) (length xs) ys (omega arith)
        (omega (arith, length-append xs ys)) g)

pub IsClosed-append : (xs ys : List Inst) → IsClosed xs → IsClosed ys → IsClosed (xs ++ ys)
IsClosed-append xs ys h g = (lands-append xs ys h.0 g.0, AllAhead-append xs ys h.1 g.1)
