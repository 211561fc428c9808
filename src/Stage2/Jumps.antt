-- ===== src/Stage2/Jumps.antt =====
-- Programs whose jumps all lead forward, and setting the target of a jump in one.
use librxvm.Prelude.{
  ℕ, zero, suc, ◌<◌, ◌≡◌, ◌≢◌, refl, sym, ◌∙◌, ap, ◌⊎◌, inl, inr, [], ◌∷◌, some, arith, length,
  get_elem?, some_inj,
}
use librxvm.Prelude.Int.{ℤ, pos}
use librxvm.Inst.{jmp, Inst, Program}
use librxvm.Vm.Spec.{IsWellFormed}
use librxvm.Vmcode.{set_x}

-- A jump at `i` that leads to `j`.
pub record JmpTo (exe : Program) (i j : ℕ) : Type 0 where
  pub inst : Inst
  pub found : get_elem? exe i ≡ some inst
  pub jumps : inst.op ≡ jmp
  pub target : inst.x ≡ pos j

-- From `i` only jumps are run until `j`.
pub data Jumps (exe : Program) : ℕ → ℕ → Type 0 where
  last : {i j : ℕ} → JmpTo exe i j → Jumps exe i j
  more : {i j k : ℕ} → JmpTo exe i j → Jumps exe j k → Jumps exe i k

-- Each jump leads forward, inside the program.
pub record IsForward (exe : Program) : Type 0 where
  pub formed : IsWellFormed exe
  pub ahead :
      (i : ℕ) (inst : Inst)
      → get_elem? exe i ≡ some inst
      → inst.op ≡ jmp
      → (j : ℕ) × (inst.x ≡ pos j) × (i < j) × (j < length exe)

pub JmpTo-lt :
    (exe : Program) (i j : ℕ) → IsForward exe → JmpTo exe i j → (i < j) × (j < length exe)
JmpTo-lt exe i j f t =
    let (k, e, lt, below) = f.ahead i t.inst t.found t.jumps in
    let same : pos k ≡ pos j = sym e ∙ t.target in ground arith

pub Jumps-lt :
    {exe : Program} {i j : ℕ} → IsForward exe → Jumps exe i j → (i < j) × (j < length exe)
Jumps-lt {exe} {i} {j} f (last t) = JmpTo-lt exe i j f t
Jumps-lt {exe} {i} {j} f (more {j = k} t r) =
    let (lt, below) = JmpTo-lt exe i k f t in
    let (lt', below') = Jumps-lt f r in (omega arith, below')

pub Jumps-append : {exe : Program} {i j k : ℕ} → Jumps exe i j → Jumps exe j k → Jumps exe i k
Jumps-append (last t) r = more t r
Jumps-append (more t q) r = more t (Jumps-append q r)

-- Where an instruction of the changed program comes from.
abbrev pub Was : Program → ℕ → ℤ → ℕ → Inst → Type 0
Was exe k x i inst =
    ((i ≢ k) × (get_elem? exe i ≡ some inst))
    ⊎ ((i ≡ k) × ((old : Inst) × (get_elem? exe i ≡ some old) × (inst ≡ record old { x = x })))

pub set_x-Was :
    (exe : Program) (k : ℕ) (x : ℤ) (i : ℕ) (inst : Inst)
    → get_elem? (set_x exe k x) i ≡ some inst
    → Was exe k x i inst
set_x-Was [] k x i inst e = absurd (grind arith)
set_x-Was (y ∷ exe) zero x zero inst e = inr (refl, (y, refl, sym (some_inj e)))
set_x-Was (y ∷ exe) zero x (suc i) inst e = inl (λ z. omega (arith, z), e)
set_x-Was (y ∷ exe) (suc k) x zero inst e = inl (λ z. omega (arith, z), e)
set_x-Was (y ∷ exe) (suc k) x (suc i) inst e = elim (set_x-Was exe k x i inst e) [
  | inl (ne, f) ↦ inl (λ z. ne (omega (arith, z)), f)
  | inr (eq, (o, f, g)) ↦ inr (ap suc eq, (o, f, g))
]

pub set_x-same :
    (exe : Program) (k : ℕ) (x : ℤ) (old : Inst)
    → get_elem? exe k ≡ some old
    → get_elem? (set_x exe k x) k ≡ some (record old { x = x })
set_x-same [] k x old e = absurd (grind arith)
set_x-same (y ∷ exe) zero x old e = ap (λ (v : Inst). some (record v { x = x })) (some_inj e)
set_x-same (y ∷ exe) (suc k) x old e = set_x-same exe k x old e

pub set_x-other :
    (exe : Program) (k : ℕ) (x : ℤ) (i : ℕ) → i ≢ k → get_elem? (set_x exe k x) i ≡ get_elem? exe i
set_x-other [] k x i ne = refl
set_x-other (y ∷ exe) zero x zero ne = absurd (ne refl)
set_x-other (y ∷ exe) zero x (suc i) ne = refl
set_x-other (y ∷ exe) (suc k) x zero ne = refl
set_x-other (y ∷ exe) (suc k) x (suc i) ne = set_x-other exe k x i (λ z. ne (ap suc z))
