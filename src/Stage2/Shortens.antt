-- ===== src/Stage2/Shortens.antt =====
-- Setting a jump to an index that jumps lead to from it, librxvm/stage2.c: the program stays
-- well-formed, its jumps lead forward, and jumps still lead where they led.
use librxvm.Prelude.{
  ℕ, ◌<◌, ◌≡◌, ◌≢◌, refl, sym, ◌∙◌, ap, ◌⊎◌, inl, inr, some, arith, length, get_elem?, some_inj,
  ◌==◌, Bool-cases,
}
use mathlib.Core.Path.{subst}
use librxvm.Prelude.Int.{pos}
use librxvm.Inst.{Op, jmp, Inst, Program}
use librxvm.Vm.Spec.{Fits}
use librxvm.Vmcode.{set_x}
use librxvm.Vmcode.Alt.{length-set_x}
use librxvm.Stage2.Jumps.{
  JmpTo, Jumps, last, more, IsForward, Jumps-lt, set_x-Was, set_x-same, set_x-other,
}

pub Jumps-start :
    (exe : Program) (k e : ℕ)
    → Jumps exe k e
    → (inst : Inst) × (get_elem? exe k ≡ some inst) × (inst.op ≡ jmp)
Jumps-start exe k e (last t) = (t.inst, t.found, t.jumps)
Jumps-start exe k e (more t r) = (t.inst, t.found, t.jumps)

-- The jump itself, once it is set.
pub set_x-JmpTo : (exe : Program) (k e : ℕ) → Jumps exe k e → JmpTo (set_x exe k (pos e)) k e
set_x-JmpTo exe k e p =
    let (inst, f, o) = Jumps-start exe k e p in
    record {
      inst = record inst { x = pos e };
      found = set_x-same exe k (pos e) inst f;
      jumps = o;
      target = refl;
    }

JmpTo-other :
    (exe : Program) (k e i j : ℕ) → i ≢ k → JmpTo exe i j → JmpTo (set_x exe k (pos e)) i j
JmpTo-other exe k e i j ne t = record {
  inst = t.inst;
  found = set_x-other exe k (pos e) i ne ∙ t.found;
  jumps = t.jumps;
  target = t.target;
}

pub ℕ-cases : (i k : ℕ) → (i ≡ k) ⊎ (i ≢ k)
ℕ-cases i k = elim (Bool-cases (i == k)) [
  | inl h ↦ inl (ground arith)
  | inr h ↦ inr (λ z. grind arith)
]

-- Jumps that lead to the same index still do.
pub set_x-Jumps :
    {exe : Program} {k e i : ℕ} → Jumps exe k e → Jumps exe i e → Jumps (set_x exe k (pos e)) i e
set_x-Jumps {exe} {k} {e} {i} p (last t) = elim (ℕ-cases i k) [
  | inl eq ↦ last (subst (λ v. JmpTo (set_x exe k (pos e)) v e) (sym eq) (set_x-JmpTo exe k e p))
  | inr ne ↦ last (JmpTo-other exe k e i e ne t)
]
set_x-Jumps {exe} {k} {e} {i} p (more {j = j} t r) = elim (ℕ-cases i k) [
  | inl eq ↦ last (subst (λ v. JmpTo (set_x exe k (pos e)) v e) (sym eq) (set_x-JmpTo exe k e p))
  | inr ne ↦ more (JmpTo-other exe k e i j ne t) (set_x-Jumps p r)
]

jmp-Fits :
    (n i e : ℕ) (inst : Inst) (op : Op) → op ≡ jmp → e < n → Fits n i (record inst { x = pos e }) op
jmp-Fits n i e inst op o lt = rw o lt

pub set_x-IsForward :
    (exe : Program) (k e : ℕ) → IsForward exe → Jumps exe k e → IsForward (set_x exe k (pos e))
set_x-IsForward exe k e f p =
    let len : length (set_x exe k (pos e)) ≡ length exe = length-set_x exe k (pos e) in
    let (from, g, o) = Jumps-start exe k e p in
    let (lt, below) = Jumps-lt f p in
    record {
      formed = record {
        entry = omega (arith, f.formed.entry);
        fits = λ i inst h. rw len (elim (set_x-Was exe k (pos e) i inst h) [
          | inl (ne, q) ↦ f.formed.fits i inst q
          | inr (eq, (old, q, r)) ↦
              let same : from ≡ old = some_inj (sym g ∙ ap (get_elem? exe) (sym eq) ∙ q) in
              rw r (jmp-Fits (length exe) i e old old.op (ap (λ v. v.op) (sym same) ∙ o) below)
        ]);
      };
      ahead = λ i inst h op. rw len (elim (set_x-Was exe k (pos e) i inst h) [
        | inl (ne, q) ↦ f.ahead i inst q op
        | inr (eq, (old, q, r)) ↦ (e, ap (λ v. v.x) r, omega (arith, eq, lt), below)
      ]);
    }

-- A program got from another by such changes.
pub data Shortens : Program → Program → Type 0 where
  same : {exe : Program} → Shortens exe exe
  cut :
      {exe out : Program} {k e : ℕ}
      → Jumps exe k e
      → Shortens (set_x exe k (pos e)) out
      → Shortens exe out

pub Shortens-append : {p q r : Program} → Shortens p q → Shortens q r → Shortens p r
Shortens-append same g = g
Shortens-append (cut j s) g = cut j (Shortens-append s g)

pub Shortens-IsForward :
    {exe out : Program}
    → IsForward exe
    → Shortens exe out
    → IsForward out × (length out ≡ length exe)
Shortens-IsForward f same = (f, refl)
Shortens-IsForward {exe} f (cut {k = k} {e = e} j s) =
    let (g, len) = Shortens-IsForward (set_x-IsForward exe k e f j) s in
    (g, len ∙ length-set_x exe k (pos e))
