-- ===== src/Stage2/Same.antt =====
-- Shortening chains of jumps does not change what a program accepts, librxvm/stage2.c.
use mathlib.Core.Path.{subst}
use librxvm.Prelude.{ℕ, ◌≡◌, sym, ◌∙◌, ap, ◌↔◌, inl, inr, Bool, List, length, some_inj, done}
use librxvm.Prelude.Int.{pos, pos_part}
use librxvm.Inst.{Op, jmp, match, Inst, Program}
use librxvm.Vm.Spec.{EpsOf, ReadsOf, Eps, Reads, IsMatch, Accepts, halt, move, eat, at_sol, at_eol}
use librxvm.Vmcode.{set_x}
use librxvm.Stage2.{optimise_chains}
use librxvm.Stage2.Jumps.{JmpTo, Jumps, last, more, IsForward, set_x-other}
use librxvm.Stage2.Shortens.{Shortens, same, cut, Shortens-IsForward, ℕ-cases, set_x-JmpTo}
use librxvm.Stage2.Chains.{optimise_chains-Shortens}

jmp-match : (o : Op) → o ≡ jmp → o ≡ match → ⊥
jmp-match o e e' = absurd (cc)

jmp-ReadsOf :
    (o : Op) (icase : Bool) (c i : ℕ) (inst : Inst) (j : ℕ)
    → o ≡ jmp
    → ReadsOf o icase c i inst j
    → ⊥
jmp-ReadsOf o icase c i inst j e = rw e (λ h. h)

jmp-EpsOf :
    (o : Op) (s e : Bool) (i : ℕ) (inst : Inst) (j : ℕ)
    → o ≡ jmp
    → EpsOf o s e i inst j
    → inst.x ≡ pos j
jmp-EpsOf o s e i inst j q = rw q (λ h. h)

EpsOf-jmp :
    (o : Op) (s e : Bool) (i : ℕ) (inst : Inst) (j : ℕ)
    → o ≡ jmp
    → inst.x ≡ pos j
    → EpsOf o s e i inst j
EpsOf-jmp o s e i inst j q = rw q (λ h. h)

-- What stands at a jump.
module _ (exe : Program) (i j : ℕ) (t : JmpTo exe i j) where
  JmpTo-not_match : IsMatch exe i → ⊥
  JmpTo-not_match m =
      jmp-match t.inst.op t.jumps (ap (λ v. v.op) (some_inj (sym t.found ∙ m.found)) ∙ m.ends)

  JmpTo-not-Reads : (icase : Bool) (c j' : ℕ) → Reads exe icase c i j' → ⊥
  JmpTo-not-Reads icase c j' r =
      let op : r.inst.op ≡ jmp = ap (λ v. v.op) (some_inj (sym r.found ∙ t.found)) ∙ t.jumps in
      jmp-ReadsOf r.inst.op icase c i r.inst j' op r.goes

  JmpTo-Eps : (s e : Bool) (j' : ℕ) → Eps exe s e i j' → j' ≡ j
  JmpTo-Eps s e j' m =
      let eq : m.inst ≡ t.inst = some_inj (sym m.found ∙ t.found) in
      let x : m.inst.x ≡ pos j' =
        jmp-EpsOf m.inst.op s e i m.inst j' (ap (λ v. v.op) eq ∙ t.jumps) m.goes in
      ap pos_part (sym x ∙ ap (λ v. v.x) eq ∙ t.target)

  Eps-JmpTo : (s e : Bool) → Eps exe s e i j
  Eps-JmpTo s e = record {
    inst = t.inst;
    found = t.found;
    goes = EpsOf-jmp t.inst.op s e i t.inst j t.jumps t.target;
  }

Jumps-first : {exe : Program} {i e : ℕ} → Jumps exe i e → (j : ℕ) × JmpTo exe i j
Jumps-first (last {j = j} t) = (j, t)
Jumps-first (more {j = j} t r) = (j, t)

module _ (exe : Program) (icase multiline : Bool) where
  Jumps-back :
      {i e : ℕ} {first : Bool} {before : ℕ} {s : List ℕ} {n : ℕ}
      → Jumps exe i e
      → Accepts exe icase multiline e first before s n
      → Accepts exe icase multiline i first before s n
  Jumps-back {i} {e} {first} {before} {s} (last t) a =
      move (Eps-JmpTo exe i e t (at_sol multiline first before) (at_eol multiline s)) a
  Jumps-back {i} {e} {first} {before} {s} (more {j = j} t r) a =
      move (Eps-JmpTo exe i j t (at_sol multiline first before) (at_eol multiline s))
        (Jumps-back r a)

-- Setting one jump changes no run that starts elsewhere.
module _ (exe : Program) (k e : ℕ) (p : Jumps exe k e) where
  abbrev changed : Program
  changed = set_x exe k (pos e)

  here-JmpTo : (i : ℕ) → i ≡ k → JmpTo changed i e
  here-JmpTo i eq = subst (λ v. JmpTo changed v e) (sym eq) (set_x-JmpTo exe k e p)

  here-Jumps : (i : ℕ) → i ≡ k → Jumps exe i e
  here-Jumps i eq = subst (λ v. Jumps exe v e) (sym eq) p

  module _ (icase multiline : Bool) where
    set_x-back :
        {i : ℕ} {first : Bool} {before : ℕ} {s : List ℕ} {n : ℕ}
        → Accepts changed icase multiline i first before s n
        → Accepts exe icase multiline i first before s n
    set_x-back {i} (halt m l) = elim (ℕ-cases i k) [
      | inl eq ↦ absurd (JmpTo-not_match changed i e (here-JmpTo i eq) m)
      | inr ne ↦
          halt
            (record {
              inst = m.inst;
              found = sym (set_x-other exe k (pos e) i ne) ∙ m.found;
              ends = m.ends;
            })
            l
    ]
    set_x-back {i} {first} {before} {s} {n} (move {j = j} m a) = elim (ℕ-cases i k) [
      | inl eq ↦ Jumps-back exe icase multiline (here-Jumps i eq) (
          subst (λ v. Accepts exe icase multiline v first before s n)
            (JmpTo-Eps changed i e (here-JmpTo i eq) (at_sol multiline first before)
              (at_eol multiline s) j m)
            (set_x-back a))
      | inr ne ↦
          move
            (record {
              inst = m.inst;
              found = sym (set_x-other exe k (pos e) i ne) ∙ m.found;
              goes = m.goes;
            })
            (set_x-back a)
    ]
    set_x-back {i} (eat {j = j} {c = c} d a) = elim (ℕ-cases i k) [
      | inl eq ↦ absurd (JmpTo-not-Reads changed i e (here-JmpTo i eq) icase c j d)
      | inr ne ↦
          eat
            (record {
              inst = d.inst;
              found = sym (set_x-other exe k (pos e) i ne) ∙ d.found;
              goes = d.goes;
            })
            (set_x-back a)
    ]

    Jumps-past :
        (i j : ℕ) (first : Bool) (before : ℕ) (s : List ℕ) (n : ℕ)
        → Eps exe (at_sol multiline first before) (at_eol multiline s) i j
        → Accepts changed icase multiline j first before s n
        → (Jumps exe j e → Accepts changed icase multiline e first before s n)
        → Jumps exe i e
        → Accepts changed icase multiline e first before s n
    Jumps-past i j first before s n m sm on (last t) =
        subst (λ v. Accepts changed icase multiline v first before s n)
          (JmpTo-Eps exe i e t (at_sol multiline first before) (at_eol multiline s) j m) sm
    Jumps-past i j first before s n m sm on (more {j = j'} t r) = on (
        subst (λ v. Jumps exe v e)
          (sym (JmpTo-Eps exe i j' t (at_sol multiline first before) (at_eol multiline s) j m)) r)

    -- An accepting run from where jumps lead to `e` comes by `e`.
    set_x-on :
        {i : ℕ} {first : Bool} {before : ℕ} {s : List ℕ} {n : ℕ}
        → Accepts exe icase multiline i first before s n
        → Accepts changed icase multiline i first before s n
          × (Jumps exe i e → Accepts changed icase multiline e first before s n)
    set_x-on {i} (halt m l) = elim (ℕ-cases i k) [
      | inl eq ↦ let (j, t) = Jumps-first (here-Jumps i eq) in absurd (JmpTo-not_match exe i j t m)
      | inr ne ↦ (
        halt
            (record {
              inst = m.inst;
              found = set_x-other exe k (pos e) i ne ∙ m.found;
              ends = m.ends;
            })
            l,
        λ r. (let (j, t) = Jumps-first r in absurd (JmpTo-not_match exe i j t m)),
      )
    ]
    set_x-on {i} {first} {before} {s} {n} (move {j = j} m a) =
        let (sm, on) = set_x-on a in
        let past : Jumps exe i e → Accepts changed icase multiline e first before s n =
          λ r. Jumps-past i j first before s n m sm on r in
        elim (ℕ-cases i k) [
          | inl eq ↦ (
            move
                (Eps-JmpTo changed i e (here-JmpTo i eq) (at_sol multiline first before)
                  (at_eol multiline s))
                (past (here-Jumps i eq)),
            past,
          )
          | inr ne ↦ (
            move
                (record {
                  inst = m.inst;
                  found = set_x-other exe k (pos e) i ne ∙ m.found;
                  goes = m.goes;
                })
                sm,
            past,
          )
        ]
    set_x-on {i} (eat {j = j} {c = c} d a) = elim (ℕ-cases i k) [
      | inl eq ↦
          let (j', t) = Jumps-first (here-Jumps i eq) in
          absurd (JmpTo-not-Reads exe i j' t icase c j d)
      | inr ne ↦ (
        eat
            (record {
              inst = d.inst;
              found = set_x-other exe k (pos e) i ne ∙ d.found;
              goes = d.goes;
            })
            ((set_x-on a).0),
        λ r. (let (j', t) = Jumps-first r in absurd (JmpTo-not-Reads exe i j' t icase c j d)),
      )
    ]

-- The two programs accept the same, from every index on.
abbrev pub SameRuns : Program → Program → Type 0
SameRuns p q =
    (icase multiline : Bool) (i : ℕ) (first : Bool) (before : ℕ) (s : List ℕ) (n : ℕ)
    → Accepts p icase multiline i first before s n ↔ Accepts q icase multiline i first before s n

Shortens-SameRuns : {p q : Program} → Shortens p q → SameRuns q p
Shortens-SameRuns same icase multiline i first before s n = (λ a. a, λ a. a)
Shortens-SameRuns {p} (cut {k = k} {e = e} j r) icase multiline i first before s n =
    let (to, from) = Shortens-SameRuns r icase multiline i first before s n in
    (
      λ a. set_x-back p k e j icase multiline (to a),
      λ a. from ((set_x-on p k e j icase multiline a).0),
    )

-- For a well-formed program in which every jump leads forward, shortening the chains ends within its
-- fuel and makes no access outside the program. What comes out has the same length, is well formed,
-- its jumps lead forward, and from every index it accepts exactly the texts that the program did.
pub optimise_chains-SameRuns :
    (exe : Program)
    → IsForward exe
    → (out : Program) × (optimise_chains exe ≡ done out)
      × IsForward out
      × (length out ≡ length exe)
      × SameRuns out exe
optimise_chains-SameRuns exe f =
    let (out, e, s) = optimise_chains-Shortens exe f in
    let (g, len) = Shortens-IsForward f s in (out, e, g, len, Shortens-SameRuns s)
