-- ===== src/Code/Runs.antt =====
-- Runs through code whose jumps are relative, librxvm/vmcode.c: what each instruction does at its
-- index, and how a run through a program splits where closed code stands in it.
use librxvm.Prelude.{
  ℕ, suc, ◌+◌, ◌-◌, ◌≤◌, ◌<◌, ◌≡◌, refl, ◌⊎◌, inl, inr, Bool, false, List, ◌∷◌, some, arith, length,
  get_elem?,
}
use librxvm.Prelude.Int.{ℤ, pos, negsuc, ◌+ℤ◌}
use librxvm.Inst.{Op, char, any, class, nclass, branch, jmp, sol, eol, match, Inst}
use librxvm.Vm.Spec.{EpsOf, ReadsOf, at_sol, at_eol}
use librxvm.Vmcode.Closed.{Lands, LandsOf}
use librxvm.Stage2.{relocate_op}

-- Where a thread is in the text: whether at its start, the character before, and what follows.
pub record Place : Type 0 where
  pub first : Bool
  pub last : ℕ
  pub rest : List ℕ

abbrev pub behind : ℕ → List ℕ → Place
behind c s = record { first = false; last = c; rest = s }

shift-index : (x : ℤ) (a i j : ℕ) → x +ℤ pos i ≡ pos j → x +ℤ pos (a + i) ≡ pos (a + j)
unfolding ◌+ℤ◌
shift-index (pos d) a i j e = ground arith
shift-index (negsuc d) a i j e = ground arith

unshift-index :
    (x : ℤ) (n a i k : ℕ)
    → i < n
    → Lands n i x
    → x +ℤ pos (a + i) ≡ pos k
    → (j : ℕ) × (k ≡ a + j) × (j ≤ n) × (x +ℤ pos i ≡ pos j)
unfolding ◌+ℤ◌
unshift-index (pos d) n a i k lt h e = (d + i, ground arith, omega arith, ground arith)
unshift-index (negsuc d) n a i k lt h e = (i - suc d, ground arith, omega arith, ground arith)

module _ (a i : ℕ) (inst : Inst) (s e : Bool) where
  EpsOf-shift :
      (j : ℕ) (op : Op)
      → EpsOf op s e i (relocate_op op i inst) j
      → EpsOf op s e (a + i) (relocate_op op (a + i) inst) (a + j)
  EpsOf-shift j jmp h = shift-index inst.x a i j h
  EpsOf-shift j branch h = elim h [
    | inl x ↦ inl (shift-index inst.x a i j x)
    | inr y ↦ inr (shift-index inst.y a i j y)
  ]
  EpsOf-shift j sol h = (h.0, omega (arith, h.1))
  EpsOf-shift j eol h = (h.0, omega (arith, h.1))
  EpsOf-shift j char h = h
  EpsOf-shift j any h = h
  EpsOf-shift j class h = h
  EpsOf-shift j nclass h = h
  EpsOf-shift j match h = h

  -- A thread inside closed code of `n` instructions stays there, or comes behind its last one.
  EpsOf-unshift :
      (n k : ℕ) (op : Op)
      → i < n
      → LandsOf n i inst op
      → EpsOf op s e (a + i) (relocate_op op (a + i) inst) k
      → (j : ℕ) × (k ≡ a + j) × (j ≤ n) × EpsOf op s e i (relocate_op op i inst) j
  EpsOf-unshift n k jmp lt l h = unshift-index inst.x n a i k lt l h
  EpsOf-unshift n k branch lt l h = elim h [
    | inl x ↦ let (j, q, le, g) = unshift-index inst.x n a i k lt l.0 x in (j, q, le, inl g)
    | inr y ↦ let (j, q, le, g) = unshift-index inst.y n a i k lt l.1 y in (j, q, le, inr g)
  ]
  EpsOf-unshift n k sol lt l h = (i + 1, omega (arith, h.1), omega arith, (h.0, refl))
  EpsOf-unshift n k eol lt l h = (i + 1, omega (arith, h.1), omega arith, (h.0, refl))
  EpsOf-unshift n k char lt l h = elim h [ ]
  EpsOf-unshift n k any lt l h = elim h [ ]
  EpsOf-unshift n k class lt l h = elim h [ ]
  EpsOf-unshift n k nclass lt l h = elim h [ ]
  EpsOf-unshift n k match lt l h = elim h [ ]

module _ (a i : ℕ) (inst : Inst) (icase : Bool) (c : ℕ) where
  ReadsOf-shift :
      (j : ℕ) (op : Op) → ReadsOf op icase c i inst j → ReadsOf op icase c (a + i) inst (a + j)
  ReadsOf-shift j char h = (h.0, omega (arith, h.1))
  ReadsOf-shift j any h = (h.0, omega (arith, h.1))
  ReadsOf-shift j class (ccs, f, m, e) = (ccs, f, m, omega arith)
  ReadsOf-shift j nclass (ccs, f, m, e) = (ccs, f, m, omega arith)
  ReadsOf-shift j jmp h = h
  ReadsOf-shift j branch h = h
  ReadsOf-shift j sol h = h
  ReadsOf-shift j eol h = h
  ReadsOf-shift j match h = h

  ReadsOf-unshift :
      (n k : ℕ) (op : Op)
      → i < n
      → ReadsOf op icase c (a + i) inst k
      → (j : ℕ) × (k ≡ a + j) × (j ≤ n) × ReadsOf op icase c i inst j
  ReadsOf-unshift n k char lt h = (i + 1, omega (arith, h.1), omega arith, (h.0, refl))
  ReadsOf-unshift n k any lt h = (i + 1, omega (arith, h.1), omega arith, (h.0, refl))
  ReadsOf-unshift n k class lt (ccs, f, m, e) = (i + 1, omega arith, omega arith, (ccs, f, m, refl))
  ReadsOf-unshift n k nclass lt (ccs, f, m, e) =
      (i + 1, omega arith, omega arith, (ccs, f, m, refl))
  ReadsOf-unshift n k jmp lt h = elim h [ ]
  ReadsOf-unshift n k branch lt h = elim h [ ]
  ReadsOf-unshift n k sol lt h = elim h [ ]
  ReadsOf-unshift n k eol lt h = elim h [ ]
  ReadsOf-unshift n k match lt h = elim h [ ]

module _ (icase multiline : Bool) where
  -- One instruction, at index `i` of the code: it reads nothing, or the next character.
  abbrev pub HopOf : ℕ → Inst → Place → ℕ → Place → Type 0
  HopOf i inst p j q =
      (EpsOf inst.op (at_sol multiline p.first p.last) (at_eol multiline p.rest) i
          (relocate_op inst.op i inst) j
        × (q ≡ p))
      ⊎ ((c : ℕ) × (s : List ℕ) × (p.rest ≡ c ∷ s)
          × ReadsOf inst.op icase c i inst j
          × (q ≡ behind c s))

  pub record Hop (l : List Inst) (i : ℕ) (p : Place) (j : ℕ) (q : Place) : Type 0 where
    pub inst : Inst
    pub found : get_elem? l i ≡ some inst
    pub goes : HopOf i inst p j q

  -- A run of `n` instructions through the code `l`.
  pub data Goes (l : List Inst) : ℕ → ℕ → Place → ℕ → Place → Type 0 where
    stay : {i : ℕ} {p : Place} → Goes l 0 i p i p
    hop : {n i j k : ℕ} {p r q : Place} → Hop l i p j r → Goes l n j r k q → Goes l (suc n) i p k q

  abbrev pub Through : List Inst → ℕ → Place → ℕ → Place → Type 0
  Through l i p k q = (n : ℕ) × Goes l n i p k q

  -- From the start of the code to behind its end.
  abbrev pub Means : List Inst → Place → Place → Type 0
  Means l p q = Through l 0 p (length l) q

  pub HopOf-shift :
      (a i j : ℕ) (inst : Inst) (p q : Place) → HopOf i inst p j q → HopOf (a + i) inst p (a + j) q
  HopOf-shift a i j inst p q (inl (h, e)) = inl (EpsOf-shift a i inst _ _ j inst.op h, e)
  HopOf-shift a i j inst p q (inr (c, s, f, h, e)) =
      inr (c, s, f, ReadsOf-shift a i inst icase c j inst.op h, e)

  pub HopOf-unshift :
      (a i n k : ℕ) (inst : Inst) (p q : Place)
      → i < n
      → LandsOf n i inst inst.op
      → HopOf (a + i) inst p k q
      → (j : ℕ) × (k ≡ a + j) × (j ≤ n) × HopOf i inst p j q
  HopOf-unshift a i n k inst p q lt l (inl (h, e)) =
      let (j, f, le, g) = EpsOf-unshift a i inst _ _ n k inst.op lt l h in (j, f, le, inl (g, e))
  HopOf-unshift a i n k inst p q lt l (inr (c, s, f, h, e)) =
      let (j, g, le, r) = ReadsOf-unshift a i inst icase c n k inst.op lt h in
      (j, g, le, inr (c, s, f, r, e))
