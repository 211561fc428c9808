-- ===== src/Stage1/Compiles.antt =====
-- Each token of the first stage keeps every list closed code.
use librxvm.Prelude.{
  ℕ, ◌-◌, ◌≡◌, refl, sym, ◌∙◌, ap, ◌⊎◌, inl, inr, Bool, true, false, ◌&&◌, List, [], ◌∷◌, none,
  some, Option, arith, length, ◌==◌, ltb, Bool-cases, some_inj, take, drop, Outcome, done,
}
use mathlib.Core.Path.{subst}
use librxvm.Inst.{Inst}
use librxvm.Err.{Result, ok, err}
use librxvm.Stack.{IrStack}
use librxvm.Token.{Token}
use librxvm.Lfix.{Lfix}
use librxvm.Vmcode.{stack_cat_from_item}
use librxvm.Vmcode.Blocks.{cat_from-put}
use librxvm.Vmcode.Closed.{IsClosed}
use librxvm.Vmcode.Keeps.{IsCode-IsClosed, IsCode, IsCode-put}
use librxvm.Vmcode.Alt.{alt-IsCode}
use librxvm.Stage1.Context.{Context, Staged, going, base, is_rparen, put_stack, stack_at}
use librxvm.Stage1.Operator.{Generated, generate}
use librxvm.Stage1.Rep.{GeneratesCode, generate-KeepsCode}
use librxvm.Stage1.Main.{
  is_alt, split_operand, finish_op, apply_op, apply_behind, process_items, process_op, rep_text,
}
use librxvm.Stage1.Plain.{IsPlain, IsPlain-IsClosed, IsPlain-take, IsPlain-drop, length-take-drop}
use librxvm.Stage1.Store.{IsStore, IsBehind}
use librxvm.Stage1.Keeps.{
  target-IsStore, target-IsBehind, reset-IsStore, reset-IsBehind, base-IsStore, plain-IsBehind,
}

-- The invariant of a context, behind a token.
abbrev pub IsKept : Token → Context → Type 0
IsKept tok cp =
    IsStore cp.store cp.parens cp.target cp.buf
    × IsBehind tok cp.store cp.parens cp.target cp.buf cp.operand

abbrev pub KeepsStore : Token → Outcome Staged → Type 0
KeepsStore tok (done (going cp)) = IsKept tok cp
KeepsStore tok _ = Unit {0}

module _ (orig : List ℕ) (tok : Token) (nr : is_rparen tok ≡ false) where
  finish-KeepsStore :
      (cp : Context) (r : Result Generated)
      → IsKept cp.lasttok cp
      → GeneratesCode r
      → KeepsStore tok (finish_op orig tok cp r)
  unfolding finish_op
  finish-KeepsStore cp (err e) k g = tt
  finish-KeepsStore cp (ok gen) (h, b) g =
      let h1 = target-IsStore cp.store cp.parens cp.target cp.buf h gen.target g in
      let b1 =
        target-IsBehind cp.store cp.parens cp.target cp.buf h gen.target g cp.lasttok cp.operand
          b in
      let h2 = reset-IsStore _ cp.parens cp.target cp.buf h1 cp.buf h1.buf_done in
      let b2 =
        reset-IsBehind _ cp.parens cp.target cp.buf h1 cp.buf h1.buf_done cp.lasttok cp.operand
          b1 in
      let h3 = base-IsStore _ cp.parens cp.target cp.buf h2 cp.lasttok cp.operand b2 in
      (h3, plain-IsBehind _ _ cp.target base h3 tok cp.operand nr h3.base_plain)

  apply-KeepsStore :
      (cp : Context) (operand : List Inst) (size : ℕ)
      → IsKept cp.lasttok cp
      → IsClosed operand
      → length operand ≡ size
      → KeepsStore tok (apply_op orig tok operand size cp)
  unfolding apply_op
  apply-KeepsStore cp operand size k c e = finish-KeepsStore cp _ k (
      generate-KeepsCode (stack_at cp cp.target) operand (k.0.codes cp.target) c size e tok
        (rep_text orig cp) cp.chained cp.globals.lfix)

-- An alternative with nothing in front of it; the size that it is given is not read.
empty-Generates :
    (text : List ℕ) (t : IrStack) (s : ℕ) (chained : Bool) (lfix : Lfix)
    → IsCode t
    → GeneratesCode (generate Token.alt text t [] s chained lfix)
unfolding generate
empty-Generates text t s chained lfix c = alt-IsCode t [] chained c (tt, tt)

empty-KeepsStore :
    (orig : List ℕ) (tok : Token)
    → is_alt tok ≡ true
    → (cp : Context) (size : ℕ) → IsKept cp.lasttok cp
    → KeepsStore tok (apply_op orig tok [] size cp)
unfolding apply_op
empty-KeepsStore orig Token.alt a cp size k =
    finish-KeepsStore orig Token.alt refl cp
      (generate Token.alt (rep_text orig cp) (stack_at cp cp.target) [] size cp.chained
        cp.globals.lfix)
      k
      (empty-Generates (rep_text orig cp) (stack_at cp cp.target) size cp.chained cp.globals.lfix
        (k.0.codes cp.target))
empty-KeepsStore orig _ a cp size k = absurd (grind arith)

-- The two parts of the buffer are closed, and cover it.
split-IsClosed :
    (buf : ℕ) (items : List Inst) (operand : Option (ℕ × ℕ)) (r : List Inst × List Inst)
    → split_operand buf items operand ≡ some r
    → IsClosed items
    → IsPlain items ⊎ (operand ≡ some (buf, 0))
    → IsClosed r.0 × IsClosed r.1 × (length items - length r.0 ≡ length r.1)
unfolding split_operand
split-IsClosed buf items none r e c w = absurd (grind arith)
split-IsClosed buf items (some (i, k)) r e c w =
    elim (Bool-cases (i == buf && ltb k (length items))) [
      | inr fails ↦ absurd (grind arith)
      | inl holds ↦
          let parts : (take k items, drop k items) ≡ r = some_inj (sym (rw holds refl) ∙ e) in
          subst
            (λ (v : List Inst × List Inst).
              IsClosed v.0 × IsClosed v.1 × (length items - length v.0 ≡ length v.1))
            parts
            (elim w [
              | inl p ↦ (
                IsPlain-IsClosed _ (IsPlain-take k items p),
                IsPlain-IsClosed _ (IsPlain-drop k items p),
                length-take-drop k items,
              )
              | inr all ↦
                  let none_before : k ≡ 0 = grind (arith, all) in
                  rw none_before ((tt, tt), c, omega arith)
            ])
    ]

module _ (orig : List ℕ) (tok : Token) (nr : is_rparen tok ≡ false) where
  behind-KeepsStore :
      (cp : Context) (o : Option (List Inst × List Inst))
      → IsKept cp.lasttok cp
      → split_operand cp.buf (stack_at cp cp.buf).items cp.operand ≡ o
      → KeepsStore tok (apply_behind orig tok cp o)
  unfolding apply_behind
  behind-KeepsStore cp none k e = tt
  behind-KeepsStore cp (some (front, operand)) (h, b) e =
      let c : IsCode (stack_at cp cp.buf) = h.codes cp.buf in
      let whole : IsPlain (stack_at cp cp.buf).items ⊎ (cp.operand ≡ some (cp.buf, 0)) =
        elim b.whole [ inl p ↦ inl p | inr w ↦ inr w.1 ] in
      let parts =
        split-IsClosed cp.buf (stack_at cp cp.buf).items cp.operand (front, operand) e
          (IsCode-IsClosed (stack_at cp cp.buf) c h.buf_done) whole in
      let t : IrStack = stack_cat_from_item (stack_at cp cp.target) front in
      let tc : IsCode t =
        rw (cat_from-put (stack_at cp cp.target) front)
          (IsCode-put (stack_at cp cp.target) front (h.codes cp.target) parts.0) in
      apply-KeepsStore orig tok nr (put_stack cp.target t cp) operand
        ((stack_at cp cp.buf).size - length front)
        (
          target-IsStore cp.store cp.parens cp.target cp.buf h t tc,
          target-IsBehind cp.store cp.parens cp.target cp.buf h t tc cp.lasttok cp.operand b,
        )
        parts.1 (omega (arith, parts.2, c.size_eq))

  items-KeepsStore :
      (cp : Context) (items : List Inst)
      → IsKept cp.lasttok cp
      → (stack_at cp cp.buf).items ≡ items
      → KeepsStore tok (process_items orig tok cp items)
  unfolding process_items
  items-KeepsStore cp [] k e = elim (Bool-cases (is_alt tok)) [
    | inl alt ↦ rw alt (empty-KeepsStore orig tok alt cp _ k)
    | inr other ↦ rw other tt
  ]
  items-KeepsStore cp (inst ∷ items) k e =
      behind-KeepsStore cp _ k (ap (λ v. split_operand cp.buf v cp.operand) e)

  pub process-KeepsStore :
      (cp : Context) → IsKept cp.lasttok cp → KeepsStore tok (process_op orig tok cp)
  unfolding process_op
  process-KeepsStore cp k = items-KeepsStore cp (stack_at cp cp.buf).items k refl
