-- ===== src/Stage1/Tokens.antt =====
-- Tokens that are no operators keep every list of the first stage closed code.
use librxvm.Prelude.{
  ℕ, ◌+◌, ◌<◌, ◌≡◌, ◌≢◌, refl, sym, ◌∙◌, ◌⊎◌, inl, inr, Bool, true, false, ◌&&◌, List, [], ◌∷◌,
  ◌++◌, some, arith, length, set, length-set, ltb, if◌then◌else◌, Bool-cases, length-append,
}
use mathlib.Core.Path.{subst}
use librxvm.Inst.{Inst}
use librxvm.Stack.{IrStack, create_stack, stack_cat, stack_reset}
use librxvm.Token.{Token}
use librxvm.Vmcode.{attach_dangling_alt, stack_add_inst_head}
use librxvm.Vmcode.Blocks.{add_head-put}
use librxvm.Vmcode.Keeps.{IsCode, IsCode-put}
use librxvm.Vmcode.Alt.{attach-IsCode}
use librxvm.Stage1.Context.{
  group, tail_item, Context, base, parens_head, free_head, is_rparen, stack_at,
}
use librxvm.Stage1.Main.{flush_closed, add_single, cat_base, open_paren, close_paren}
use librxvm.Stage1.Plain.{IsPlain, PlainOf, IsPlain-IsClosed, IsPlain-append}
use librxvm.Stage1.Store.{
  at, IsShut, IsStore, IsBehind, at-append, at-set, at-set-same, IsParens-below, IsParens-base,
  IsParens-push, group-free,
}
use librxvm.Stage1.Keeps.{
  target-IsBehind, IsDone, cat-IsCode, target-IsStore, target-IsPlain, reset-IsStore, reset-IsPlain,
  base-IsStore, plain-IsBehind, base-below, target-IsShut, reset-IsDone,
}
use librxvm.Stage1.Compiles.{IsKept}

-- The invariant with a buffer that has no jumps.
abbrev pub IsReady : Context → Type 0
IsReady cp = IsStore cp.store cp.parens cp.target cp.buf × IsPlain (stack_at cp cp.buf).items

pub Ready-IsKept : (tok : Token) (cp : Context) → is_rparen tok ≡ false → IsReady cp → IsKept tok cp
Ready-IsKept tok cp nr (h, p) =
    (h, plain-IsBehind cp.store cp.parens cp.target cp.buf h tok cp.operand nr p)

-- What adding to a buffer leaves: closed code with no jumps, and no open jump that was not there.
abbrev pub Extends : IrStack → IrStack → Type 0
Extends t s = IsCode s × (IsDone t → IsDone s) × IsPlain s.items

pub add-Extends :
    (t : IrStack) (inst : Inst)
    → IsCode t
    → IsPlain t.items
    → PlainOf inst inst.op
    → Extends t (stack_add_inst_head t inst)
unfolding stack_add_inst_head
add-Extends t inst c p pi = (
  rw⁻¹ (add_head-put t inst) (IsCode-put t (inst ∷ []) c (IsPlain-IsClosed (inst ∷ []) (pi, tt))),
  λ d. d,
  IsPlain-append t.items (inst ∷ []) p (pi, tt),
)

-- Adding to a list that is not the target.
module _ (store : List IrStack) (parens : List ℕ) (target buf k : ℕ) (s : IrStack)
    (h : IsStore store parens target buf) (x : Extends (at store k) s) (ne : k ≢ target) where
  extend-IsDone : (j : ℕ) → IsDone (at store j) → IsDone (at (set store k s) j)
  extend-IsDone j g =
      at-set IsDone store k s j (λ e. x.1 (subst (λ v. IsDone (at store v)) (sym e) g)) g

  extend-IsPlain : (j : ℕ) → IsPlain (at store j).items → IsPlain (at (set store k s) j).items
  extend-IsPlain j g = at-set (λ t. IsPlain t.items) store k s j (λ e. x.2) g

  extend-IsStore : IsStore (set store k s) parens target buf
  extend-IsStore = record {
    codes = λ i. at-set IsCode store k s i (λ e. x.0) (h.codes i);
    open_parens = rw (length-set store k s) h.open_parens;
    base_plain = extend-IsPlain base h.base_plain;
    base_done = extend-IsDone base h.base_done;
    buf_done = extend-IsDone buf h.buf_done;
    buf_below = rw (length-set store k s) h.buf_below;
    apart = h.apart;
    place = elim h.place [
      | inl e ↦ inl e
      | inr w ↦ inr (record {
        deep = w.deep;
        behind = w.behind;
        head_done = extend-IsDone (parens_head parens) w.head_done;
      })
    ];
  }

  pub extend-IsReady :
      IsPlain (at store buf).items
      → IsStore (set store k s) parens target buf × IsPlain (at (set store k s) buf).items
  extend-IsReady p = (extend-IsStore, extend-IsPlain buf p)

pub single-IsReady :
    (orig : List ℕ) (cp : Context) (inst : Inst)
    → IsReady cp
    → PlainOf inst inst.op
    → IsReady (add_single orig inst cp)
unfolding add_single
single-IsReady orig cp inst (h, p) pi =
    extend-IsReady cp.store cp.parens cp.target cp.buf cp.buf _ h
      (add-Extends (stack_at cp cp.buf) inst (h.codes cp.buf) p pi) h.apart p

empty-IsPlain : (t : IrStack) → IsCode t → t.size ≡ 0 → IsPlain t.items
empty-IsPlain t c z = of t.items (c.size_eq ∙ refl)
  where
    of : (l : List Inst) → t.size ≡ length l → IsPlain l
    of [] e = tt
    of (x ∷ l) e = absurd (omega arith)

-- A closed parenthesis goes to the target.
pub flush-IsReady :
    (orig : List ℕ) (cp : Context) → IsKept cp.lasttok cp → IsReady (flush_closed orig cp)
unfolding flush_closed
flush-IsReady orig cp (h, b) =
    elim (Bool-cases (is_rparen cp.lasttok && ltb 0 (stack_at cp cp.buf).size)) [
      | inl flush ↦
          let t : IrStack = stack_cat (stack_at cp cp.target) (stack_at cp cp.buf) in
          let c : IsCode t = cat-IsCode _ _ (h.codes cp.target) (h.codes cp.buf) h.buf_done in
          let last : is_rparen cp.lasttok ≡ true = ground arith in
          let h1 = target-IsStore cp.store cp.parens cp.target cp.buf h t c in
          let b1 =
            target-IsBehind cp.store cp.parens cp.target cp.buf h t c cp.lasttok cp.operand b in
          let h2 = base-IsStore _ cp.parens cp.target cp.buf h1 cp.lasttok cp.operand b1 in
          let h3 : IsStore (set cp.store cp.target t) (free_head cp.parens) cp.target base =
            subst
              (λ (v : Bool).
                IsStore (set cp.store cp.target t) (if v then free_head cp.parens else cp.parens)
                  cp.target base)
              last h2 in
          rw flush (h3, h3.base_plain)
      | inr stays ↦ rw stays (h, plain h b stays)
    ]
  where
    plain :
        IsStore cp.store cp.parens cp.target cp.buf
        → IsBehind cp.lasttok cp.store cp.parens cp.target cp.buf cp.operand
        → (is_rparen cp.lasttok && ltb 0 (stack_at cp cp.buf).size) ≡ false
        → IsPlain (stack_at cp cp.buf).items
    plain h b stays = elim b.whole [
      | inl p ↦ p
      | inr (e, _) ↦ empty-IsPlain (stack_at cp cp.buf) (h.codes cp.buf) (ground arith)
    ]

-- The shared buffer goes to the target, which `f` is done to then.
module _ (orig : List ℕ) (f : IrStack → IrStack)
    (fc : (t : IrStack) → IsCode t → IsCode (f t)) where
  written-IsCode :
      (cp : Context)
      → IsReady cp
      → IsCode (f (stack_cat (stack_at cp cp.target) (stack_at cp base)))
  written-IsCode cp (h, p) = fc _ (cat-IsCode _ _ (h.codes cp.target) (h.codes base) h.base_done)

  cat_base-IsReady : (cp : Context) → IsReady cp → IsReady (cat_base orig f cp)
  unfolding cat_base
  cat_base-IsReady cp (h, p) =
      let t : IrStack = f (stack_cat (stack_at cp cp.target) (stack_at cp base)) in
      let c : IsCode t = written-IsCode cp (h, p) in
      let h1 = target-IsStore cp.store cp.parens cp.target cp.buf h t c in
      let p1 = target-IsPlain cp.store cp.parens cp.target cp.buf h t c p in
      (
        reset-IsStore _ cp.parens cp.target cp.buf h1 base h1.base_done,
        reset-IsPlain _ cp.parens cp.target cp.buf h1 base h1.base_done p1,
      )

pub open-IsReady : (orig : List ℕ) (cp : Context) → IsReady cp → IsReady (open_paren orig cp)
unfolding open_paren
open-IsReady orig cp r =
    let cp1 : Context = cat_base orig (λ t. t) cp in
    let (h, p) : IsReady cp1 = cat_base-IsReady orig (λ t. t) (λ t c. c) cp r in
    let new : ℕ = length cp1.store in
    let deep : base < new = base-below cp1.store cp1.parens cp1.target cp1.buf h in
    let len : length (cp1.store ++ create_stack ∷ []) ≡ new + 1 =
      length-append cp1.store (create_stack ∷ []) in
    (
      record {
        codes = λ i. rw (at-append cp1.store i) (h.codes i);
        open_parens = rw len (IsParens-push new cp1.parens h.open_parens);
        base_plain = rw (at-append cp1.store base) h.base_plain;
        base_done = rw (at-append cp1.store base) h.base_done;
        buf_done = rw (at-append cp1.store cp1.buf) h.buf_done;
        buf_below = omega (arith, len, h.buf_below);
        apart = λ e. omega (arith, h.buf_below, e);
        place = inl (ground arith);
      },
      rw (at-append cp1.store cp1.buf) p,
    )

tail_item-whole :
    (cur : ℕ) (l : List Inst)
    → IsPlain l ⊎ ((is_rparen Token.rparen ≡ true) × (tail_item cur l ≡ some (cur, 0)))
tail_item-whole cur [] = inl tt
tail_item-whole cur (inst ∷ l) = inr (refl, refl)

pub close-IsKept :
    (orig : List ℕ) (cur : ℕ) (parens : List ℕ) (cp : Context)
    → IsReady cp
    → cp.parens ≡ cur ∷ parens
    → cur ≢ base
    → IsKept Token.rparen (close_paren orig cur parens cp)
unfolding close_paren cat_base
close-IsKept orig cur parens cp (h0, p) pe ne =
    let h : IsStore cp.store (cur ∷ parens) cp.target cp.buf =
      subst (λ v. IsStore cp.store v cp.target cp.buf) pe h0 in
    let joined : IrStack = stack_cat (stack_at cp cp.target) (stack_at cp base) in
    let t : IrStack = attach_dangling_alt joined in
    let attached =
      attach-IsCode joined (cat-IsCode _ _ (h.codes cp.target) (h.codes base) h.base_done) in
    let h1 = target-IsStore cp.store (cur ∷ parens) cp.target cp.buf h t attached.0 in
    let h2 = reset-IsStore _ (cur ∷ parens) cp.target cp.buf h1 base h1.base_done in
    let low : base < cur =
      omega (arith, IsParens-base (length cp.store) (cur ∷ parens) h.open_parens, ne) in
    let done1 : IsDone (at (set cp.store cp.target t) cur) = elim h.place [
      | inr w ↦ (target-IsShut cp.store (cur ∷ parens) cp.target cp.buf h t attached.0 w).head_done
      | inl e ↦
          let here : cp.target ≡ cur = ground arith in
          let below : cp.target < length cp.store =
            omega (arith, here, IsParens-below (length cp.store) (cur ∷ parens) h.open_parens) in
          subst (λ v. IsDone (at (set cp.store cp.target t) v)) here
            (rw (at-set-same cp.store cp.target t below) attached.1)
    ] in
    let store2 : List IrStack =
      set (set cp.store cp.target t) base (stack_reset (at (set cp.store cp.target t) base)) in
    let done2 : IsDone (at store2 cur) = reset-IsDone _ _ _ _ h1 base h1.base_done cur done1 in
    let behind : group parens < cur =
      group-free (length cp.store) (cur ∷ parens) low h.open_parens in
    let shut : IsShut store2 (cur ∷ parens) (group parens) = record {
      deep = low;
      behind = refl;
      head_done = done2;
    } in
    let kept : IsStore store2 (cur ∷ parens) (group parens) cur = record {
      codes = h2.codes;
      open_parens = h2.open_parens;
      base_plain = h2.base_plain;
      base_done = h2.base_done;
      buf_done = done2;
      buf_below = IsParens-below (length store2) (cur ∷ parens) h2.open_parens;
      apart = λ e. omega (arith, behind, e);
      place = inr shut;
    } in
    let whole = tail_item-whole cur (at store2 cur).items in
    (
      subst (λ v. IsStore store2 v (group parens) cur) (sym pe) kept,
      subst
          (λ v.
            IsBehind Token.rparen store2 v (group parens) cur (tail_item cur (at store2 cur).items))
          (sym pe) (record { shut = λ e. (shut, refl); whole = whole }),
    )
