-- ===== src/Vmcode/Alt.antt =====
-- Alternatives keep the target closed, and attach its open jump to the end of the code.
use librxvm.Prelude.{
  inr, ◌-◌, ℕ, zero, suc, ◌+◌, ◌-◌, ◌<◌, ◌≡◌, refl, sym, ◌∙◌, ap, Bool, List, [], ◌∷◌, ◌++◌, none,
  some, Option, arith, length, length-append, some_inj,
}
use mathlib.Core.Path.{subst}
use librxvm.Prelude.Int.{ℤ, pos, negsuc, sub_ℕ}
use librxvm.Inst.{
  Op, branch, jmp, class, nclass, match, char, any, sol, eol, Inst, set_op_branch, set_op_jmp,
}
use librxvm.Stack.{IrStack}
use librxvm.Vmcode.{
  set_x, attach_at, stack_add_inst_head, stack_add_inst_tail, code_alt, attach_dangling_alt,
  stack_cat_from_item,
}
use librxvm.Vmcode.Closed.{AllLand-shift, Lands, LandsOf, AllLand, IsClosed, lands-append}
use librxvm.Vmcode.Blocks.{cat_from-put}
use librxvm.Vmcode.Ahead.{AheadBut, AllAhead, IsAhead, AllAhead-But, AheadBut-last, set_x-AllAhead}
use librxvm.Vmcode.Keeps.{IsCode-IsClosed, IsCode, IsCode-put}

set_x-LandsOf :
    (n k : ℕ) (inst : Inst) (op : Op) (x : ℤ)
    → LandsOf n k inst op
    → Lands n k x
    → LandsOf n k (record inst { x = x }) op
set_x-LandsOf n k inst branch x h lands = (lands, h.1)
set_x-LandsOf n k inst jmp x h lands = lands
set_x-LandsOf n k inst class x h lands = h
set_x-LandsOf n k inst nclass x h lands = h
set_x-LandsOf n k inst match x h lands = h
set_x-LandsOf n k inst char x h lands = tt
set_x-LandsOf n k inst any x h lands = tt
set_x-LandsOf n k inst sol x h lands = tt
set_x-LandsOf n k inst eol x h lands = tt

Lands-at : (n k j : ℕ) (x : ℤ) → k ≡ j → Lands n k x → Lands n j x
Lands-at n k j (pos d) e h = omega arith
Lands-at n k j (negsuc d) e h = omega arith

-- A jump that is set lands where it is set to.
set_x-AllLand :
    (n k : ℕ) (items : List Inst) (i : ℕ) (x : ℤ)
    → AllLand n k items
    → Lands n (k + i) x
    → AllLand n k (set_x items i x)
set_x-AllLand n k [] i x h lands = tt
set_x-AllLand n k (inst ∷ items) zero x h lands =
    (set_x-LandsOf n k inst inst.op x h.0 (Lands-at n (k + 0) k x (omega arith) lands), h.1)
set_x-AllLand n k (inst ∷ items) (suc i) x h lands = (
  h.0,
  set_x-AllLand n (k + 1) items i x h.1 (Lands-at n (k + suc i) (k + 1 + i) x (omega arith) lands),
)

pub length-set_x : (items : List Inst) (i : ℕ) (x : ℤ) → length (set_x items i x) ≡ length items
length-set_x [] i x = refl
length-set_x (inst ∷ items) zero x = refl
length-set_x (inst ∷ items) (suc i) x = ap suc (length-set_x items i x)

-- The offset that `attach_dangling_alt` writes leads to the end of the code.
offset-Lands : (size dsize i : ℕ) → dsize ≡ i + 1 → i < size → Lands size i (sub_ℕ (size + 1) dsize)
offset-Lands size dsize i e lt =
    let offset : sub_ℕ (size + 1) dsize ≡ pos (size - i) = ground arith in rw offset (omega arith)

offset-IsAhead : (size dsize i : ℕ) → dsize ≡ i + 1 → i < size → IsAhead (sub_ℕ (size + 1) dsize)
offset-IsAhead size dsize i e lt =
    let offset : sub_ℕ (size + 1) dsize ≡ pos (suc (size - i - 1)) = ground arith in rw offset tt

attached-IsCode :
    (t : IrStack) (o : Option ℕ)
    → IsCode t
    → t.dangling_alt ≡ o
    → IsCode (attach_at o t)
      × ((attach_at o t).dangling_alt ≡ none)
      × (length (attach_at o t).items ≡ length t.items)
unfolding attach_at
attached-IsCode t none c e = (c, e, refl)
attached-IsCode t (some i) c e =
    let (d, lt) = c.dangles i e in
    let len : length (set_x t.items i (sub_ℕ (t.size + 1) t.dsize)) ≡ length t.items =
      length-set_x t.items i _ in
    let at_i : i < t.size = rw c.size_eq lt in
    let lands : Lands (length t.items) i (sub_ℕ (t.size + 1) t.dsize) =
      subst (λ n. Lands n i (sub_ℕ (t.size + 1) t.dsize)) c.size_eq
        (offset-Lands t.size t.dsize i d at_i) in
    (
      record {
        size_eq = c.size_eq ∙ sym len;
        lands = rw len (
            set_x-AllLand (length t.items) 0 t.items i _ c.lands
              (Lands-at (length t.items) i (0 + i) _ (omega arith) lands));
        ahead = AllAhead-But none (set_x t.items i (sub_ℕ (t.size + 1) t.dsize)) (
            set_x-AllAhead t.items i _ (subst (λ o. AheadBut o t.items) e c.ahead)
              (offset-IsAhead t.size t.dsize i d at_i));
        dangles = λ j f. cc;
      },
      refl,
      len,
    )

pub attach-IsCode :
    (t : IrStack)
    → IsCode t
    → IsCode (attach_dangling_alt t)
      × ((attach_dangling_alt t).dangling_alt ≡ none)
      × (length (attach_dangling_alt t).items ≡ length t.items)
unfolding attach_dangling_alt
attach-IsCode t c = attached-IsCode t t.dangling_alt c refl

-- An alternative in front of the open jump.
alt-AllLand :
    (l : List Inst)
    → AllLand (length l) 0 l
    → AllLand
        (suc (length (l ++ set_op_jmp (pos 0) ∷ [])))
        0
        (set_op_branch (pos 1) (pos (length l + 2)) ∷ (l ++ set_op_jmp (pos 0) ∷ []))
unfolding set_op_jmp set_op_branch
alt-AllLand l h =
    let r : List Inst = l ++ set_op_jmp (pos 0) ∷ [] in
    let len : length r ≡ length l + 1 = length-append l (set_op_jmp (pos 0) ∷ []) in
    (
      (omega arith, omega (arith, len)),
      AllLand-shift (length r) 0 (suc (length r)) 1 1 r (omega arith) (omega arith)
          (lands-append l (set_op_jmp (pos 0) ∷ []) h (omega arith, tt)),
    )

alt-AheadBut :
    (l : List Inst) (d : ℕ)
    → AllAhead l
    → AheadBut
        (some (suc (length l)))
        (set_op_branch (pos 1) (pos d) ∷ (l ++ set_op_jmp (pos 0) ∷ []))
unfolding set_op_branch
alt-AheadBut l d h = (inr tt, AheadBut-last l (set_op_jmp (pos 0)) h)

-- `a` is the target with no open jump.
alternative-IsCode :
    (a : IrStack)
    → IsCode a
    → a.dangling_alt ≡ none
    → IsCode (record a {
      items = set_op_branch (pos 1) (pos (a.size + 2)) ∷ (a.items ++ set_op_jmp (pos 0) ∷ []);
      size = a.size + 1 + 1;
      dangling_alt = some (suc (length a.items));
      dsize = a.size + 1 + 1;
    })
alternative-IsCode a c none_open = record {
  size_eq = omega (arith, length-append a.items (set_op_jmp (pos 0) ∷ []), c.size_eq);
  lands =
      subst
        (λ n.
          AllLand (suc (length (a.items ++ set_op_jmp (pos 0) ∷ []))) 0
            (set_op_branch (pos 1) (pos (n + 2)) ∷ (a.items ++ set_op_jmp (pos 0) ∷ [])))
        (sym c.size_eq) (alt-AllLand a.items c.lands);
  ahead = alt-AheadBut a.items (a.size + 2) (IsCode-IsClosed a c none_open).1;
  dangles = λ i e.
      let e' : suc (length a.items) ≡ i = some_inj e in
      (omega (arith, c.size_eq), omega (arith, length-append a.items (set_op_jmp (pos 0) ∷ [])));
}

pub alt-IsCode :
    (t : IrStack) (l : List Inst) (chained : Bool)
    → IsCode t
    → IsClosed l
    → IsCode (code_alt t l chained).0
unfolding code_alt stack_add_inst_head stack_add_inst_tail
alt-IsCode t l chained c h =
    let moved : IsCode (stack_cat_from_item t l) = rw (cat_from-put t l) (IsCode-put t l c h) in
    alternative-IsCode (attach_dangling_alt (stack_cat_from_item t l))
      (attach-IsCode (stack_cat_from_item t l) moved).0
      (attach-IsCode (stack_cat_from_item t l) moved).1
