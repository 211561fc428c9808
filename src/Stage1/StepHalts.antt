-- ===== src/Stage1/StepHalts.antt =====
-- One token of the first stage always ends.
use librxvm.Prelude.{
  ℕ, zero, suc, ◌+◌, ◌-◌, ◌%◌, ◌≤◌, ◌<◌, ◌≡◌, ◌≢◌, inl, inr, Bool, true, false, List, [], ◌∷◌,
  Option, none, some, Outcome, done, fault, out_of_fuel, ◌==◌, ltb, leb, if◌then◌else◌, length,
  get_or, arith, Bool-cases,
}
use librxvm.Err.{Result, ok, err}
use librxvm.Inst.{Inst}
use librxvm.Strb.{Strb, strb_addc}
use librxvm.Token.{Token}
use librxvm.Stage1.Context.{stack_at, put_stack, Context, failed}
use librxvm.Stage1.Charc.{signed_order, expand_loop, expand_char_range, stage1_charc_state}
use librxvm.Stage1.Whole.{stage1_step}
use librxvm.Vmcode.{stack_cat_from_item}
use librxvm.Stage1.Main.{
  apply_behind, process_items, apply_op, process_op, stage1_main_state, is_op, split_operand,
  is_alt,
}

abbrev pub Halts {ℓ} : {A : Type ℓ} → Outcome A → Type 0
Halts (done a) = Unit {0}
Halts fault = Unit {0}
Halts out_of_fuel = ⊥

-- No character of the expression is DEL, the highest of the signed ones.
abbrev pub NoDel : List ℕ → Type 0
NoDel [] = Unit {0}
NoDel (c ∷ s) = (c < 256) × (c ≢ 127) × NoDel s

NoDel-at : (s : List ℕ) (i : ℕ) → NoDel s → signed_order (get_or s i 0) < 255
NoDel-at [] i h = omega arith
NoDel-at (c ∷ s) zero (lt, other, h) = omega (arith, lt, other)
NoDel-at (c ∷ s) (suc i) (lt, other, h) = NoDel-at s i h

added-Halts :
    (fuel rlo rhi : ℕ) (cp : Context) (r : Result Strb)
    → ((strb : Strb) → Halts (expand_loop fuel rlo rhi (record cp { strb = strb })))
    → Halts (elim r [
      | ok strb ↦ expand_loop fuel rlo rhi (record cp { strb = strb })
      | err e ↦ done (failed e cp)
    ])
added-Halts fuel rlo rhi cp (ok strb) h = h strb
added-Halts fuel rlo rhi cp (err e) h = tt

-- Short of the last character the loop comes to its end.
expand-Halts :
    (fuel rlo rhi : ℕ) (cp : Context)
    → signed_order rhi < 255
    → signed_order rlo ≤ signed_order rhi + 1
    → signed_order rhi + 1 < signed_order rlo + fuel
    → Halts (expand_loop fuel rlo rhi cp)
unfolding expand_loop
expand-Halts zero rlo rhi cp lt le h = absurd (omega arith)
expand-Halts (suc fuel) rlo rhi cp lt le h =
    elim (Bool-cases (leb (signed_order rlo) (signed_order rhi))) [
      | inr more ↦ rw (more, expand_loop) tt
      | inl in_range ↦
          let le' : signed_order rlo ≤ signed_order rhi = ground arith in
          let next : signed_order ((rlo + 1) % 256) ≡ signed_order rlo + 1 =
            omega (arith, lt, le') in
          rw (in_range, expand_loop)
            (added-Halts fuel ((rlo + 1) % 256) rhi cp (strb_addc (λ n. true) cp.strb rlo) (λ strb.
              expand-Halts fuel ((rlo + 1) % 256) rhi (record cp { strb = strb }) lt
                (omega (arith, next, le')) (omega (arith, next, h))))
    ]

ordered-Halts :
    (a b : ℕ) (cp : Context)
    → signed_order a < 255
    → signed_order b < 255
    → Halts (
        if ltb (signed_order b) (signed_order a)
        then expand_loop 257 b a cp
        else expand_loop 257 a b cp)
ordered-Halts a b cp la lb = elim (Bool-cases (ltb (signed_order b) (signed_order a))) [
  | inl lt ↦ rw lt (expand-Halts 257 b a cp la (ground arith) (omega arith))
  | inr ge ↦ rw ge (expand-Halts 257 a b cp lb (ground arith) (omega arith))
]

if-below :
    (b : Bool) (x y : ℕ)
    → signed_order x < 255
    → signed_order y < 255
    → signed_order (if b then x else y) < 255
if-below true x y h g = h
if-below false x y h g = g

range-Halts : (orig : List ℕ) (cp : Context) → NoDel orig → Halts (expand_char_range orig cp)
unfolding expand_char_range
range-Halts orig cp h =
    let lp1 : ℕ = cp.globals.lexer.lp1 in
    ordered-Halts (get_or orig lp1 0) _ cp (NoDel-at orig lp1 h) (
      if-below (get_or orig (lp1 + 2) 0 == b'\\') _ _ (NoDel-at orig (lp1 + 3) h)
        (NoDel-at orig (lp1 + 2) h))

charc-Halts :
    (orig : List ℕ) (tok : Token) (cp : Context)
    → NoDel orig
    → Halts (stage1_charc_state orig tok cp)
unfolding stage1_charc_state
charc-Halts orig Token.char_range cp h = range-Halts orig cp h
charc-Halts orig Token.literal cp h = ground arith
charc-Halts orig Token.charc_close cp h = tt
charc-Halts orig _ cp h = tt

apply-Halts :
    (orig : List ℕ) (tok : Token) (operand : List Inst) (size : ℕ) (cp : Context)
    → Halts (apply_op orig tok operand size cp)
unfolding apply_op
apply-Halts orig tok operand size cp = ground arith

behind-Halts :
    (orig : List ℕ) (tok : Token) (cp : Context) (o : Option (List Inst × List Inst))
    → Halts (apply_behind orig tok cp o)
unfolding apply_behind
behind-Halts orig tok cp none = tt
behind-Halts orig tok cp (some (front, operand)) =
    apply-Halts orig tok operand ((stack_at cp cp.buf).size - length front)
      (put_stack cp.target (stack_cat_from_item (stack_at cp cp.target) front) cp)

items-Halts :
    (orig : List ℕ) (tok : Token) (cp : Context) (items : List Inst)
    → Halts (process_items orig tok cp items)
unfolding process_items
items-Halts orig tok cp [] = elim (Bool-cases (is_alt tok)) [
  | inl alt ↦ rw alt (apply-Halts orig tok [] _ cp)
  | inr other ↦ rw other tt
]
items-Halts orig tok cp (inst ∷ items) =
    behind-Halts orig tok cp (split_operand cp.buf (inst ∷ items) cp.operand)

process-Halts : (orig : List ℕ) (tok : Token) (cp : Context) → Halts (process_op orig tok cp)
unfolding process_op
process-Halts orig tok cp = items-Halts orig tok cp (stack_at cp cp.buf).items

main-Halts : (orig : List ℕ) (tok : Token) (cp : Context) → Halts (stage1_main_state orig tok cp)
unfolding stage1_main_state
main-Halts orig tok cp = elim (Bool-cases (is_op tok)) [
  | inl op ↦ rw op (process-Halts orig tok cp)
  | inr other ↦ rw other tt
]

pub step-Halts :
    (orig : List ℕ) (charc : Bool) (tok : Token) (cp : Context)
    → NoDel orig
    → Halts (stage1_step orig charc tok cp)
unfolding stage1_step
step-Halts orig true tok cp h = charc-Halts orig tok cp h
step-Halts orig false tok cp h = main-Halts orig tok cp
