-- ===== src/Stage2/Chains.antt =====
-- The loops of `optimise_chains`, librxvm/stage2.c: each chain is followed to its end, and each of its
-- jumps is set to where the last one leads.
use librxvm.Prelude.{
  ℕ, zero, suc, ◌+◌, ◌-◌, ◌<◌, ◌≡◌, refl, sym, ◌∙◌, ap, ◌⊎◌, inl, inr, Bool, true, false,
  Bool-cases, List, [], ◌∷◌, ◌++◌, some, Outcome, done, arith, length, get_elem?, get_elem?-some,
  set, replicate, not, ◌&&◌, get_or,
}
use mathlib.Core.Path.{subst}
use librxvm.Prelude.Int.{pos}
use librxvm.Inst.{Op, jmp, Inst, Program}
use librxvm.Vmcode.{set_x}
use librxvm.Stage2.{
  is_jmp, inst_at, follow_chain, last_of, set_chain, optimise_chain, starts_chain, optimise_from,
  optimise_chains,
}
use librxvm.Stage2.Jumps.{JmpTo, Jumps, last, IsForward, JmpTo-lt, Jumps-append}
use librxvm.Stage2.Shortens.{Shortens, same, cut, Shortens-append, Shortens-IsForward, set_x-Jumps}

pub is_jmp-jmp : (op : Op) → is_jmp op ≡ true → op ≡ jmp
is_jmp-jmp jmp e = refl
is_jmp-jmp _ e = absurd (cc)

-- Each index saved is `m`, or leads there by jumps.
abbrev AllTo : Program → ℕ → List ℕ → Type 0
AllTo exe m [] = Unit {0}
AllTo exe m (k ∷ chain) = ((k ≡ m) ⊎ Jumps exe k m) × AllTo exe m chain

abbrev AllJump : Program → ℕ → List ℕ → Type 0
AllJump exe e [] = Unit {0}
AllJump exe e (k ∷ chain) = Jumps exe k e × AllJump exe e chain

-- One more jump is saved.
AllTo-next :
    (exe : Program) (m j : ℕ) (chain : List ℕ)
    → JmpTo exe m j
    → AllTo exe m chain
    → AllTo exe j (chain ++ j ∷ [])
AllTo-next exe m j [] t h = (inl refl, tt)
AllTo-next exe m j (k ∷ chain) t h = (
  elim h.0 [
    | inl e ↦ inr (last (subst (λ v. JmpTo exe v j) (sym e) t))
    | inr p ↦ inr (Jumps-append p (last t))
  ],
  AllTo-next exe m j chain t h.1,
)

AllTo-AllJump :
    (exe : Program) (m e : ℕ) (chain : List ℕ)
    → JmpTo exe m e
    → AllTo exe m chain
    → AllJump exe e chain
AllTo-AllJump exe m e [] t h = tt
AllTo-AllJump exe m e (k ∷ chain) t h = (
  elim h.0 [
    | inl q ↦ last (subst (λ v. JmpTo exe v e) (sym q) t)
    | inr p ↦ Jumps-append p (last t)
  ],
  AllTo-AllJump exe m e chain t h.1,
)

AllJump-set :
    (exe : Program) (k e : ℕ) (chain : List ℕ)
    → Jumps exe k e
    → AllJump exe e chain
    → AllJump (set_x exe k (pos e)) e chain
AllJump-set exe k e [] p h = tt
AllJump-set exe k e (i ∷ chain) p h = (set_x-Jumps p h.0, AllJump-set exe k e chain p h.1)

set_chain-Shortens :
    (exe : Program) (e : ℕ) (chain : List ℕ)
    → AllJump exe e chain
    → Shortens exe (set_chain exe chain (pos e))
unfolding set_chain
set_chain-Shortens exe e [] h = same
set_chain-Shortens exe e (k ∷ chain) h =
    cut h.0 (set_chain-Shortens (set_x exe k (pos e)) e chain (AllJump-set exe k e chain h.0 h.1))

last_of-concat : (d : ℕ) (chain : List ℕ) (j : ℕ) → last_of d (chain ++ j ∷ []) ≡ j
last_of-concat d [] j = refl
last_of-concat d (i ∷ chain) j = last_of-concat i chain j

-- What following a chain from `ix` ends in: every jump saved leads to where the last one does.
record Follows (exe : Program) (ix : ℕ) (o : Outcome (List ℕ × List Bool)) : Type 0 where
  result : List ℕ × List Bool
  m : ℕ
  e : ℕ
  ends : o ≡ done result
  jump : JmpTo exe m e
  is_last : last_of ix result.0 ≡ m
  to_last : AllTo exe m result.0

module _ (exe : Program) (m j : ℕ) (t : JmpTo exe m j) (next : Inst)
    (found : get_elem? exe j ≡ some next) (chain : List ℕ) (lookup : List Bool) where
  follows_on :
      (fuel : ℕ)
      → is_jmp next.op ≡ true
      → follow_chain (suc fuel) exe t.inst chain lookup
        ≡ follow_chain fuel exe next (chain ++ j ∷ []) (set lookup j true)
  unfolding follow_chain inst_at
  follows_on fuel e = rw (follow_chain, t.jumps, t.target, inst_at, found, t.target, e) refl

  stops :
      (fuel : ℕ)
      → is_jmp next.op ≡ false
      → follow_chain (suc (suc fuel)) exe t.inst chain lookup ≡ done (chain, lookup)
  unfolding follow_chain inst_at
  stops fuel e =
      rw (follow_chain, t.jumps, t.target, inst_at, found, t.target, e, follow_chain, e) refl

-- There is fuel for the jumps that are left, since they lead forward.
follow_chain-Follows :
    (fuel : ℕ) (exe : Program) (ix m j : ℕ) (t : JmpTo exe m j) (chain : List ℕ)
    (lookup : List Bool)
    → IsForward exe
    → length exe < m + fuel
    → last_of ix chain ≡ m
    → AllTo exe m chain
    → Follows exe ix (follow_chain fuel exe t.inst chain lookup)
follow_chain-Follows zero exe ix m j t chain lookup f lt l h =
    absurd (omega (arith, (JmpTo-lt exe m j f t)))
follow_chain-Follows (suc fuel) exe ix m j t chain lookup f lt l h =
    let (above, below) = JmpTo-lt exe m j f t in
    let (next, found) = get_elem?-some exe j below in
    elim (Bool-cases (is_jmp next.op)) [
      | inl e ↦
          let (i, x, _, _) = f.ahead j next found (is_jmp-jmp next.op e) in
          let t' : JmpTo exe j i = record {
            inst = next;
            found = found;
            jumps = is_jmp-jmp next.op e;
            target = x;
          } in
          let r =
            follow_chain-Follows fuel exe ix j i t' (chain ++ j ∷ []) (set lookup j true) f
              (omega arith) (last_of-concat ix chain j) (AllTo-next exe m j chain t h) in
          rw (follows_on exe m j t next found chain lookup fuel e) r
      | inr e ↦
          let left : fuel ≡ suc (fuel - 1) = omega arith in
          record {
            result = (chain, lookup);
            m = m;
            e = j;
            ends = rw left (stops exe m j t next found chain lookup (fuel - 1) e);
            jump = t;
            is_last = l;
            to_last = h;
          }
    ]

optimise_chain-sets :
    (exe : Program) (lookup : List Bool) (ix j m e : ℕ) (r : List ℕ × List Bool)
    (t : JmpTo exe ix j) (u : JmpTo exe m e)
    → follow_chain (length exe + 1) exe t.inst (ix ∷ []) (set lookup ix true) ≡ done r
    → last_of ix r.0 ≡ m
    → optimise_chain exe lookup ix ≡ done (set_chain exe r.0 (pos e), r.1)
unfolding optimise_chain inst_at
optimise_chain-sets exe lookup ix j m e r t u ends l =
    rw (optimise_chain, inst_at, t.found, ends, l, inst_at, u.found, u.target) refl

optimise_chain-Shortens :
    (exe : Program) (lookup : List Bool) (ix j : ℕ)
    → IsForward exe
    → JmpTo exe ix j
    → (r : Program × List Bool) × (optimise_chain exe lookup ix ≡ done r) × Shortens exe r.0
optimise_chain-Shortens exe lookup ix j f t =
    let r =
      follow_chain-Follows (length exe + 1) exe ix ix j t (ix ∷ []) (set lookup ix true) f
        (omega (arith, JmpTo-lt exe ix j f t)) refl (inl refl, tt) in
    (
      (set_chain exe r.result.0 (pos r.e), r.result.1),
      optimise_chain-sets exe lookup ix j r.m r.e r.result t r.jump r.ends r.is_last,
      set_chain-Shortens exe r.e r.result.0 (AllTo-AllJump exe r.m r.e r.result.0 r.jump r.to_last),
    )

starts_chain-jmp :
    (exe : Program) (lookup : List Bool) (i j : ℕ) (t : JmpTo exe i j) (next : Inst)
    → get_elem? exe j ≡ some next
    → starts_chain exe lookup i t.inst ≡ done (is_jmp next.op && not (get_or lookup i false))
unfolding starts_chain inst_at
starts_chain-jmp exe lookup i j t next found =
    rw (starts_chain, t.jumps, t.target, inst_at, found) refl

starts_chain-other :
    (exe : Program) (lookup : List Bool) (i : ℕ) (inst : Inst)
    → is_jmp inst.op ≡ false
    → starts_chain exe lookup i inst ≡ done false
unfolding starts_chain
starts_chain-other exe lookup i inst e = rw (starts_chain, e) refl

forward-JmpTo :
    (exe : Program) (i : ℕ) (inst : Inst)
    → IsForward exe
    → get_elem? exe i ≡ some inst
    → inst.op ≡ jmp
    → (j : ℕ) × (t : JmpTo exe i j) × (t.inst ≡ inst) × (j < length exe)
forward-JmpTo exe i inst f g op =
    let (j, x, lt, below) = f.ahead i inst g op in
    (j, record { inst = inst; found = g; jumps = op; target = x }, refl, below)

-- The test at index `i` is decided, and only holds at a jump.
starts_chain-done :
    (exe : Program) (lookup : List Bool) (i : ℕ) (inst : Inst)
    → IsForward exe
    → get_elem? exe i ≡ some inst
    → (b : Bool) × (starts_chain exe lookup i inst ≡ done b) × (b ≡ true → (j : ℕ) × JmpTo exe i j)
starts_chain-done exe lookup i inst f g = elim (Bool-cases (is_jmp inst.op)) [
  | inl e ↦
      let (j, t, kept, below) = forward-JmpTo exe i inst f g (is_jmp-jmp inst.op e) in
      let (next, found) = get_elem?-some exe j below in
      (
        is_jmp next.op && not (get_or lookup i false),
        ap (starts_chain exe lookup i) (sym kept) ∙ starts_chain-jmp exe lookup i j t next found,
        λ z. (j, t),
      )
  | inr e ↦ (false, starts_chain-other exe lookup i inst e, λ z. absurd (cc))
]

-- A round of the loop.
module _ (n i : ℕ) (exe : Program) (lookup : List Bool) (inst : Inst)
    (found : get_elem? exe i ≡ some inst) where
  round_skips :
      starts_chain exe lookup i inst ≡ done false
      → optimise_from (suc n) i exe lookup ≡ optimise_from n (i + 1) exe lookup
  unfolding optimise_from inst_at
  round_skips e = rw (optimise_from, inst_at, found, e) refl

  round_sets :
      (r : Program × List Bool)
      → starts_chain exe lookup i inst ≡ done true
      → optimise_chain exe lookup i ≡ done r
      → optimise_from (suc n) i exe lookup ≡ optimise_from n (i + 1) r.0 r.1
  unfolding optimise_from inst_at
  round_sets r e e' = rw (optimise_from, inst_at, found, e, e') refl

optimise_from-Shortens :
    (n i : ℕ) (exe : Program) (lookup : List Bool)
    → IsForward exe
    → i + n < length exe
    → (out : Program) × (optimise_from n i exe lookup ≡ done out) × Shortens exe out
unfolding optimise_from
optimise_from-Shortens zero i exe lookup f le = (exe, refl, same)
optimise_from-Shortens (suc n) i exe lookup f le =
    let (inst, found) = get_elem?-some exe i (omega arith) in
    let (b, starts, jumps) = starts_chain-done exe lookup i inst f found in
    elim (Bool-cases b) [
      | inr e ↦
          let (out, eq, s) = optimise_from-Shortens n (i + 1) exe lookup f (omega arith) in
          (out, round_skips n i exe lookup inst found (starts ∙ ap done e) ∙ eq, s)
      | inl e ↦
          let (j, t) = jumps e in
          let (r, chain, s) = optimise_chain-Shortens exe lookup i j f t in
          let (g, len) = Shortens-IsForward f s in
          let (out, eq, s') = optimise_from-Shortens n (i + 1) r.0 r.1 g (omega arith) in
          (
            out,
            round_sets n i exe lookup inst found r (starts ∙ ap done e) chain ∙ eq,
            Shortens-append s s',
          )
    ]

-- For a program whose jumps lead forward, the loop ends with enough fuel, makes no access outside
-- the program, and only sets jumps to where jumps lead from them.
pub optimise_chains-Shortens :
    (exe : Program)
    → IsForward exe
    → (out : Program) × (optimise_chains exe ≡ done out) × Shortens exe out
unfolding optimise_chains
optimise_chains-Shortens exe f =
    optimise_from-Shortens (length exe - 1) 0 exe (replicate (length exe) false) f
      (omega (arith, f.formed.entry))
