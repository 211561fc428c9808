-- ===== src/Code/Accepts.antt =====
-- What the program of closed code accepts, librxvm/stage2.c and librxvm/vm.c: a text that the code can
-- be run through.
use librxvm.Prelude.{
  ℕ, zero, suc, ◌+◌, ◌-◌, ◌≤◌, ◌<◌, ◌≡◌, refl, sym, ◌∙◌, ap, ◌⊎◌, inl, inr, ◌↔◌, Bool, List, [],
  ◌∷◌, ◌++◌, some, arith, length, get_elem?, get_elem?-lt, get_elem?-concat, get_elem?-append_left,
  some_inj, length-append,
}
use mathlib.Core.Path.{subst}
use librxvm.Inst.{
  Op, char, any, class, nclass, branch, jmp, sol, eol, match, Inst, Program, set_op_match,
}
use librxvm.Vm.Spec.{EpsOf, ReadsOf, Accepts, halt, move, eat, at_sol, at_eol}
use librxvm.Vmcode.Closed.{LandsOf, IsClosed}
use librxvm.Stage2.{relocate_op, copy_items}
use librxvm.Stage2.Relocate.{relocate-op}
use librxvm.Code.Runs.{Place, behind, HopOf, Hop, Goes, stay, hop, Through, Means}
use librxvm.Code.Split.{Inside-front, IsClosed-at, Goes-embed, Goes-at, Goes-Split}

get_elem?-copied :
    (k i j : ℕ) (l : List Inst) (inst : Inst)
    → j ≡ k + i
    → get_elem? l i ≡ some inst
    → get_elem? (copy_items k l) i ≡ some (relocate_op inst.op j inst)
unfolding copy_items
get_elem?-copied k i j [] inst e g = absurd (cc)
get_elem?-copied k zero j (x ∷ l) inst e g =
    let same : k ≡ j = omega arith in
    subst (λ v. some (relocate_op x.op k x) ≡ some (relocate_op x.op v x)) same refl
    ∙ ap (λ (v : Inst). some (relocate_op v.op j v)) (some_inj g)
get_elem?-copied k (suc i) j (x ∷ l) inst e g = get_elem?-copied (k + 1) i j l inst (omega arith) g

copied-get_elem? :
    (k i j : ℕ) (l : List Inst) (v : Inst)
    → j ≡ k + i
    → get_elem? (copy_items k l) i ≡ some v
    → (inst : Inst) × (get_elem? l i ≡ some inst) × (relocate_op inst.op j inst ≡ v)
unfolding copy_items
copied-get_elem? k i j [] v e g = absurd (cc)
copied-get_elem? k zero j (x ∷ l) v e g =
    let same : k ≡ j = omega arith in
    (x, refl, subst (λ n. relocate_op x.op n x ≡ v) same (some_inj g))
copied-get_elem? k (suc i) j (x ∷ l) v e g = copied-get_elem? (k + 1) i j l v (omega arith) g

ReadsOf-relocate :
    (op : Op) (icase : Bool) (c i j : ℕ) (inst : Inst)
    → ReadsOf op icase c i (relocate_op op i inst) j ↔ ReadsOf op icase c i inst j
ReadsOf-relocate char icase c i j inst = (λ h. h, λ h. h)
ReadsOf-relocate any icase c i j inst = (λ h. h, λ h. h)
ReadsOf-relocate class icase c i j inst = (λ h. h, λ h. h)
ReadsOf-relocate nclass icase c i j inst = (λ h. h, λ h. h)
ReadsOf-relocate branch icase c i j inst = (λ h. h, λ h. h)
ReadsOf-relocate jmp icase c i j inst = (λ h. h, λ h. h)
ReadsOf-relocate sol icase c i j inst = (λ h. h, λ h. h)
ReadsOf-relocate eol icase c i j inst = (λ h. h, λ h. h)
ReadsOf-relocate match icase c i j inst = (λ h. h, λ h. h)

-- The text between two places has `k` characters.
abbrev pub Consumes : Place → ℕ → Place → Type 0
Consumes p k q = k + length q.rest ≡ length p.rest

match-HopOf :
    (icase multiline : Bool) (i j : ℕ) (p q : Place)
    → HopOf icase multiline i set_op_match p j q
    → ⊥
unfolding set_op_match
match-HopOf icase multiline i j p q (inl (h, e)) = h
match-HopOf icase multiline i j p q (inr (c, s, e, h, f)) = h

match-op : (i : ℕ) → (relocate_op set_op_match.op i set_op_match).op ≡ match
unfolding set_op_match
match-op i = refl

match-LandsOf : (n i : ℕ) (inst : Inst) (op : Op) → op ≡ match → LandsOf n i inst op → ⊥
match-LandsOf n i inst op e = rw e (λ h. h)

before_or_at : (i n : ℕ) → i < n + 1 → (i < n) ⊎ (i ≡ n)
before_or_at i n lt = ground arith

-- A run never goes back in the text.
Goes-shorter :
    (icase multiline : Bool) {l : List Inst} {n i k : ℕ} {p q : Place}
    → Goes icase multiline l n i p k q
    → length q.rest ≤ length p.rest
Goes-shorter icase multiline stay = omega arith
Goes-shorter icase multiline {p = p} (hop {r = r} h g) = elim h.goes [
  | inl (e, same) ↦
      let len : length r.rest ≡ length p.rest = ap (λ (v : Place). length v.rest) same in
      omega (arith, len, Goes-shorter icase multiline g)
  | inr (c, s, f, e, same) ↦
      let len : length r.rest ≡ length s = ap (λ (v : Place). length v.rest) same in
      let all : length p.rest ≡ suc (length s) = ap length f in
      omega (arith, len, all, Goes-shorter icase multiline g)
]

module _ (l : List Inst) (closed : IsClosed l) where
  abbrev big : List Inst
  big = l ++ set_op_match ∷ []

  exe : Program
  exe = copy_items 0 big

  at_match : get_elem? big (length l) ≡ some set_op_match
  at_match = get_elem?-concat l set_op_match

  -- Closed code has no match instruction of its own.
  match-end : (i : ℕ) (inst : Inst) → get_elem? big i ≡ some inst → inst.op ≡ match → i ≡ length l
  match-end i inst g e =
      elim (before_or_at i (length l)
        (omega (arith, get_elem?-lt big i g, length-append l (set_op_match ∷ [])))) [
          | inl lt ↦
              let own : get_elem? l i ≡ some inst =
                sym (get_elem?-append_left l (set_op_match ∷ []) i lt) ∙ g in
              absurd (match-LandsOf (length l) i inst inst.op e (IsClosed-at l i inst closed own))
          | inr eq ↦ eq
        ]

  module _ (icase multiline : Bool) where
    match-no_hop : {j : ℕ} {p q : Place} → Hop icase multiline big (length l) p j q → ⊥
    match-no_hop {j} {p} {q} h = match-HopOf icase multiline (length l) j p q (
        subst (λ v. HopOf icase multiline (length l) v p j q) (some_inj (sym h.found ∙ at_match))
          h.goes)

    stays : {n m k : ℕ} {p q : Place} → m ≡ length l → Goes icase multiline big n m p k q → p ≡ q
    stays e stay = refl
    stays {p = p} e (hop {j = j} {r = r} h g) =
        absurd (match-no_hop (subst (λ v. Hop icase multiline big v p j r) e h))

    -- An accepting run of the program is a run through the code.
    Accepts-Through :
        {i k : ℕ} {first : Bool} {last : ℕ} {s : List ℕ}
        → Accepts exe icase multiline i first last s k
        → (q : Place) × Through icase multiline big i
            (record { first = first; last = last; rest = s })
            (length l)
            q
          × Consumes (record { first = first; last = last; rest = s }) k q
    unfolding exe
    Accepts-Through {i} {k} {first} {last} {s} (halt m e) =
        let (inst, g, r) = copied-get_elem? 0 i i big m.inst (omega arith) m.found in
        let op : inst.op ≡ match =
          sym (relocate-op inst.op i inst) ∙ ap (λ (v : Inst). v.op) r ∙ m.ends in
        (
          record { first = first; last = last; rest = s },
          (0, Goes-at icase multiline refl (match-end i inst g op) stay),
          omega arith,
        )
    Accepts-Through {i} {k} {first} {last} {s} (move {j = j} m a) =
        let (inst, g, r) = copied-get_elem? 0 i i big m.inst (omega arith) m.found in
        let (q, (n, t), c) = Accepts-Through a in
        (
          q,
          (
            suc n,
            hop
                (record {
                  inst = inst;
                  found = g;
                  goes = inl (
                    subst
                        (λ v.
                          EpsOf v (at_sol multiline first last) (at_eol multiline s) i
                            (relocate_op inst.op i inst) j)
                        (relocate-op inst.op i inst)
                        (subst
                          (λ (v : Inst).
                            EpsOf v.op (at_sol multiline first last) (at_eol multiline s) i v j)
                          (sym r) m.goes),
                    refl,
                  );
                })
                t,
          ),
          c,
        )
    Accepts-Through {i} {k} {first} {last} {s} (eat {j = j} {c = c} {s = rest} d a) =
        let (inst, g, r) = copied-get_elem? 0 i i big d.inst (omega arith) d.found in
        let (q, (n, t), e) = Accepts-Through a in
        (
          q,
          (
            suc n,
            hop
                (record {
                  inst = inst;
                  found = g;
                  goes = inr (
                    c,
                    rest,
                    refl,
                    (ReadsOf-relocate inst.op icase c i j inst).0 (
                        subst (λ v. ReadsOf v icase c i (relocate_op inst.op i inst) j)
                          (relocate-op inst.op i inst)
                          (subst (λ (v : Inst). ReadsOf v.op icase c i v j) (sym r) d.goes)),
                    refl,
                  );
                })
                t,
          ),
          omega arith,
        )

    -- A run through the code is an accepting run of the program.
    Through-Accepts :
        {n i m k : ℕ} {p q : Place}
        → m ≡ length l
        → Consumes p k q
        → Goes icase multiline big n i p m q
        → Accepts exe icase multiline i p.first p.last p.rest k
    unfolding exe
    Through-Accepts {i = i} {k = k} e c stay =
        halt
          (record {
            inst = relocate_op set_op_match.op i set_op_match;
            found =
                get_elem?-copied 0 i i big set_op_match (omega arith)
                  (ap (get_elem? big) e ∙ at_match);
            ends = match-op i;
          })
          (omega arith)
    Through-Accepts {i = i} {m = m} {k = k} {p = p} {q = q} e c (hop {n = n} {j = j} {r = r} h g) =
        elim h.goes [
          | inl (goes, same) ↦
              move
                (record {
                  inst = relocate_op h.inst.op i h.inst;
                  found = get_elem?-copied 0 i i big h.inst (omega arith) h.found;
                  goes =
                      subst
                        (λ v.
                          EpsOf v (at_sol multiline p.first p.last) (at_eol multiline p.rest) i
                            (relocate_op h.inst.op i h.inst) j)
                        (sym (relocate-op h.inst.op i h.inst)) goes;
                })
                (subst (λ v. Accepts exe icase multiline j v.first v.last v.rest k) same
                  (Through-Accepts e (subst (λ v. Consumes v k q) (sym same) c) g))
          | inr (x, s, f, goes, same) ↦
              let left =
                Goes-shorter icase multiline
                  (subst (λ v. Goes icase multiline big n j v m q) same g) in
              let len : length p.rest ≡ suc (length s) = ap length f in
              let more : suc (k - 1) ≡ k = omega (arith, c, left, len) in
              let fewer : Consumes (behind x s) (k - 1) q = omega (arith, c, left, len) in
              subst (λ v. Accepts exe icase multiline i p.first p.last p.rest v) more
                (subst (λ v. Accepts exe icase multiline i p.first p.last v (suc (k - 1))) (sym f)
                  (eat
                    (record {
                      inst = relocate_op h.inst.op i h.inst;
                      found = get_elem?-copied 0 i i big h.inst (omega arith) h.found;
                      goes =
                          subst (λ v. ReadsOf v icase x i (relocate_op h.inst.op i h.inst) j)
                            (sym (relocate-op h.inst.op i h.inst))
                            ((ReadsOf-relocate h.inst.op icase x i j h.inst).1 goes);
                    })
                    (subst (λ v. Accepts exe icase multiline j v.first v.last v.rest (k - 1)) same
                      (Through-Accepts e (subst (λ v. Consumes v (k - 1) q) (sym same) fewer) g))))
        ]

    -- With the match instruction behind it, closed code accepts the first `k` characters of a text
    -- from its start exactly when it can be run through to its end at the place behind them.
    pub copied-Accepts :
        (first : Bool) (last : ℕ) (s : List ℕ) (k : ℕ)
        → Accepts (copy_items 0 (l ++ set_op_match ∷ [])) icase multiline 0 first last s k ↔ (
            (q : Place) × Means icase multiline l
              (record { first = first; last = last; rest = s })
              q
            × Consumes (record { first = first; last = last; rest = s }) k q)
    unfolding exe
    copied-Accepts first last s k = (
      λ a.
          (let (q, (n, g), c) = Accepts-Through a in
            let t =
              Goes-Split icase multiline big 0 l (Inside-front l (set_op_match ∷ [])) {i = 0} closed
                (omega arith) (omega arith) (inr (omega arith)) g in
            (
              q,
              subst
                  (λ v. Means icase multiline l (record { first = first; last = last; rest = s }) v)
                  (stays (omega arith) t.outer) t.inner,
              c,
            )),
      λ (q, (n, g), c). Through-Accepts refl c (
          Goes-at icase multiline (omega arith) (omega arith)
            (Goes-embed icase multiline big 0 l (Inside-front l (set_op_match ∷ [])) g)),
    )
