-- ===== src/Vmcode/Keeps.antt =====
-- Every operator keeps the target closed: its size is that of its items, every relative jump in it
-- lands inside it or right behind it, and the open jump of an alternation can be attached.
use librxvm.Prelude.{
  ℕ, zero, suc, ◌+◌, ◌-◌, ◌*◌, ◌≤◌, ◌<◌, ◌≡◌, refl, Bool, true, false, List, [], ◌∷◌, ◌++◌, some,
  none, arith, length, length-append, if◌then◌else◌, ◌==◌, ltb, ◌&&◌, ◌||◌,
}
use mathlib.Core.Path.{subst}
use librxvm.Prelude.Int.{pos}
use librxvm.Inst.{branch, Inst, set_op_branch, set_op_match}
use librxvm.Stack.{IrStack}
use librxvm.Err.{Result, ok, err, rxvm_badop}
use librxvm.Vmcode.{
  rep_in_order, code_one, code_zero, code_onezero, optional_copies, code_rep_n, code_rep_more,
  code_rep_less, code_rep_range, code_match, stack_add_inst_head,
}
use librxvm.Vmcode.Ahead.{AheadBut, AheadBut-append, AllAhead-append, But-AllAhead}
use librxvm.Vmcode.Closed.{
  AllLand, lands-append, LandsOf, IsClosed, AllLand-shift, AllLand-append, IsClosed-append,
}
use librxvm.Vmcode.Blocks.{
  put, back, times, optional, code_one-put, code_zero-put, code_onezero-put, dupe_times-put,
  optional_copies-put, cat_from-put, add_head-put, put-put,
}

pub record IsCode (t : IrStack) : Type 0 where
  pub size_eq : t.size ≡ length t.items
  pub lands : AllLand (length t.items) 0 t.items
  pub ahead : AheadBut t.dangling_alt t.items
  pub dangles : (i : ℕ) → t.dangling_alt ≡ some i → (t.dsize ≡ i + 1) × (i < length t.items)

-- Without an open jump the code is closed.
pub IsCode-IsClosed : (t : IrStack) → IsCode t → t.dangling_alt ≡ none → IsClosed t.items
IsCode-IsClosed t c e = (c.lands, But-AllAhead t.items (subst (λ o. AheadBut o t.items) e c.ahead))

pub IsCode-put : (t : IrStack) (l : List Inst) → IsCode t → IsClosed l → IsCode (put t l)
IsCode-put t l c h = record {
  size_eq = omega (arith, length-append t.items l, c.size_eq);
  lands = lands-append t.items l c.lands h.0;
  ahead = AheadBut-append t.dangling_alt t.items l c.ahead h.1;
  dangles = λ i e. ((c.dangles i e).0, omega (arith, length-append t.items l, (c.dangles i e).1));
}

-- The match instruction is counted.
pub code_match-size : (c : IrStack) → IsCode c → (code_match c).size ≡ length (code_match c).items
unfolding code_match stack_add_inst_head
code_match-size c h = omega (arith, h.size_eq, length-append c.items (set_op_match ∷ []))

-- A branch in front of closed code.
pub IsClosed-front :
    (d : ℕ) (l : List Inst)
    → d ≤ length l + 1
    → IsClosed l
    → IsClosed (set_op_branch (pos 1) (pos d) ∷ l)
unfolding set_op_branch
IsClosed-front d l le h = (
  (
    (omega arith, omega arith),
    AllLand-shift (length l) 0 (suc (length l)) 1 1 l (omega arith) (omega arith) h.0,
  ),
  (tt, h.1),
)

back-Lands : (s n k : ℕ) → s ≤ k → k + 1 ≤ n → LandsOf n k (back s) branch
unfolding set_op_branch
back-Lands zero n k le lt = (omega arith, omega arith)
back-Lands (suc s) n k le lt = (omega arith, omega arith)

-- The branch back behind closed code.
pub IsClosed-back :
    (l : List Inst) (s : ℕ) → length l ≡ s → IsClosed l → IsClosed (l ++ back s ∷ [])
unfolding set_op_branch
IsClosed-back l s e h =
    let len : length (l ++ back s ∷ []) ≡ length l + 1 = length-append l (back s ∷ []) in
    (
      AllLand-append (length (l ++ back s ∷ [])) 0 (length l) l (back s ∷ []) (omega arith)
          (AllLand-shift (length l) 0 (length (l ++ back s ∷ [])) 0 0 l (omega arith) (omega arith)
            h.0)
          (back-Lands s (length (l ++ back s ∷ [])) (length l) (omega arith) (omega arith), tt),
      AllAhead-append l (back s ∷ []) h.1 (tt, tt),
    )

length-times : (n : ℕ) (l : List Inst) → length (times n l) ≡ n * length l
length-times zero l = omega arith
length-times (suc n) l = omega (arith, length-append l (times n l), length-times n l)

pub IsClosed-times : (n : ℕ) (l : List Inst) → IsClosed l → IsClosed (times n l)
IsClosed-times zero l h = (tt, tt)
IsClosed-times (suc n) l h = IsClosed-append l (times n l) h (IsClosed-times n l h)

pub length-optional :
    (k : ℕ) (l : List Inst) (s : ℕ) → length l ≡ s → length (optional k l s) ≡ (s + 1) * k
length-optional zero l s e = omega arith
length-optional (suc k) l s e =
    omega (arith, length-append l (optional k l s), length-optional k l s e)

pub IsClosed-optional :
    (k : ℕ) (l : List Inst) (s : ℕ) → length l ≡ s → IsClosed l → IsClosed (optional k l s)
IsClosed-optional zero l s e h = (tt, tt)
IsClosed-optional (suc k) l s e h =
    IsClosed-front ((s + 1) * suc k) (l ++ optional k l s)
      (omega (arith, length-append l (optional k l s), length-optional k l s e))
      (IsClosed-append l (optional k l s) h (IsClosed-optional k l s e h))

-- What a code generator that may fail leaves behind.
abbrev pub KeepsCode : Result IrStack → Type 0
KeepsCode (ok t) = IsCode t
KeepsCode (err e) = e ≡ rxvm_badop

if-KeepsCode :
    (b : Bool) (x y : Result IrStack) → KeepsCode x → KeepsCode y → KeepsCode (if b then x else y)
if-KeepsCode true x y h g = h
if-KeepsCode false x y h g = g

module _ (t : IrStack) (l : List Inst) (c : IsCode t) (h : IsClosed l) where
  pub rep_n-KeepsCode : (n : ℕ) → KeepsCode (code_rep_n t l n)
  unfolding code_rep_n
  rep_n-KeepsCode zero = refl
  rep_n-KeepsCode (suc n) =
      rw (dupe_times-put, cat_from-put)
        (IsCode-put _ l (IsCode-put t (times n l) c (IsClosed-times n l h)) h)

  module _ (s : ℕ) (e : length l ≡ s) where
    pub one-IsCode : IsCode (code_one t l s)
    one-IsCode = rw code_one-put (IsCode-put t _ c (IsClosed-back l s e h))

    pub zero-IsCode : IsCode (code_zero t l s)
    zero-IsCode = rw code_zero-put (
        IsCode-put t _ c (
          IsClosed-front (s + 2) (l ++ back s ∷ []) (omega (arith, length-append l (back s ∷ [])))
            (IsClosed-back l s e h)))

    pub onezero-IsCode : IsCode (code_onezero t l s)
    onezero-IsCode =
        rw code_onezero-put (IsCode-put t _ c (IsClosed-front (s + 1) l (omega arith) h))

    pub rep_more-IsCode : (n : ℕ) → IsCode (code_rep_more t l n s)
    unfolding code_rep_more
    rep_more-IsCode n =
        rw (dupe_times-put, cat_from-put, add_head-put, put-put (put t (times (n - 1) l)) l)
          (IsCode-put (put t (times (n - 1) l)) (l ++ back s ∷ [])
            (IsCode-put t (times (n - 1) l) c (IsClosed-times (n - 1) l h)) (IsClosed-back l s e h))

    optional-IsCode : (k : ℕ) → IsCode (optional_copies k t l s)
    optional-IsCode k = rw optional_copies-put (IsCode-put t _ c (IsClosed-optional k l s e h))

    pub rep_less-KeepsCode : (m : ℕ) → KeepsCode (code_rep_less t l m s)
    unfolding code_rep_less
    rep_less-KeepsCode m =
        if-KeepsCode (m == 0) _ _ refl
          (if-KeepsCode (m == 1) _ _ onezero-IsCode (optional-IsCode m))

module _ (t : IrStack) (l : List Inst) (c : IsCode t) (h : IsClosed l) (s : ℕ)
    (e : length l ≡ s) where
  in_order-KeepsCode : (lo hi : ℕ) → KeepsCode (rep_in_order t l lo hi s)
  in_order-KeepsCode lo hi = rw dupe_times-put (
      optional-IsCode (put t (times lo l)) l (IsCode-put t _ c (IsClosed-times lo l h)) h s e
        (hi - lo))

  pub rep_range-KeepsCode : (n m : ℕ) → KeepsCode (code_rep_range t l n m s)
  unfolding code_rep_range
  rep_range-KeepsCode n m = if-KeepsCode (n == m) _ _ (rep_n-KeepsCode t l c h n) (
      if-KeepsCode ((n == 0 && m == 1) || (n == 1 && m == 0)) _ _ (onezero-IsCode t l c h s e)
        (if-KeepsCode (ltb m n) _ _ (in_order-KeepsCode m n) (in_order-KeepsCode n m)))
