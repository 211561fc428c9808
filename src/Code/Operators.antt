-- ===== src/Code/Operators.antt =====
-- The meaning of the operators that repeat, librxvm/vmcode.c and the switch of `process_op` in
-- librxvm/stage1.c: each appends code that runs the operand a number of times that it allows.
use librxvm.Prelude.{
  ℕ, zero, suc, ◌+◌, ◌-◌, ◌≤◌, ◌<◌, ◌≡◌, refl, sym, ◌⊎◌, ◌↔◌, Bool, true, false, List, [], ◌∷◌,
  ◌++◌, arith, length, ◌==◌, ltb, ◌&&◌, ◌||◌, if◌then◌else◌, length-append,
}
use mathlib.Core.Path.{subst}
use librxvm.Prelude.Int.{pos}
use librxvm.Inst.{Inst, set_op_branch}
use librxvm.Stack.{IrStack}
use librxvm.Err.{Result, ok, err, rxvm_badop}
use librxvm.Vmcode.{
  code_one, code_zero, code_onezero, dupe_times, optional_copies, code_rep_n, code_rep_more,
  code_rep_less, code_rep_range,
}
use librxvm.Vmcode.Closed.{IsClosed, IsClosed-append}
use librxvm.Vmcode.Blocks.{
  put, back, times, optional, code_one-put, code_zero-put, code_onezero-put, dupe_times-put,
  optional_copies-put, cat_from-put, add_head-put, put-put,
}
use librxvm.Vmcode.Keeps.{IsClosed-front, IsClosed-back, IsClosed-times, IsClosed-optional}
use librxvm.Stage1.Operator.{}
use librxvm.Code.Runs.{Means}
use librxvm.Code.Relations.{SameRel, SameRel-Seq, SameRel-trans, SameRel-refl}
use librxvm.Code.Blocks.{append-Seq}
use librxvm.Code.Repeats.{
  looped-SameRel, starred-SameRel, times-SameRel, optional-SameRel, front-Or,
}
use librxvm.Code.Counts.{
  Repeats, Plus-Repeats, Star-Repeats, Option-Repeats, UpTo-Repeats, Range-Repeats, More-Repeats,
  Next-Repeats, Repeats-SameRel,
}

-- The code that was appended runs `l` so many times as is allowed.
pub record Appends (t : IrStack) (l : List Inst) (allowed : ℕ → Type 0) (t' : IrStack)
    : Type 0 where
  pub block : List Inst
  pub appended : t' ≡ put t block
  pub closed : IsClosed block
  pub means :
      (icase multiline : Bool)
      → SameRel (Means icase multiline block) (Repeats allowed (Means icase multiline l))

-- The operator fails where only no repetition at all would be allowed.
abbrev pub IsRepeat : IrStack → List Inst → (ℕ → Type 0) → Result IrStack → Type 0
IsRepeat t l allowed (ok t') = Appends t l allowed t'
IsRepeat t l allowed (err e) = (e ≡ rxvm_badop) × ((k : ℕ) → allowed k → k ≡ 0)

pub Appends-map :
    (t : IrStack) (l : List Inst) (a b : ℕ → Type 0) (t' : IrStack)
    → ((k : ℕ) → a k ↔ b k)
    → Appends t l a t'
    → Appends t l b t'
Appends-map t l a b t' h x = record {
  block = x.block;
  appended = x.appended;
  closed = x.closed;
  means = λ icase multiline.
      SameRel-trans (x.means icase multiline) (Repeats-SameRel a b (Means icase multiline l) h);
}

IsRepeat-map :
    (t : IrStack) (l : List Inst) (a b : ℕ → Type 0) (r : Result IrStack)
    → ((k : ℕ) → a k ↔ b k)
    → IsRepeat t l a r
    → IsRepeat t l b r
IsRepeat-map t l a b (ok t') h x = Appends-map t l a b t' h x
IsRepeat-map t l a b (err e) h x = (x.0, λ k y. x.1 k ((h k).1 y))

module _ (t : IrStack) (l : List Inst) (h : IsClosed l) where
  pub one-Appends : Appends t l (λ k. 1 ≤ k) (code_one t l (length l))
  one-Appends = record {
    block = l ++ back (length l) ∷ [];
    appended = code_one-put t l (length l);
    closed = IsClosed-back l (length l) refl h;
    means = λ icase multiline.
        SameRel-trans (looped-SameRel icase multiline l h) (Plus-Repeats (Means icase multiline l));
  }

  pub zero-Appends : Appends t l (λ k. Unit {0}) (code_zero t l (length l))
  zero-Appends = record {
    block = set_op_branch (pos 1) (pos (length l + 2)) ∷ (l ++ back (length l) ∷ []);
    appended = code_zero-put t l (length l);
    closed =
        IsClosed-front (length l + 2) (l ++ back (length l) ∷ [])
          (omega (arith, length-append l (back (length l) ∷ [])))
          (IsClosed-back l (length l) refl h);
    means = λ icase multiline.
        SameRel-trans (starred-SameRel icase multiline l h)
          (Star-Repeats (Means icase multiline l));
  }

  pub onezero-Appends : Appends t l (λ k. k ≤ 1) (code_onezero t l (length l))
  onezero-Appends = record {
    block = set_op_branch (pos 1) (pos (length l + 1)) ∷ l;
    appended = code_onezero-put t l (length l);
    closed = IsClosed-front (length l + 1) l (omega arith) h;
    means = λ icase multiline.
        SameRel-trans (front-Or icase multiline (length l + 1) l refl h)
          (Option-Repeats (Means icase multiline l));
  }

  pub optional-Appends : (n : ℕ) → Appends t l (λ k. k ≤ n) (optional_copies n t l (length l))
  optional-Appends n = record {
    block = optional n l (length l);
    appended = optional_copies-put n t l (length l);
    closed = IsClosed-optional n l (length l) refl h;
    means = λ icase multiline.
        SameRel-trans (optional-SameRel icase multiline l h n)
          (UpTo-Repeats (Means icase multiline l) n);
  }

  pub rep_n-IsRepeat : (n : ℕ) → IsRepeat t l (λ k. k ≡ n) (code_rep_n t l n)
  unfolding code_rep_n
  rep_n-IsRepeat zero = (refl, λ k e. e)
  rep_n-IsRepeat (suc n) = record {
    block = times n l ++ l;
    appended = rw (dupe_times-put, cat_from-put) (put-put t (times n l) l);
    closed = IsClosed-append (times n l) l (IsClosed-times n l h) h;
    means = λ icase multiline.
        SameRel-trans (append-Seq icase multiline (times n l) l (IsClosed-times n l h) h) (
          SameRel-trans
            (SameRel-Seq (times-SameRel icase multiline l h n)
              (SameRel-refl (Means icase multiline l)))
            (Next-Repeats (Means icase multiline l) n));
  }

  pub rep_more-Appends : (n : ℕ) → Appends t l (λ k. n < k) (code_rep_more t l (suc n) (length l))
  unfolding code_rep_more
  rep_more-Appends n = record {
    block = times n l ++ (l ++ back (length l) ∷ []);
    appended =
        (let before : suc n - 1 ≡ n = omega arith in
          rw (before, dupe_times-put, cat_from-put, add_head-put, put-put (put t (times n l)) l)
            (put-put t (times n l) (l ++ back (length l) ∷ [])));
    closed =
        IsClosed-append (times n l) (l ++ back (length l) ∷ []) (IsClosed-times n l h)
          (IsClosed-back l (length l) refl h);
    means = λ icase multiline.
        SameRel-trans
          (append-Seq icase multiline (times n l) (l ++ back (length l) ∷ []) (IsClosed-times n l h)
            (IsClosed-back l (length l) refl h))
          (SameRel-trans
            (SameRel-Seq (times-SameRel icase multiline l h n) (looped-SameRel icase multiline l h))
            (More-Repeats (Means icase multiline l) n));
  }

  in_order-Appends :
      (a b : ℕ)
      → a ≤ b
      → Appends t l
          (λ k. (a ≤ k) × (k ≤ b))
          (optional_copies (b - a) (dupe_times a t l) l (length l))
  in_order-Appends a b le = record {
    block = times a l ++ optional (b - a) l (length l);
    appended =
        rw (dupe_times-put, optional_copies-put)
          (put-put t (times a l) (optional (b - a) l (length l)));
    closed =
        IsClosed-append (times a l) (optional (b - a) l (length l)) (IsClosed-times a l h)
          (IsClosed-optional (b - a) l (length l) refl h);
    means = λ icase multiline.
        SameRel-trans
          (append-Seq icase multiline (times a l) (optional (b - a) l (length l))
            (IsClosed-times a l h) (IsClosed-optional (b - a) l (length l) refl h))
          (SameRel-trans
            (SameRel-Seq (times-SameRel icase multiline l h a)
              (optional-SameRel icase multiline l h (b - a)))
            (Range-Repeats (Means icase multiline l) a b le));
  }

  if-IsRepeat :
      (allowed : ℕ → Type 0) (b : Bool) (x y : Result IrStack)
      → (b ≡ true → IsRepeat t l allowed x)
      → (b ≡ false → IsRepeat t l allowed y)
      → IsRepeat t l allowed (if b then x else y)
  if-IsRepeat allowed true x y f g = f refl
  if-IsRepeat allowed false x y f g = g refl

  pub rep_less-IsRepeat : (m : ℕ) → IsRepeat t l (λ k. k ≤ m) (code_rep_less t l m (length l))
  unfolding code_rep_less
  rep_less-IsRepeat m =
      if-IsRepeat (λ k. k ≤ m) (m == 0) _ _ (λ e. (refl, λ k le. ground arith))
        (λ e.
          if-IsRepeat (λ k. k ≤ m) (m == 1) _ _
            (λ e'.
              (let one : m ≡ 1 = ground arith in
                subst (λ v. Appends t l (λ k. k ≤ v) (code_onezero t l (length l))) (sym one)
                  onezero-Appends))
            (λ e'. optional-Appends m))

  -- Both fields are numbers, in either order.
  abbrev pub Between : ℕ → ℕ → ℕ → Type 0
  Between n m k = ((n ≤ k) × (k ≤ m)) ⊎ ((m ≤ k) × (k ≤ n))

  pub rep_range-IsRepeat :
      (n m : ℕ) → IsRepeat t l (Between n m) (code_rep_range t l n m (length l))
  unfolding code_rep_range
  rep_range-IsRepeat n m =
      if-IsRepeat (Between n m) (n == m) _ _
        (λ e.
          IsRepeat-map t l (λ k. k ≡ n) (Between n m) (code_rep_n t l n) (same e)
            (rep_n-IsRepeat n))
        (λ e.
          if-IsRepeat (Between n m) ((n == 0 && m == 1) || (n == 1 && m == 0)) _ _
            (λ e'. Appends-map t l (λ k. k ≤ 1) (Between n m) _ (zero_one e') onezero-Appends)
            (λ e'.
              if-IsRepeat (Between n m) (ltb m n) _ _
                (λ e''.
                  Appends-map t l (λ k. (m ≤ k) × (k ≤ n)) (Between n m) _ (down e'')
                    (in_order-Appends m n (ground arith)))
                (λ e''.
                  Appends-map t l (λ k. (n ≤ k) × (k ≤ m)) (Between n m) _ (up e'')
                    (in_order-Appends n m (ground arith)))))
    where
      same : (n == m) ≡ true → (k : ℕ) → (k ≡ n) ↔ Between n m k
      same e k = ground arith

      zero_one :
          ((n == 0 && m == 1) || (n == 1 && m == 0)) ≡ true → (k : ℕ) → (k ≤ 1) ↔ Between n m k
      zero_one e k = ground arith

      down : ltb m n ≡ true → (k : ℕ) → ((m ≤ k) × (k ≤ n)) ↔ Between n m k
      down e k = ground arith

      up : ltb m n ≡ false → (k : ℕ) → ((n ≤ k) × (k ≤ m)) ↔ Between n m k
      up e k = ground arith
