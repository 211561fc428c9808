-- ===== src/Strb/Keeps.antt =====
-- The builder stays inside its buffer and appends what it is given.
use librxvm.Prelude.{
  ℕ, zero, suc, ◌≤◌, ◌<◌, ◌≡◌, Bool, List, [], ◌∷◌, ◌++◌, arith, length, length-append, ◌==◌,
  if◌then◌else◌,
}
use librxvm.Err.{Result, ok, err, rxvm_emem}
use librxvm.Strb.{Strb, append_char}

pub record IsStrb (cfg : Strb) : Type 0 where
  pub size_eq : cfg.size ≡ length cfg.buf
  pub fits : cfg.size ≤ cfg.space
  pub block : 0 < cfg.block_size

-- The call appended `text` inside the buffer, or memory ran out.
abbrev pub Appends : Strb → List ℕ → Result Strb → Type 0
Appends cfg text (ok cfg') = IsStrb cfg' × (cfg'.buf ≡ cfg.buf ++ text)
Appends cfg text (err e) = e ≡ rxvm_emem

-- The characters of `s` that a call with length `n` reaches.
abbrev pub text_of : ℕ → List ℕ → List ℕ
text_of zero s = []
text_of (suc n) [] = []
text_of (suc n) (c ∷ s) = if c == 0 then [] else c ∷ text_of n s

length-text_of : (n : ℕ) (s : List ℕ) → length (text_of n s) ≤ n
length-text_of zero s = omega arith
length-text_of (suc n) [] = omega arith
length-text_of (suc n) (c ∷ s) = ground (arith, length-text_of n s)

module _ (alloc : ℕ → Bool) (cfg : Strb) (i : IsStrb cfg) where
  appended :
      (c : ℕ) (cfg' : Strb) → IsStrb cfg' → cfg'.size < cfg'.space → IsStrb (append_char c cfg')
  appended c cfg' j lt = record {
    size_eq = omega (arith, length-append cfg'.buf (c ∷ []), j.size_eq);
    fits = omega (arith, lt);
    block = j.block;
  }
