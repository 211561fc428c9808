-- ===== src/Vm/Spec.antt =====
-- What the instructions of a program mean, with no queues: which index a thread may go to without
-- reading, which after reading a character, and when a program accepts a text.
use librxvm.Prelude.{
  ℕ, ◌+◌, suc, ◌<◌, ◌≡◌, ◌⊎◌, ◌≢◌, Bool, true, false, ◌&&◌, List, [], ◌∷◌, some, ◌==◌,
  if◌then◌else◌, length, get_elem?,
}
use librxvm.Prelude.Int.{ℤ, pos, negsuc}
use librxvm.Inst.{Op, char, any, class, nclass, branch, jmp, sol, eol, match, Inst, Program}
use librxvm.Vm.{char_match, ccs_match}

-- What an instruction asks of the program of `n` instructions that it stands in, at index `i`.
abbrev pub Target : ℕ → ℤ → Type 0
Target n (pos k) = k < n
Target n (negsuc k) = ⊥

abbrev pub HasClass : Inst → Type 0
HasClass inst = (ccs : List ℕ) × (inst.ccs ≡ some ccs)

abbrev pub Fits : ℕ → ℕ → Inst → Op → Type 0
Fits n i inst branch = Target n inst.x × Target n inst.y
Fits n i inst jmp = Target n inst.x
Fits n i inst match = Unit {0}
Fits n i inst class = (i + 1 < n) × HasClass inst
Fits n i inst nclass = (i + 1 < n) × HasClass inst
Fits n i inst _ = i + 1 < n

-- Every jump stays inside the program, and no other instruction than a match is the last.
pub record IsWellFormed (exe : Program) : Type 0 where
  pub entry : 0 < length exe
  pub fits : (i : ℕ) (inst : Inst) → get_elem? exe i ≡ some inst → Fits (length exe) i inst inst.op

-- An instruction at `i` sends its thread to `j` without reading; `s` and `e` say whether `^` and
-- `$` hold here.
abbrev pub EpsOf : Op → Bool → Bool → ℕ → Inst → ℕ → Type 0
EpsOf jmp s e i inst j = inst.x ≡ pos j
EpsOf branch s e i inst j = (inst.x ≡ pos j) ⊎ (inst.y ≡ pos j)
EpsOf sol s e i inst j = (s ≡ true) × (j ≡ i + 1)
EpsOf eol s e i inst j = (e ≡ true) × (j ≡ i + 1)
EpsOf _ s e i inst j = ⊥

-- An instruction at `i` sends its thread to `j` by reading `c`.
abbrev pub ReadsOf : Op → Bool → ℕ → ℕ → Inst → ℕ → Type 0
ReadsOf char icase c i inst j = (char_match icase c inst.c ≡ true) × (j ≡ i + 1)
ReadsOf any icase c i inst j = (c ≢ b'\n') × (j ≡ i + 1)
ReadsOf class icase c i inst j =
    (ccs : List ℕ) × (inst.ccs ≡ some ccs) × (ccs_match icase ccs c ≡ true) × (j ≡ i + 1)
ReadsOf nclass icase c i inst j =
    (ccs : List ℕ) × (inst.ccs ≡ some ccs) × (ccs_match icase ccs c ≡ false) × (j ≡ i + 1)
ReadsOf _ icase c i inst j = ⊥

module _ (exe : Program) where
  pub record Eps (s e : Bool) (i j : ℕ) : Type 0 where
    pub inst : Inst
    pub found : get_elem? exe i ≡ some inst
    pub goes : EpsOf inst.op s e i inst j

  pub record Reads (icase : Bool) (c i j : ℕ) : Type 0 where
    pub inst : Inst
    pub found : get_elem? exe i ≡ some inst
    pub goes : ReadsOf inst.op icase c i inst j

  pub record IsMatch (i : ℕ) : Type 0 where
    pub inst : Inst
    pub found : get_elem? exe i ≡ some inst
    pub ends : inst.op ≡ match

-- Where `^` holds: at the start of the input, or after a newline in multi-line mode.
abbrev pub at_sol : Bool → Bool → ℕ → Bool
at_sol multiline first last = if first then true else multiline && last == b'\n'

-- Where `$` holds: at the end of the input, or before a newline in multi-line mode.
abbrev pub at_eol : Bool → List ℕ → Bool
at_eol multiline [] = true
at_eol multiline (c ∷ s) = multiline && c == b'\n'

-- A thread at an index comes to a match instruction by reading the first `k` characters of a text.
-- `first` tells whether the text stands at the start of the input, and `last` is the character
-- before it.
pub data Accepts (exe : Program) (icase multiline : Bool) : ℕ → Bool → ℕ → List ℕ → ℕ → Type 0 where
  halt :
      {i : ℕ} {first : Bool} {last : ℕ} {s : List ℕ} {k : ℕ}
      → IsMatch exe i
      → k ≡ 0
      → Accepts exe icase multiline i first last s k
  move :
      {i j : ℕ} {first : Bool} {last : ℕ} {s : List ℕ} {k : ℕ}
      → Eps exe (at_sol multiline first last) (at_eol multiline s) i j
      → Accepts exe icase multiline j first last s k
      → Accepts exe icase multiline i first last s k
  eat :
      {i j : ℕ} {first : Bool} {last c : ℕ} {s : List ℕ} {k : ℕ}
      → Reads exe icase c i j
      → Accepts exe icase multiline j false c s k
      → Accepts exe icase multiline i first last (c ∷ s) (suc k)
