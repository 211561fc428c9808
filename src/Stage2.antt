-- ===== src/Stage2.antt =====
-- The second stage of the compiler, librxvm/stage2.c: relative offsets become indices, and chains of
-- jumps are shortened. `malloc` is taken to succeed here.
pub mod Relocate
pub mod Jumps
pub mod Shortens
pub mod Chains
pub mod Same
pub mod Finishes
use librxvm.Prelude.{
  ℕ, zero, suc, ◌+◌, ◌-◌, Bool, true, false, not, ◌&&◌, ◌||◌, List, [], ◌∷◌, ◌++◌, Option, none,
  some, Outcome, done, fault, out_of_fuel, ◌>>=◌, ◌==◌, if◌then◌else◌, length, get_elem?, get_or,
  set, replicate,
}
use librxvm.Prelude.Int.{ℤ, pos, negsuc, ◌+ℤ◌, index}
use librxvm.Inst.{Op, char, any, class, nclass, branch, jmp, sol, eol, match, Inst, Program}
use librxvm.Stack.{IrStack}
use librxvm.Vmcode.{set_x}

-- The new `x` and `y` of the instruction that goes to index `i`.
abbrev pub relocate_op : Op → ℕ → Inst → Inst
relocate_op branch i inst = record inst { x = inst.x +ℤ pos i; y = inst.y +ℤ pos i }
relocate_op jmp i inst = record inst { x = inst.x +ℤ pos i }
relocate_op _ i inst = inst

-- What the loop of `stage2` copies of all the items, from the tail of the list to its head.
unfoldable pub copy_items : ℕ → List Inst → Program
copy_items i [] = []
copy_items i (inst ∷ items) = relocate_op inst.op i inst ∷ copy_items (i + 1) items

-- `for (i = 0; i < ir->size; i++)`, with the number of rounds left first; behind the head the item is
-- NULL, which is read.
unfoldable pub copy_list : ℕ → ℕ → List Inst → Outcome Program
copy_list zero i items = done []
copy_list (suc n) i [] = fault
copy_list (suc n) i (inst ∷ items) = elim (copy_list n (i + 1) items) [
  | fault ↦ fault
  | out_of_fuel ↦ out_of_fuel
  | done exe ↦ done (relocate_op inst.op i inst ∷ exe)
]

abbrev pub is_jmp : Op → Bool
is_jmp jmp = true
is_jmp _ = false

-- `cmp->exe[x]`; an access outside the program is a fault.
unfoldable pub inst_at : Program → ℤ → Outcome Inst
inst_at exe x = elim (index x) [
  | none ↦ fault
  | some i ↦ elim (get_elem? exe i) [ none ↦ fault | some inst ↦ done inst ]
]

-- `while (inst.op == OP_JMP)`: the indices of the jumps that follow `inst`, each marked in `lookup`.
unfoldable pub follow_chain : ℕ → Program → Inst → List ℕ → List Bool → Outcome (List ℕ × List Bool)
unfolding inst_at
follow_chain zero exe inst chain lookup = out_of_fuel
follow_chain (suc fuel) exe inst chain lookup = elim (is_jmp inst.op) [
  | false ↦ done (chain, lookup)
  | true ↦ elim (inst_at exe inst.x) [
    | fault ↦ fault
    | out_of_fuel ↦ out_of_fuel
    | done next ↦ elim (index inst.x) [
      | none ↦ fault
      | some i ↦ elim (is_jmp next.op) [
        | true ↦ follow_chain fuel exe next (chain ++ i ∷ []) (set lookup i true)
        | false ↦ follow_chain fuel exe next chain lookup
      ]
    ]
  ]
]

abbrev pub last_of : ℕ → List ℕ → ℕ
last_of d [] = d
last_of d (i ∷ chain) = last_of i chain

-- `cmp->exe[chain[j]].x = end` for every saved jump.
unfoldable pub set_chain : Program → List ℕ → ℤ → Program
set_chain exe [] end = exe
set_chain exe (i ∷ chain) end = set_chain (set_x exe i end) chain end

unfoldable pub optimise_chain : Program → List Bool → ℕ → Outcome (Program × List Bool)
unfolding inst_at
optimise_chain exe lookup ix = do
  inst ← inst_at exe (pos ix)
  r ← follow_chain (length exe + 1) exe inst (ix ∷ []) (set lookup ix true)
  last ← inst_at exe (pos (last_of ix r.0))
  done (set_chain exe r.0 last.x, r.1)

-- `inst.op == OP_JMP && cmp->exe[inst.x].op == OP_JMP && !lookup[i]`
unfoldable pub starts_chain : Program → List Bool → ℕ → Inst → Outcome Bool
unfolding inst_at
starts_chain exe lookup i inst =
    if is_jmp inst.op
    then inst_at exe inst.x >>= (λ next. done (is_jmp next.op && not (get_or lookup i false)))
    else done false

-- `for (i = 0; i < (cmp->size - 1); ++i)`, with the number of rounds left first.
unfoldable pub optimise_from : ℕ → ℕ → Program → List Bool → Outcome Program
unfolding inst_at
optimise_from zero i exe lookup = done exe
optimise_from (suc n) i exe lookup = elim (inst_at exe (pos i)) [
  | fault ↦ fault
  | out_of_fuel ↦ out_of_fuel
  | done inst ↦ elim (starts_chain exe lookup i inst) [
    | fault ↦ fault
    | out_of_fuel ↦ out_of_fuel
    | done false ↦ optimise_from n (i + 1) exe lookup
    | done true ↦ elim (optimise_chain exe lookup i) [
      | fault ↦ fault
      | out_of_fuel ↦ out_of_fuel
      | done (exe', lookup') ↦ optimise_from n (i + 1) exe' lookup'
    ]
  ]
]

-- On a program that is not empty, as `size - 1` of an empty one would wrap around.
unfoldable pub optimise_chains : Program → Outcome Program
optimise_chains exe = optimise_from (length exe - 1) 0 exe (replicate (length exe) false)

-- `ir->dsize` tells whether jump chains may have come up.
unfoldable pub stage2 : IrStack → Outcome Program
stage2 ir = elim (copy_list ir.size 0 ir.items) [
  | fault ↦ fault
  | out_of_fuel ↦ out_of_fuel
  | done exe ↦ if ir.dsize == 0 then done exe else optimise_chains exe
]
