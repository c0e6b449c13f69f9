-- ===== src/Renaming.antt =====
-- src/UtilsAArch64.h and src/UtilsAArch64.cpp: the registers that an AArch64 instruction uses, their
-- renaming to registers that it does not use, and the generators of the opcodes that cannot be lifted.
-- LLVM's enumeration of registers is generated: a register is its class and its place in the class. The
-- classes of tuples are counted from their first register, as the code does. An operand that is not a
-- register is `none`. The disassembler, the assembler and the lifter are parameters.
pub mod Fresh
pub mod Generate
pub mod Operands
use aether_vm.Prelude.{
  contains, insert, ℕ, zero, suc, ◌+◌, ◌-◌, ◌/◌, ◌%◌, ◌^◌, Bool, true, false, ◌&&◌, ◌||◌, Option,
  none, some, List, [], ◌∷◌, ◌++◌, map, length, ltb, leb, ◌==◌, if◌then◌else◌,
}
use aether_vm.Search.{◌>>=◌}
use aether_vm.Cpu.{x0_reg, q0_reg}

-- llvm::AArch64 registers
pub data LlvmRegister : Type 0 where
  wzr xzr wsp sp fp lr no_class : LlvmRegister
  w_reg w_pair x_reg x_pair b_reg h_reg s_reg d_reg q_reg z_reg : ℕ → LlvmRegister
  d2 d3 d4 q2 q3 q4 z2 z3 z4 : ℕ → LlvmRegister

abbrev pub insert_all : List ℕ → List ℕ → List ℕ
insert_all [] l = l
insert_all (n ∷ numbers) l = insert_all numbers (insert n l)

-- The numbers that a register adds to `xregs`, and those that it adds to `qregs`
abbrev pub within : ℕ → ℕ → List ℕ → List ℕ
within i last numbers = if leb i last then numbers else []

unfoldable pub xregs_of : LlvmRegister → List ℕ
xregs_of (w_reg i) = within i 30 (i ∷ [])
xregs_of wsp = 31 ∷ []
xregs_of (w_pair i) = within i 14 (i ∷ (i + 1) ∷ [])
xregs_of (x_reg i) = within i 28 (i ∷ [])
xregs_of (x_pair i) = within i 13 (i ∷ (i + 1) ∷ [])
xregs_of fp = 29 ∷ []
xregs_of lr = 30 ∷ []
xregs_of sp = 31 ∷ []
xregs_of _ = []

unfoldable pub qregs_of : LlvmRegister → List ℕ
qregs_of (b_reg i) = within i 31 (i ∷ [])
qregs_of (h_reg i) = within i 31 (i ∷ [])
qregs_of (s_reg i) = within i 31 (i ∷ [])
qregs_of (d_reg i) = within i 31 (i ∷ [])
qregs_of (d2 i) = within i 30 (i ∷ (i + 1) ∷ [])
qregs_of (d3 i) = within i 29 (i ∷ (i + 1) ∷ (i + 2) ∷ [])
qregs_of (d4 i) = within i 28 (i ∷ (i + 1) ∷ (i + 2) ∷ (i + 3) ∷ [])
qregs_of (q_reg i) = within i 31 (i ∷ [])
qregs_of (q2 i) = within i 30 (i ∷ (i + 1) ∷ [])
qregs_of (q3 i) = within i 29 (i ∷ (i + 1) ∷ (i + 2) ∷ [])
qregs_of (q4 i) = within i 28 (i ∷ (i + 1) ∷ (i + 2) ∷ (i + 3) ∷ [])
qregs_of (z_reg i) = within i 31 (i ∷ [])
qregs_of (z2 i) = within i 30 (i ∷ (i + 1) ∷ [])
qregs_of (z3 i) = within i 29 (i ∷ (i + 1) ∷ (i + 2) ∷ [])
qregs_of (z4 i) = within i 28 (i ∷ (i + 1) ∷ (i + 2) ∷ (i + 3) ∷ [])
qregs_of _ = []

-- The loop over the operands, for one of the two sets
unfoldable pub collect : (LlvmRegister → List ℕ) → List (Option LlvmRegister) → List ℕ → List ℕ
collect numbers [] l = l
collect numbers (none ∷ operands) l = collect numbers operands l
collect numbers (some reg ∷ operands) l = collect numbers operands (insert_all (numbers reg) l)

-- parse_regused: the numbers of `Register`
unfoldable pub parse_regused : List (Option LlvmRegister) → List ℕ
parse_regused operands =
    map (λ i. x0_reg + i) (collect xregs_of operands [])
    ++ map (λ i. q0_reg + i) (collect qregs_of operands [])

-- normalize_opcode: the registers of single operands
unfoldable pub gpr_number : LlvmRegister → Option ℕ
gpr_number (w_reg i) = if leb i 30 then some i else none
gpr_number (x_reg i) = if leb i 28 then some i else none
gpr_number fp = some 29
gpr_number lr = some 30
gpr_number _ = none

unfoldable pub fpu_number : LlvmRegister → Option ℕ
fpu_number (b_reg i) = if leb i 31 then some i else none
fpu_number (h_reg i) = if leb i 31 then some i else none
fpu_number (s_reg i) = if leb i 31 then some i else none
fpu_number (d_reg i) = if leb i 31 then some i else none
fpu_number (q_reg i) = if leb i 31 then some i else none
fpu_number (z_reg i) = if leb i 31 then some i else none
fpu_number _ = none

abbrev pub one_of : (LlvmRegister → Option ℕ) → LlvmRegister → List ℕ
one_of number reg = elim (number reg) [ none ↦ [] | some i ↦ i ∷ [] ]

-- `while (usedregs.find(first + ireg) != end) ireg++`; `none` is the end of the fuel.
unfoldable pub next_free : ℕ → List ℕ → ℕ → ℕ → Option ℕ
next_free zero usedregs first ireg = none
next_free (suc fuel) usedregs first ireg = elim (contains usedregs (first + ireg)) [
  | true ↦ next_free fuel usedregs first (ireg + 1)
  | false ↦ some ireg
]

-- The loop that fills `regmaps` or `fpumaps`
unfoldable pub assign : ℕ → List ℕ → ℕ → ℕ → List ℕ → Option (List (ℕ × ℕ))
assign fuel usedregs first ireg [] = some []
assign fuel usedregs first ireg (i ∷ regs) = next_free fuel usedregs first ireg >>= λ free.
    assign fuel usedregs first (free + 1) regs >>= λ rest. some ((i, free) ∷ rest)

-- `find(i)->second`: `none` is the end of the map, which the code reads.
unfoldable pub lookup : List (ℕ × ℕ) → ℕ → Option ℕ
lookup [] i = none
lookup ((k, v) ∷ m) i = let rest = lookup m i in if k == i then some v else rest

-- The register of the same class with another number
unfoldable pub renumber : LlvmRegister → ℕ → LlvmRegister
renumber (w_reg i) n = w_reg n
renumber (x_reg i) n = x_reg n
renumber fp n = x_reg n
renumber lr n = x_reg n
renumber (b_reg i) n = b_reg n
renumber (h_reg i) n = h_reg n
renumber (s_reg i) n = s_reg n
renumber (d_reg i) n = d_reg n
renumber (q_reg i) n = q_reg n
renumber (z_reg i) n = z_reg n
renumber reg n = reg

-- One operand in the last loop
unfoldable pub rename : List (ℕ × ℕ) → List (ℕ × ℕ) → LlvmRegister → Option LlvmRegister
rename regmaps fpumaps reg = elim (gpr_number reg) [
  | some i ↦ lookup regmaps i >>= λ n. some (renumber reg n)
  | none ↦ elim (fpu_number reg) [
    | some i ↦ lookup fpumaps i >>= λ n. some (renumber reg n)
    | none ↦ some reg
  ]
]

unfoldable pub rename_all :
    List (ℕ × ℕ) → List (ℕ × ℕ) → List (Option LlvmRegister) → Option (List (Option LlvmRegister))
rename_all regmaps fpumaps [] = some []
rename_all regmaps fpumaps (none ∷ operands) =
    rename_all regmaps fpumaps operands >>= λ rest. some (none ∷ rest)
rename_all regmaps fpumaps (some reg ∷ operands) = rename regmaps fpumaps reg >>= λ reg'.
    rename_all regmaps fpumaps operands >>= λ rest. some (some reg' ∷ rest)

-- normalize_opcode up to the assembler, for the OpcodeRegisters of one instruction: the fuel of each search
-- is one round more than there are used registers.
unfoldable pub normalize_operands :
    List ℕ → List (Option LlvmRegister) → Option (List (Option LlvmRegister))
normalize_operands usedregs operands = do
  regmaps ←
      assign (suc (length usedregs)) usedregs x0_reg 0 (collect (one_of gpr_number) operands [])
  fpumaps ←
      assign (suc (length usedregs)) usedregs q0_reg 0 (collect (one_of fpu_number) operands [])
  rename_all regmaps fpumaps operands

-- normalize_opcode: the assembler gives the new opcode, or `none` when its size is not 4.
unfoldable pub normalize_opcode :
    (List (Option LlvmRegister) → Option ℕ) → List ℕ → List (Option LlvmRegister) → ℕ → Option ℕ
normalize_opcode assemble usedregs operands opcode =
    normalize_operands usedregs operands >>= λ inst. elim (assemble inst) [
      | none ↦ some opcode
      | some new ↦ some new
    ]
